-- ===== src/Move/Pointer.antt =====
-- The pointer on a screen that it cannot leave, under the reports of a movement.
use msdk_linux.Base.{
  ℕ, ℤ, pos, if◌then◌else◌, List, ◌++◌, ◌≤ℤ◌, ◌∷◌, ltb, pos_part, ◌+ℤ◌, ◌≡◌, signed_char, arith, ap,
  get_or, negsuc, [], inl, inr, refl, +ℤ_parts, sym, int_laws, ◌⊎◌, ◌≤◌, neg_part, eq_of_parts,
  one_part, ◌∙◌,
}
use msdk_linux.Move.Round.{IsSteady, moved, Goes}

-- Where the pointer comes along one axis of which `last` is the last pixel.
abbrev pub clamp : ℕ → ℤ → ℕ
clamp last x = if ltb last (pos_part x) then last else pos_part x

abbrev pub pointer : ℕ → ℕ → List (List ℕ) → ℕ → ℕ
pointer last place [] p = p
pointer last place (report ∷ reports) p =
    clamp last (pos (pointer last place reports p) +ℤ signed_char (get_or report place 0))

add_zero_ℤ : (x : ℤ) → x +ℤ pos 0 ≡ x
add_zero_ℤ x = omega int_laws

le_or_ge : (g : ℤ) → (pos 0 ≤ℤ g) ⊎ (g ≤ℤ pos 0)
le_or_ge (pos n) = inl (omega arith)
le_or_ge (negsuc n) = inr (omega arith)

pub pointer-append :
    (last place : ℕ) (later reports : List (List ℕ)) (p : ℕ)
    → pointer last place (later ++ reports) p
      ≡ pointer last place later (pointer last place reports p)
pointer-append last place [] reports p = refl
pointer-append last place (report ∷ later) reports p =
    ap (λ q. clamp last (pos q +ℤ signed_char (get_or report place 0)))
      (pointer-append last place later reports p)

clamp-within : (last : ℕ) (x : ℤ) → pos 0 ≤ℤ x → x ≤ℤ pos last → pos (clamp last x) ≡ x
clamp-within last (pos n) low high = ground arith
clamp-within last (negsuc n) low high = absurd (omega arith)

clamp-low : (last : ℕ) (x : ℤ) → pos_part x ≤ last → clamp last x ≡ pos_part x
clamp-low last x low = ground arith

forward_step :
    (last q p : ℕ) (s m : ℤ)
    → pos 0 ≤ℤ s
    → pos 0 ≤ℤ m
    → pos p +ℤ (s +ℤ m) ≤ℤ pos last
    → pos q ≡ pos p +ℤ m
    → (pos 0 ≤ℤ s +ℤ m) × (pos (clamp last (pos q +ℤ s)) ≡ pos p +ℤ (s +ℤ m))
forward_step last q p s m s_up m_up on e =
    let sum = +ℤ_parts s m in
    let whole = +ℤ_parts (pos p) (s +ℤ m) in
    let before = +ℤ_parts (pos p) m in
    let next = +ℤ_parts (pos q) s in
    let e_pos = ap pos_part e in
    let e_neg = ap neg_part e in
    let same : pos q +ℤ s ≡ pos p +ℤ (s +ℤ m) =
      eq_of_parts (pos q +ℤ s) (pos p +ℤ (s +ℤ m)) (omega arith) in
    (omega arith, clamp-within last (pos q +ℤ s) (omega arith) (omega arith) ∙ same)

-- Forwards, to a place on the screen, the pointer goes as far as the steps say.
forwards :
    (last place : ℕ) (g : ℤ) (reports : List (List ℕ)) (p : ℕ)
    → pos 0 ≤ℤ g
    → IsSteady place g reports
    → pos p +ℤ moved place reports ≤ℤ pos last
    → (pos 0 ≤ℤ moved place reports)
      × (pos (pointer last place reports p) ≡ pos p +ℤ moved place reports)
forwards last place g [] p up steady on = (omega arith, sym (add_zero_ℤ (pos p)))
forwards last place g (report ∷ reports) p up (step, steady) on =
    let s = signed_char (get_or report place 0) in
    let m = moved place reports in
    let ahead : pos 0 ≤ℤ s = elim step [ inl w ↦ omega arith | inr w ↦ omega arith ] in
    let sum = +ℤ_parts s m in
    let whole = +ℤ_parts (pos p) (s +ℤ m) in
    let before = +ℤ_parts (pos p) m in
    let (m_ahead, there) = forwards last place g reports p up steady (omega arith) in
    forward_step last (pointer last place reports p) p s m ahead m_ahead on there

backward_step :
    (last q p : ℕ) (s m : ℤ)
    → s ≤ℤ pos 0
    → m ≤ℤ pos 0
    → p ≤ last
    → q ≡ pos_part (pos p +ℤ m)
    → (s +ℤ m ≤ℤ pos 0) × (clamp last (pos q +ℤ s) ≡ pos_part (pos p +ℤ (s +ℤ m)))
backward_step last q p s m s_down m_down on e =
    let sum = +ℤ_parts s m in
    let whole = +ℤ_parts (pos p) (s +ℤ m) in
    let before = +ℤ_parts (pos p) m in
    let next = +ℤ_parts (pos q) s in
    let one = one_part (pos q +ℤ s) in
    let one' = one_part (pos p +ℤ (s +ℤ m)) in
    let one_before = one_part (pos p +ℤ m) in
    let one_s = one_part s in
    let one_m = one_part m in
    let same : pos_part (pos q +ℤ s) ≡ pos_part (pos p +ℤ (s +ℤ m)) = omega arith in
    (omega arith, clamp-low last (pos q +ℤ s) (omega arith) ∙ same)

-- Backwards the pointer stops at the edge.
backwards :
    (last place : ℕ) (g : ℤ) (reports : List (List ℕ)) (p : ℕ)
    → g ≤ℤ pos 0
    → IsSteady place g reports
    → p ≤ last
    → (moved place reports ≤ℤ pos 0)
      × (pointer last place reports p ≡ pos_part (pos p +ℤ moved place reports))
backwards last place g [] p down steady on = (omega arith, ap pos_part (sym (add_zero_ℤ (pos p))))
backwards last place g (report ∷ reports) p down (step, steady) on =
    let s = signed_char (get_or report place 0) in
    let back : s ≤ℤ pos 0 = elim step [ inl w ↦ omega arith | inr w ↦ omega arith ] in
    let (m_back, there) = backwards last place g reports p down steady on in
    backward_step last (pointer last place reports p) p s (moved place reports) back m_back on there

-- A movement by `g` takes the pointer that far, where it is not past the far edge; at the near edge it
-- stops.
pub pointer-moves :
    (last place p : ℕ) (g : ℤ) (reports : List (List ℕ))
    → p ≤ last
    → pos p +ℤ g ≤ℤ pos last
    → Goes place reports g
    → pointer last place reports p ≡ pos_part (pos p +ℤ g)
pointer-moves last place p g reports on_p on_t (sum, steady) =
    let there : pos p +ℤ moved place reports ≡ pos p +ℤ g = ap (λ m. pos p +ℤ m) sum in
    elim (le_or_ge g) [
      | inl up ↦ ap pos_part ((forwards last place g reports p up steady (rw there on_t)).1 ∙ there)
      | inr down ↦ (backwards last place g reports p down steady on_p).1 ∙ ap pos_part there
    ]

-- So it reaches a target on the screen.
pub pointer-reaches :
    (last place p t : ℕ) (g : ℤ) (reports : List (List ℕ))
    → p ≤ last
    → t ≤ last
    → pos p +ℤ g ≡ pos t
    → Goes place reports g
    → pointer last place reports p ≡ t
pointer-reaches last place p t g reports on_p on_t e goes =
    pointer-moves last place p g reports on_p (rw e (omega arith)) goes ∙ ap pos_part e

-- A movement of -3000 takes it to the edge from anywhere on a screen of at most 3001 pixels.
pub pointer-corner :
    (last place p : ℕ) (reports : List (List ℕ))
    → p ≤ last
    → last ≤ 3000
    → Goes place reports (negsuc 2999)
    → pointer last place reports p ≡ 0
pointer-corner last place p reports on small (sum, steady) =
    let whole = +ℤ_parts (pos p) (negsuc 2999) in
    let one = one_part (pos p +ℤ negsuc 2999) in
    (backwards last place (negsuc 2999) reports p (omega arith) steady on).1
    ∙ ap (λ m. pos_part (pos p +ℤ m)) sum
    ∙ omega arith
