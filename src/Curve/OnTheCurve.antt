-- ===== src/Curve/OnTheCurve.antt =====
-- What holds of `M_MoveTo3` on its way, and that a step keeps it.
use msdk_linux.Base.{
  ℕ, ℤ, abs, List, Bool, ◌+◌, ◌∷◌, ◌≤◌, ◌<◌, pos, ◌-ℤ◌, eqb_ℤ, ◌⊎◌, ◌≤ℤ◌, ◌≡◌, true, false,
  int_laws, ◌+ℤ◌, [], arith, ◌∙◌, ap, le→leb, inr, lt→leb, inl, refl, if◌then◌else◌, ltb_ℤ, ◌≢◌,
}
use msdk_linux.Machine.{Udev, World}
use msdk_linux.Curve.{Way, make_step, set_place, Floats, place_of, less_step, at_most_126, follow}
use msdk_linux.Curve.Step.{
  SameBut, place_of-set_place, raw_step, IsPart, signed_char-byte_of, raw_step-IsPart, part_of_way,
  follow-nonneg,
}
use msdk_linux.Machine.Ends.{Returns}
use msdk_linux.Absolute.{absolute_command}
use mathlib.Core.Path.{subst}

-- Reports as `M_InternalMoveTo3` makes them for coordinates, whatever these are.
abbrev pub AreForPlaces : ℤ → ℤ → List (List ℕ) → Type 0
AreForPlaces cx cy [] = Unit
AreForPlaces cx cy (report ∷ reports) =
    ((x : ℤ) × (y : ℤ) × (report ≡ absolute_command cx cy x y)) × AreForPlaces cx cy reports

pub SameBut-set_place :
    (swapped : Bool) (a b : ℤ) (u u' : Udev) → SameBut u u' → SameBut u (set_place swapped a b u')
SameBut-set_place true a b u u' s = record {
  h_dev = s.h_dev;
  kb = s.kb;
  mouse = s.mouse;
  flag = s.flag;
  width = s.width;
  height = s.height;
}
SameBut-set_place false a b u u' s = record {
  h_dev = s.h_dev;
  kb = s.kb;
  mouse = s.mouse;
  flag = s.flag;
  width = s.width;
  height = s.height;
}

-- What is left is less by 50 at least, or nothing.
abbrev pub Nearer : ℤ → ℤ → Type 0
Nearer dis dis' = (abs dis' + 50 ≤ abs dis) ⊎ (dis' ≡ pos 0)

module _ (swapped : Bool) (ta tb : ℕ) (u0 : Udev) where
  -- `u0` is the record at the start. The kept position and what is left along the longer axis add
  -- up to the target, and where nothing is left there the position is the target.
  pub record OnWay (u : Udev) (s : Way) : Type 0 where
    pub same : SameBut u0 u
    pub even : s.a_curr ≡ s.a_prev
    pub at_a : (place_of swapped u).0 +ℤ s.a_dis ≡ pos ta
    pub a_nonneg : pos 0 ≤ℤ (place_of swapped u).0
    pub b_nonneg : pos 0 ≤ℤ (place_of swapped u).1
    pub settled : s.a_dis ≡ pos 0 → place_of swapped u ≡ (pos ta, pos tb)

  -- A step was made: not of 0, and it kept all of that.
  pub record Stepped (s : Way) (w : World) (t : ℤ × Way) (w' : World) : Type 0 where
    pub calls : w'.calls ≡ w.calls
    pub moves : eqb_ℤ t.0 (pos 0) ≡ false
    pub nearer : Nearer s.a_dis t.1.a_dis
    pub on_way : OnWay w'.udev t.1

  not_zero : (x : ℤ) → 0 < abs x → eqb_ℤ x (pos 0) ≡ false
  not_zero x p = ground arith

  zero_left : (x : ℤ) → x -ℤ x ≡ pos 0
  zero_left x = omega int_laws

  zero_right : (x : ℤ) → x +ℤ pos 0 ≡ x
  zero_right x = omega int_laws

  pub straight_step :
      (fl : Floats) (ori : ℤ × ℤ) (bc : ℤ) (rnd : ℕ) (s : Way) (w : World)
      → OnWay w.udev s
      → 0 < abs s.a_dis
      → abs s.a_dis ≤ rnd
      → abs s.a_dis ≤ 126
      → Returns (make_step fl swapped (pos ta, pos tb) ori bc rnd s w) (Stepped s w)
  unfolding make_step
  straight_step fl ori bc rnd s w o some short byte =
      let there = place_of-set_place swapped (pos ta) (pos tb) w.udev in
      let none_left : less_step s.a_dis s.a_dis ≡ pos 0 =
        ap (λ m. s.a_dis -ℤ m) (signed_char-byte_of s.a_dis byte) ∙ zero_left s.a_dis in
      rw (le→leb (abs s.a_dis) rnd short) (record {
        calls = refl;
        moves = not_zero s.a_dis some;
        nearer = inr none_left;
        on_way = record {
          same = SameBut-set_place swapped (pos ta) (pos tb) u0 w.udev o.same;
          even = o.even;
          at_a = rw (there, none_left) (zero_right (pos ta));
          a_nonneg = rw there (omega arith);
          b_nonneg = rw there (omega arith);
          settled = λ e. there;
        };
      })

  pub curved_step :
      (known : u0.mouse_1st_movto ≡ 1) (fl : Floats) (ori : ℤ × ℤ) (bc : ℤ) (rnd : ℕ) (s : Way)
      (w : World)
      → OnWay w.udev s
      → 50 ≤ rnd
      → rnd < abs s.a_dis
      → Returns (make_step fl swapped (pos ta, pos tb) ori bc rnd s w) (Stepped s w)
  unfolding make_step
  curved_step known fl ori bc rnd s w o long short =
      let flag = w.udev.mouse_1st_movto in
      let is_known = o.same.flag ∙ known in
      let (a_pos, b_pos) = place_of swapped w.udev in
      let raw = raw_step s.a_dis s.a_curr s.a_prev rnd in
      let part : IsPart s.a_dis (at_most_126 raw) =
        subst (λ c. IsPart s.a_dis (at_most_126 (raw_step s.a_dis s.a_curr c rnd))) o.even
          (raw_step-IsPart s.a_dis s.a_curr rnd long short) in
      let (less, near, left, stays, follows, sum) =
        part_of_way flag a_pos s.a_dis (at_most_126 raw) ta is_known o.a_nonneg o.at_a part in
      let a_to = if ltb_ℤ (pos 0) s.a_dis then s.a_curr +ℤ pos rnd else s.a_curr -ℤ pos rnd in
      let b_mov = at_most_126 (fl.bent a_to ori.0 bc ori.1 -ℤ s.b_prev) in
      let there =
        place_of-set_place swapped (follow flag a_pos (at_most_126 raw)) (follow flag b_pos b_mov)
          w.udev in
      let none_left : less_step s.a_dis (at_most_126 raw) ≢ pos 0 =
        λ e. absurd (omega (arith, left, ap abs e)) in
      rw (lt→leb (abs s.a_dis) rnd short) (record {
        calls = refl;
        moves = rw stays (not_zero (at_most_126 raw) (omega (arith, part.long)));
        nearer = inl (rw stays near);
        on_way = record {
          same =
              SameBut-set_place swapped (follow flag a_pos (at_most_126 raw))
                (follow flag b_pos b_mov) u0 w.udev o.same;
          even = refl;
          at_a = rw there (rw (stays, follows) sum);
          a_nonneg = rw there (follow-nonneg flag a_pos (at_most_126 raw) is_known);
          b_nonneg = rw there (follow-nonneg flag b_pos b_mov is_known);
          settled = λ e. absurd (none_left (rw stays at e));
        };
      })
