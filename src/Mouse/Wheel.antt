-- ===== src/Mouse/Wheel.antt =====
-- The wheel: the loop of `M_MouseWheel`.
use msdk_linux.Base.{
  ℕ, List, ℤ, replicate, if◌then◌else◌, ◌++◌, ◌∷◌, Bool, ltb_ℤ, ◌≡◌, pos, some, suc, ap, ◌⊎◌, inl,
  zero, minus_one, abs, arith, ◌<◌, inr, refl, set, ◌≤◌, Bool-cases, ◌==◌,
}
use msdk_linux.Machine.{Host, IsPrompt, Device, World, done, live, usleep, ◌>>=◌, rand}
use msdk_linux.Mouse.{m_mouse_wheel, wheel_loop, set_mouse_op, no_motion}
use msdk_linux.Mouse.Calls.{mouse_report, MouseState, send_mouse_op_sent}
use msdk_linux.Common.{m_delay_random}
use msdk_linux.Machine.Ends.{Returns, Returns-mono}
use msdk_linux.Hid.Wire.{handed_over, at_rest}
use msdk_linux.Common.Range.{m_delay_random_lem}
use mathlib.Core.Path.{subst}

replicate-snoc {ℓ} :
    {A : Type ℓ} (n : ℕ) (a : A) (xs : List A) → replicate n a ++ a ∷ xs ≡ a ∷ (replicate n a ++ xs)
replicate-snoc zero a xs = refl
replicate-snoc (suc n) a xs = ap (◌∷◌ a) (replicate-snoc n a xs)

module _ (h : Host) (prompt : IsPrompt h) (dev : Device) (ok : Bool) (buttons wheel : ℕ) where
  abbrev turn : List ℕ
  turn = mouse_report buttons 0 0 wheel

  record Turning (cs : List (List ℕ)) (w : World) : Type 0 where
    device : w.udev.h_dev ≡ some dev
    op : w.udev.curr_mouse_op ≡ turn
    on_wire : handed_over w.calls ≡ at_rest cs ok

  -- Exactly `n` reports have gone out after 0, and one to `n` of them after -1.
  abbrev pub Turned : List (List ℕ) → ℕ → ℤ → World → Type 0
  Turned cs n r w' =
      ((r ≡ pos 0) × MouseState dev buttons (replicate n turn ++ cs) ok w')
      ⊎ ((r ≡ minus_one)
          × ((k : ℕ) × (0 < k) × (k ≤ n) × MouseState dev buttons (replicate k turn ++ cs) ok w'))

  stopped :
      (cs : List (List ℕ)) (w : World)
      → Turning cs w
      → MouseState dev buttons cs ok (record w { udev = set_mouse_op no_motion w.udev })
  stopped cs w s = record {
    device = s.device;
    first = 4;
    op = ap no_motion s.op;
    on_wire = s.on_wire;
  }

  -- One report more at the start of the rest.
  later :
      (cs : List (List ℕ)) (n : ℕ) (r : ℤ) (w : World)
      → Turned (turn ∷ cs) n r w
      → Turned cs (suc n) r w
  later cs n r w (inl (z, s)) =
      inl (z, subst (λ l. MouseState dev buttons l ok w) (replicate-snoc n turn cs) s)
  later cs n r w (inr (m, (k, at_least, few, s))) = inr (
    m,
    (
      suc k,
      omega arith,
      omega arith,
      subst (λ l. MouseState dev buttons l ok w) (replicate-snoc k turn cs) s,
    ),
  )

  Turning-delay :
      (cs : List (List ℕ)) (w : World)
      → Turning cs w
      → (w' : World) × (m_delay_random h (pos 20) (pos 35) w ≡ done (pos 0) w') × Turning cs w'
  Turning-delay cs w s =
      let (t, e) =
        m_delay_random_lem h (pos 20) (pos 35) w (omega arith) (omega arith) (omega arith) in
      (
        record w { calls = usleep t ∷ rand ∷ w.calls },
        e,
        record { device = s.device; op = s.op; on_wire = unfold handed_over in s.on_wire },
      )

  wheel_loop-Turned :
      (cs : List (List ℕ)) (n : ℕ) (w : World)
      → Turning cs w
      → Returns (wheel_loop h n w) (Turned cs n)
  unfolding wheel_loop
  wheel_loop-Turned cs zero w s = inl (refl, stopped cs w s)
  wheel_loop-Turned cs (suc n) w s =
      let (r, c, e, sent, ends) =
        send_mouse_op_sent h prompt dev ok turn cs w s.device s.op refl s.on_wire in
      let w1 : World = record w { calls = c } in
      let s1 : Turning (turn ∷ cs) w1 = record { device = s.device; op = s.op; on_wire = sent } in
      let rest = λ (w' : World) (s' : Turning (turn ∷ cs) w').
        Returns-mono (Turned (turn ∷ cs) n) (Turned cs (suc n)) (wheel_loop h n w')
          (wheel_loop-Turned (turn ∷ cs) n w' s') (later cs n) in
      rw (e, ◌>>=◌)
        (elim ends [
          | inl z ↦ rw z (elim (Bool-cases (n == 0)) [
            | inl last ↦ rw last (rest w1 s1)
            | inr more ↦
                let (w2, delayed, s2) = Turning-delay (turn ∷ cs) w1 s1 in
                rw more (rw (delayed, ◌>>=◌) (rest w2 s2))
          ])
          | inr m ↦ rw m (inr (refl, (1, omega arith, omega arith, stopped (turn ∷ cs) w1 s1)))
        ])

-- The step of one report: 1, or -1 as a byte.
abbrev pub wheel_step : ℤ → ℕ
wheel_step nbr = if ltb_ℤ (pos 0) nbr then 1 else 0xFF

-- At a device that answers at once M_MouseWheel returns for any amount: with 0 exactly as many
-- reports as the amount says have gone out, each one step in its direction, or with -1 after at
-- least one and at most that many; the buttons are as before and no movement is left over.
pub m_mouse_wheel-Turned :
    (h : Host) (dev : Device) (ok : Bool) (buttons : ℕ) (nbr : ℤ) (cs : List (List ℕ)) (w : World)
    → (prompt : IsPrompt h) → MouseState dev buttons cs ok w
    → Returns
        (m_mouse_wheel h live nbr w)
        (Turned h prompt dev ok buttons (wheel_step nbr) cs (abs nbr))
unfolding m_mouse_wheel
m_mouse_wheel-Turned h dev ok buttons nbr cs w prompt s =
    wheel_loop-Turned h prompt dev ok buttons (wheel_step nbr) cs (abs nbr)
      (record w { udev = set_mouse_op (λ op. set (set op 0 0x04) 4 (wheel_step nbr)) w.udev })
      (record {
        device = s.device;
        op = ap (λ op. set (set op 0 0x04) 4 (wheel_step nbr)) s.op;
        on_wire = s.on_wire;
      })
