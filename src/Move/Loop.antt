-- ===== src/Move/Loop.antt =====
-- The loop of `M_InternalMoveR` at a device that answers at once: the reports add up to the
-- distance.
use msdk_linux.Base.{
  ℕ, ℤ, pos, ◌≡◌, ◌⊎◌, arith, List, ◌+ℤ◌, Bool, ◌∷◌, eq_of_parts, minus_one, ◌++◌, ap, refl, ◌∙◌,
  int_laws, true, ◌<◌, abs, inl, ◌≤◌, sym, ◌*◌, suc, Bool-cases, inr, zero, if◌then◌else◌, eqb_ℤ,
}
use msdk_linux.Machine.{
  Host, Device, IsPrompt, World, done, ◌>>◌, modify, ◌>>=◌, rand, return, Udev, usleep,
}
use msdk_linux.Mouse.Calls.{OnlyMouseOp, MouseState}
use msdk_linux.Mouse.{set_mouse_op, no_motion}
use msdk_linux.Move.Step.{Closer}
use msdk_linux.Hid.Wire.{handed_over}
use msdk_linux.Move.{move_loop, is_zero, forget_position}
use msdk_linux.Common.{m_delay_random}
use msdk_linux.Common.Range.{m_delay_random_lem}
use msdk_linux.Machine.Ends.{Returns}
use mathlib.Core.Path.{subst}
use msdk_linux.Move.Round.{step_lem, OnTheWay, IsMoves, moved, Goes}

module _ (h : Host) (prompt : IsPrompt h) (dev : Device) (buttons : ℕ) (cs : List (List ℕ))
    (ok : Bool) (start : World) (goal_x goal_y : ℤ) where
  abbrev At : ℤ → ℤ → World → Type 0
  At = OnTheWay dev buttons cs ok start goal_x goal_y

  -- What went out, whether the movement was ended or not.
  abbrev pub Reported : List (List ℕ) → World → Type 0
  Reported reports w' = IsMoves buttons reports × MouseState dev buttons (reports ++ cs) ok w'

  -- The reports add up to the distance and only `CurrMouseOp` changed, or the position is lost.
  abbrev pub Arrived : ℤ → World → Type 0
  Arrived r w' =
      ((r ≡ pos 0)
        × ((reports : List (List ℕ)) × Reported reports w'
            × Goes 2 reports goal_x
            × Goes 3 reports goal_y
            × OnlyMouseOp start w'))
      ⊎ ((r ≡ minus_one)
          × ((reports : List (List ℕ)) × Reported reports w' × (w'.udev.mouse_1st_movto ≡ 0)))

  At-MouseState :
      (x y : ℤ) (w : World) (u : Udev)
      → (s : At x y w) → u.h_dev ≡ w.udev.h_dev
      → u.curr_mouse_op ≡ no_motion w.udev.curr_mouse_op
      → MouseState dev buttons (s.reports ++ cs) ok (record w { udev = u })
  At-MouseState x y w u s same_dev same_op = record {
    device = same_dev ∙ s.device;
    first = s.first;
    op = same_op ∙ ap no_motion s.op;
    on_wire = s.on_wire;
  }

  both_zero : (x y : ℤ) → is_zero x y ≡ true → (x ≡ pos 0) × (y ≡ pos 0)
  both_zero x y e = ground (arith, eq_of_parts x (pos 0), eq_of_parts y (pos 0))

  add_zero_ℤ : (x : ℤ) → x +ℤ pos 0 ≡ x
  add_zero_ℤ x = omega int_laws

  At-Arrived :
      (x y : ℤ) (w : World)
      → At x y w
      → is_zero x y ≡ true
      → Arrived (pos 0) (record w { udev = set_mouse_op no_motion w.udev })
  At-Arrived x y w s e =
      let (zx, zy) = both_zero x y e in
      let f : Udev → Udev = λ u. record u { curr_mouse_op = no_motion w.udev.curr_mouse_op } in
      inl (
        refl,
        (
          s.reports,
          (s.moves, At-MouseState x y w (set_mouse_op no_motion w.udev) s refl refl),
          (
            sym (add_zero_ℤ (moved 2 s.reports))
                ∙ ap (λ z. moved 2 s.reports +ℤ z) (sym zx)
                ∙ s.so_far_x,
            s.steady_x,
          ),
          (
            sym (add_zero_ℤ (moved 3 s.reports))
                ∙ ap (λ z. moved 3 s.reports +ℤ z) (sym zy)
                ∙ s.so_far_y,
            s.steady_y,
          ),
          ap f s.same,
        ),
      )

  At-lost :
      (x y : ℤ) (w : World)
      → At x y w
      → Arrived minus_one (record w { udev = forget_position w.udev })
  At-lost x y w s =
      inr (
        refl,
        (s.reports, (s.moves, At-MouseState x y w (forget_position w.udev) s refl refl), refl),
      )

  At-delay :
      (x y : ℤ) (w : World)
      → At x y w
      → (w' : World) × (m_delay_random h (pos 10) (pos 20) w ≡ done (pos 0) w') × At x y w'
  At-delay x y w s =
      let (t, e) =
        m_delay_random_lem h (pos 10) (pos 20) w (omega arith) (omega arith) (omega arith) in
      (
        record w { calls = usleep t ∷ rand ∷ w.calls },
        e,
        record {
          device = s.device;
          first = s.first;
          dx = s.dx;
          dy = s.dy;
          op = s.op;
          reports = s.reports;
          moves = s.moves;
          on_wire = unfold handed_over in s.on_wire;
          so_far_x = s.so_far_x;
          so_far_y = s.so_far_y;
          same = s.same;
          way_x = s.way_x;
          way_y = s.way_y;
          steady_x = s.steady_x;
          steady_y = s.steady_y;
        },
      )

  no_distance : (x y : ℤ) → abs x ≤ 0 → abs y ≤ 0 → is_zero x y ≡ true
  no_distance x y a b = ground arith

  nearer : (n : ℕ) (x x' : ℤ) → abs x ≤ 100 * suc n → Closer x x' → abs x' ≤ 100 * n
  nearer n x x' far c = elim c [ inl z ↦ rw z (omega arith) | inr less ↦ omega arith ]

  -- What follows a round, as `move_loop` has it, where the rest of the loop arrives.
  after_step-Arrived :
      (f : ℕ) (x y r : ℤ) (w : World)
      → ((r ≡ pos 0) ⊎ (r ≡ minus_one))
      → At x y w
      → ((w' : World) → At x y w' → Returns (move_loop h f x y w') Arrived)
      → Returns
          ((if eqb_ℤ r (pos 0)
              then (if is_zero x y
                  then move_loop h f x y
                  else (m_delay_random h (pos 10) (pos 20) >> move_loop h f x y))
              else (do modify forget_position; return minus_one))
            w)
          Arrived
  after_step-Arrived f x y r w (inl z) s rest = rw z (elim (Bool-cases (is_zero x y)) [
    | inl e ↦ rw e (rest w s)
    | inr e ↦ let (w', delayed, s') = At-delay x y w s in rw e (rw (delayed, ◌>>=◌) (rest w' s'))
  ])
  after_step-Arrived f x y r w (inr m) s rest = rw m (At-lost x y w s)

  pub move_loop-Arrived :
      (n f : ℕ) (x y : ℤ) (w : World)
      → n < f
      → abs x ≤ 100 * n
      → abs y ≤ 100 * n
      → At x y w
      → Returns (move_loop h f x y w) Arrived
  unfolding move_loop
  move_loop-Arrived n zero x y w lt far_x far_y s = absurd (omega arith)
  move_loop-Arrived zero (suc f) x y w lt far_x far_y s =
      rw (no_distance x y far_x far_y) (At-Arrived x y w s (no_distance x y far_x far_y))
  move_loop-Arrived (suc n) (suc f) x y w lt far_x far_y s = elim (Bool-cases (is_zero x y)) [
    | inl e ↦ rw e (At-Arrived x y w s e)
    | inr e ↦
        let t = step_lem h prompt dev buttons cs ok start goal_x goal_y x y w s in
        let rest = λ (w' : World) (s' : At t.x' t.y' w').
          move_loop-Arrived n f t.x' t.y' w' (omega arith) (nearer n x t.x' far_x t.closer_x)
            (nearer n y t.y' far_y t.closer_y) s' in
        rw e (
          subst (λ o. Returns o Arrived)
            (sym (
              t.returns (λ x' y' r.
                if eqb_ℤ r (pos 0)
                then (if is_zero x' y'
                    then move_loop h f x' y'
                    else (m_delay_random h (pos 10) (pos 20) >> move_loop h f x' y'))
                else (do modify forget_position; return minus_one))))
            (after_step-Arrived f t.x' t.y' t.r t.w' t.ends t.there rest))
  ]
