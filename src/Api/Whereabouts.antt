-- ===== src/Api/Whereabouts.antt =====
-- Where the pointer is after any sequence of calls: the kept position, where it is known, is its
-- pixel.
use msdk_linux.Base.{
  ℕ, List, ◌≡◌, ℤ, ◌≤◌, pos, negsuc, Bool, ◌<◌, false, ◌∙◌, sym, true, ◌⊎◌, minus_one, ltb_ℤ, arith,
  ◌||◌, ap, refl, neg_part, inl, inr, Bool-cases,
}
use msdk_linux.Api.Box.{Screen, Down, reads}
use msdk_linux.Api.Runs.{Runs, begun, asked, ended, Effects}
use msdk_linux.Machine.{Host, World, Device, IsPrompt, done, Outcome, live}
use msdk_linux.Api.Requests.{
  Request, move_r, move_to, move_to3, Effect, is_movement, run, reset_mouse_pos,
}
use msdk_linux.Curve.{Floats, m_move_to3}
use msdk_linux.Curve.Draw.{IsInt}
use msdk_linux.Api.Spots.{IsUsual}
use msdk_linux.Api.Agrees.{Stands, kept_of, restand, still, Kept}
use msdk_linux.Move.Follows.{Follows}
use msdk_linux.Machine.Ends.{Ensures, Ensures-mono, Returns-Ensures}
use msdk_linux.Api.Answers.{run-Ends}
use msdk_linux.Api.Idle.{Effect-SameSpot, true_not_false}
use mathlib.Core.Path.{subst, sym, ap, subst₂}
use msdk_linux.Move.{m_move_to, m_reset_mouse_pos, m_move_r}
use msdk_linux.Api.Tracks.{Tracked, m_reset_mouse_pos-Tracked, m_move_r-Tracked, m_move_to-Tracked}
use msdk_linux.Hid.Wire.{at_rest, received, AllTaken, received-handed_over}
use msdk_linux.Move.Target.{IsLost, IsAt, lost}
use msdk_linux.Api.Reach.{known-IsAt}
use msdk_linux.Api.Fits.{Fits, AllFit}
use msdk_linux.Api.Arrives.{m_move_to3-Tracked}

not_both : (r : ℤ) → r ≡ minus_one → r ≡ pos 0 → ⊥
not_both r m z = absurd (omega (arith, ap neg_part (sym m ∙ z)))

-- `Follows`, of the position alone.
abbrev IsThere : ℕ → ℕ → Kept → Type 0
IsThere p q k = (k.flag ≡ 0) ⊎ ((k.flag ≡ 1) × (k.x ≡ pos p) × (k.y ≡ pos q))

module _ (h : Host) (fl : Floats) (scr : Screen) (dev : Device) (ok : Bool) (n : ℕ)
    (prompt : IsPrompt h) (int : IsInt fl) (enough : n < h.patience) (rounds : 30 ≤ n)
    (usual : IsUsual scr) where
  -- Where a call leads from a state in which the kept position is the pointer's.
  abbrev GoesOn : Request → Down → World → Type 0
  GoesOn ask d w =
      (d' : Down) × Effect ask d d' × Stands scr dev ok d' w × Follows d'.spot_x d'.spot_y w

  idle_step :
      (ask : Request) (d : Down) (w : World)
      → is_movement ask ≡ false
      → Stands scr dev ok d w
      → Follows d.spot_x d.spot_y w
      → Ensures (run h fl ask w) (λ r. GoesOn ask d)
  idle_step ask d w idle s follows =
      Ensures-mono _ _ (run h fl ask w) (run-Ends scr dev ok h prompt fl (kept_of w.udev) d ask w s)
        (λ r w' (k', d', kept, effect, s').
          let (x, y) = Effect-SameSpot ask d d' idle effect in
          let same : kept_of w'.udev ≡ kept_of w.udev = s'.place.kept ∙ (rw idle at kept) in
          (
            d',
            effect,
            restand scr dev ok k' still d' d' w' s',
            subst₂ (λ p q. Follows p q w') (sym x) (sym y)
                (subst (IsThere d.spot_x d.spot_y) (sym same) follows),
          ))

  -- Coordinates below 0 are refused.
  abbrev IsBelow : ℤ → ℤ → Type 0
  IsBelow x y = (ltb_ℤ x (pos 0) || ltb_ℤ y (pos 0)) ≡ true

  pub m_move_to-refused :
      (x y : ℤ) (w : World) → IsBelow x y → m_move_to h live x y w ≡ done minus_one w
  unfolding m_move_to
  m_move_to-refused x y w below = rw below refl

  pub m_move_to3-refused :
      (x y : ℤ) (w : World) → IsBelow x y → m_move_to3 h fl live x y w ≡ done minus_one w
  unfolding m_move_to3
  m_move_to3-refused x y w below = rw below refl

  stays_put :
      (o : Outcome ℤ) (r : ℤ) (d : Down) (w w' : World)
      → Stands scr dev ok d w
      → Follows d.spot_x d.spot_y w
      → o ≡ done minus_one w
      → o ≡ done r w'
      → Tracked scr dev ok d w'
  stays_put o r d w w' s follows refused e =
      ended (λ r w'. Tracked scr dev ok d w') (done minus_one w) r w' (sym refused ∙ e)
        (d, refl, s, follows)

  -- The same for a movement that fits.
  movement_step :
      (ask : Request) (r : ℤ) (d : Down) (w w' : World)
      → is_movement ask ≡ true
      → Stands scr dev ok d w
      → Follows d.spot_x d.spot_y w
      → Fits scr n ask r w
      → run h fl ask w ≡ done r w'
      → GoesOn ask d w'
  unfolding run Effect is_movement
  movement_step reset_mouse_pos r d w w' moves s follows fits e =
      ended (λ r. Tracked scr dev ok d) _ r w' e
        (Returns-Ensures _ (m_reset_mouse_pos h live w)
          (m_reset_mouse_pos-Tracked h scr dev ok n prompt enough rounds usual d w s))
  movement_step (move_r x y) r d w w' moves s follows (far_x, far_y, to_x, to_y) e =
      ended (λ r. Tracked scr dev ok d) _ r w' e
        (Returns-Ensures _ (m_move_r h live x y w) (
          m_move_r-Tracked h scr dev ok n prompt enough rounds usual d w s follows x y far_x far_y
            to_x to_y))
  movement_step (move_to (pos a) (pos b)) r d w w' moves s follows (in_x, in_y) e =
      ended (λ r. Tracked scr dev ok d) _ r w' e
        (Returns-Ensures _ (m_move_to h live (pos a) (pos b) w)
          (m_move_to-Tracked h scr dev ok n prompt enough rounds usual d w s follows a b in_x in_y))
  movement_step (move_to (pos a) (negsuc m)) r d w w' moves s follows fits e =
      stays_put _ r d w w' s follows (m_move_to-refused (pos a) (negsuc m) w (ground arith)) e
  movement_step (move_to (negsuc n) y) r d w w' moves s follows fits e =
      stays_put _ r d w w' s follows (m_move_to-refused (negsuc n) y w (ground arith)) e
  movement_step (move_to3 (pos a) (pos b)) r d w w' moves s follows
        (in_x, in_y, exact, wide, tall, far_x, far_y, through) e =
      let ends =
        ended (λ r w'. Tracked scr dev ok d w' ⊎ ((r ≡ minus_one) × (w.udev.mouse_1st_movto ≡ 1))) _
          r w' e
          (Returns-Ensures _ (m_move_to3 h fl live (pos a) (pos b) w) (
            m_move_to3-Tracked h fl scr dev ok n prompt int enough d w s follows a b exact
              (wide, tall) in_x in_y far_x far_y)) in
      elim ends [ inl tracked ↦ tracked | inr (m, known) ↦ absurd (not_both r m (through known)) ]
  movement_step (move_to3 (pos a) (negsuc m)) r d w w' moves s follows fits e =
      stays_put _ r d w w' s follows (m_move_to3-refused (pos a) (negsuc m) w (ground arith)) e
  movement_step (move_to3 (negsuc n) y) r d w w' moves s follows fits e =
      stays_put _ r d w w' s follows (m_move_to3-refused (negsuc n) y w (ground arith)) e
  movement_step other r d w w' moves s follows fits e = absurd (true_not_false (sym moves))

  call_step :
      (ask : Request) (r : ℤ) (d : Down) (w w' : World)
      → Stands scr dev ok d w
      → Follows d.spot_x d.spot_y w
      → Fits scr n ask r w
      → run h fl ask w ≡ done r w'
      → GoesOn ask d w'
  call_step ask r d w w' s follows fits e = elim (Bool-cases (is_movement ask)) [
    | inl moves ↦ movement_step ask r d w w' moves s follows fits e
    | inr idle ↦
        ended (λ r. GoesOn ask d) (run h fl ask w) r w' e (idle_step ask d w idle s follows)
  ]

  -- From a state in which the kept position is unknown or the pixel of the pointer, calls that fit
  -- lead to such a state again, the pointer being where the reports that were handed over say.
  pub Runs-Follows :
      (w : World) (asks : List Request) (w' : World) (d : Down)
      → Stands scr dev ok d w
      → Follows d.spot_x d.spot_y w
      → (runs : Runs h fl w asks w') → AllFit scr n h fl w asks w' runs
      → (d' : Down) × Effects asks d d' × Stands scr dev ok d' w' × Follows d'.spot_x d'.spot_y w'
  Runs-Follows w _ _ d s follows begun fit = (d, refl, s, follows)
  Runs-Follows w _ _ d s follows (asked {asks = asks} {w1 = w1} ask r w2 runs e) (before, fits) =
      let (d1, effects, s1, follows1) = Runs-Follows w asks w1 d s follows runs before in
      let (d2, effect, s2, follows2) = call_step ask r d1 w1 w2 s1 follows1 fits e in
      (d2, (d1, effects, effect), s2, follows2)

  -- On a screen of at most 3001 by 3001 pixels whose edges hold the pointer, at a device that
  -- answers at once, with patience for more than 30 rounds and with lengths that fit an int, from a
  -- state in which the record and the reports that were handed over agree and the kept position is
  -- unknown or the pixel of the pointer: after any sequence of calls that return, in which no
  -- transfer of a report has failed, relative movements are within the patience and from a known
  -- position do not go past the right or the bottom edge, those of M_MoveTo go to pixels of the
  -- screen or below 0, and those along a curve, where they are not refused for a coordinate below
  -- 0, go to pixels that the other system makes of their reports without an error, are made with
  -- the resolution of the screen and, from a known position, within the patience and without
  -- failing, M_GetCurrMousePos fails or tells the pixel that the reports that the box has got have
  -- taken the pointer to.
  pub Runs-m_get_curr_mouse_pos :
      (w : World) (asks : List Request) (w' : World) (d : Down)
      → Stands scr dev ok d w
      → Follows d.spot_x d.spot_y w
      → (runs : Runs h fl w asks w') → AllFit scr n h fl w asks w' runs
      → AllTaken h w'.calls
      → (reports : List (List ℕ)) × (received h w'.calls ≡ at_rest reports ok)
        × (IsLost w' ⊎ IsAt (reads scr reports).spot_x (reads scr reports).spot_y w')
  Runs-m_get_curr_mouse_pos w asks w' d s follows runs fit taken =
      let (d', effects, s', follows') = Runs-Follows w asks w' d s follows runs fit in
      (
        s'.reports,
        received-handed_over h w'.calls taken ∙ s'.on_wire,
        elim follows' [
          | inl unknown ↦ inl (lost w' unknown)
          | inr (known, x, y) ↦ inr (
              subst (λ b. IsAt b.spot_x b.spot_y w') (sym s'.reading)
                (known-IsAt d'.spot_x d'.spot_y w' known x y))
        ],
      )
