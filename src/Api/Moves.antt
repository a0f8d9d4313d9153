-- ===== src/Api/Moves.antt =====
-- The relative movements keep the record and the box in agreement.
use msdk_linux.Base.{
  ℕ, ℤ, Bool, if◌then◌else◌, suc, eqb_ℤ, set, pos, minus_one, ap, get_or, refl, zero, ◌∙◌,
}
use msdk_linux.Machine.{Device, Host, IsPrompt, World, Prog, live, ◌>>◌, modify, ◌>>=◌, return}
use msdk_linux.Api.Box.{Down, Screen, at_spot, shift}
use msdk_linux.Machine.Ends.{Keeps, Leads, Keeps-bind, Keeps-if, Leads-bind, Leads-if, Ensures-mono}
use msdk_linux.Move.{
  m_internal_move_r, move_loop, m_move_r, track, forget_position, is_zero, move_axis,
}
use msdk_linux.Api.Agrees.{Holds-shows_buttons, send_mouse_op-Holds, still, Kept, kept_of, restand}
use msdk_linux.Move.To.{track_keeps}
use msdk_linux.Common.{m_delay_random}
use msdk_linux.Mouse.{set_mouse_op, send_mouse_op, no_motion}
use msdk_linux.Api.Axes.{
  Agrees-position, x-Moves, y-Moves, lost_place, track_place, Moving, Aimed, Somewhere,
  move_axis-Aimed, Quiet-Aimed,
}
use msdk_linux.Common.Quiet.{m_delay_random-Quiet}

module _ (scr : Screen) (dev : Device) (ok : Bool) (h : Host) (prompt : IsPrompt h) where
  -- What holds while the loop runs, while a report is made, and after the movement.
  abbrev Under : Down → World → Type 0
  Under = Moving scr dev ok h prompt

  abbrev Due : Down → World → Type 0
  Due = Aimed scr dev ok h prompt

  abbrev After : Down → World → Type 0
  After = Somewhere scr dev ok h prompt

  delay_then :
      (a b : ℤ) (d : Down) (m : Prog ℤ)
      → Leads (Under d) (After d) m
      → Leads (Due d) (After d) (m_delay_random h a b >> m)
  delay_then a b d m leads =
      Leads-bind (Due d) (Due d) (After d) (m_delay_random h a b) (λ _. m)
        (λ w s.
          Ensures-mono _ _ (m_delay_random h a b w) (m_delay_random-Quiet h a b w)
            (λ r w'. Quiet-Aimed scr dev ok h prompt d w w' s))
        (λ _ w s. leads w s.0)

  aim :
      (d : Down) (w : World)
      → Under d w
      → Due d (record w { udev = set_mouse_op (λ op. set op 0 0x04) w.udev })
  aim d w (m, x, y, s) =
      let d1 : Down = at_spot x y d in
      (
        (
          m,
          x,
          y,
          Holds-shows_buttons scr dev ok (kept_of w.udev) m d1 d1 d.buttons m (λ op. set op 0 0x04)
              w s (record { first = 4; bytes = ap (λ l. set l 0 0x04) s.mouse.bytes }),
        ),
        ap (λ l. get_or (set l 0 0x04) 0 0) s.mouse.bytes,
      )

  -- The movement in the bytes is taken out again.
  stop_moving :
      (d : Down) (w : World)
      → Under d w
      → After d (record w { udev = set_mouse_op no_motion w.udev })
  stop_moving d w (m, x, y, s) =
      let d1 : Down = at_spot x y d in
      (
        x,
        y,
        Holds-shows_buttons scr dev ok (kept_of w.udev) m d1 d1 d.buttons still no_motion w s
            (record { first = s.mouse.first; bytes = ap no_motion s.mouse.bytes }),
      )

  lost : (d : Down) → Leads (Under d) (After d) (do modify forget_position; return minus_one)
  lost d w s =
      let (x, y, s') = stop_moving d w s in
      let w1 : World = record w { udev = set_mouse_op no_motion w.udev } in
      let k : Kept = kept_of w.udev in
      (
        x,
        y,
        Agrees-position scr dev ok h prompt k (at_spot x y d)
            (λ u. record u { mouse_1st_movto = 0 }) w1 s' (refl, refl, refl)
            (lost_place k w1.udev s'.place),
      )

  send_mouse_op-Aimed : (d : Down) → Keeps (Due d) (send_mouse_op h)
  send_mouse_op-Aimed d w ((m, x, y, s), four) =
      let d1 : Down = at_spot x y d in
      let d2 : Down = shift scr m.dx m.dy d1 in
      let k : Kept = kept_of w.udev in
      Ensures-mono _ _ (send_mouse_op h w)
        (send_mouse_op-Holds scr dev ok h prompt k m d1 d1 w s refl four)
        (λ r w' (s', same). (
          (m, d2.spot_x, d2.spot_y, restand scr dev ok k m d2 d2 w' s'),
          ap (λ u. get_or u.curr_mouse_op 0 0) same ∙ four,
        ))

  module _ (d : Down) where
    -- One round from its report on.
    report_step :
        (x y : ℤ) (m : Prog ℤ)
        → Leads (Under d) (After d) m
        → Leads (Due d) (After d) (do
          r ← send_mouse_op h
          if eqb_ℤ r (pos 0)
              then (if is_zero x y then m else (m_delay_random h (pos 10) (pos 20) >> m))
              else (do modify forget_position; return minus_one))
    report_step x y m leads =
        let P = Due d in
        let Q = After d in
        let delayed = (m_delay_random h (pos 10) (pos 20) >> m) in
        let again = (if is_zero x y then m else delayed) in
        let failed = (do modify forget_position; return minus_one) in
        Leads-bind P P Q (send_mouse_op h) (λ r. if eqb_ℤ r (pos 0) then again else failed)
          (send_mouse_op-Aimed d)
          (λ r.
            Leads-if P Q (eqb_ℤ r (pos 0)) again failed
              (Leads-if P Q (is_zero x y) m delayed (λ w s. leads w s.0)
                (delay_then (pos 10) (pos 20) d m leads))
              (λ w s. lost d w s.0))

    pub move_loop-Moving : (f : ℕ) (x y : ℤ) → Leads (Under d) (After d) (move_loop h f x y)
    unfolding move_loop
    move_loop-Moving zero x y = λ w s. tt
    move_loop-Moving (suc f) x y =
        let P = Due d in
        let Q = After d in
        let finished : Prog ℤ = (do modify (set_mouse_op no_motion); return (pos 0)) in
        let report : ℤ → ℤ → Prog ℤ = λ x' y'. (do
          r ← send_mouse_op h
          let rest = move_loop h f x' y'
          if eqb_ℤ r (pos 0)
              then (if is_zero x' y' then rest else (m_delay_random h (pos 10) (pos 20) >> rest))
              else (do modify forget_position; return minus_one)) in
        let step : Prog ℤ = (do
          modify (set_mouse_op (λ op. set op 0 0x04))
          x' ← move_axis h 2 x
          y' ← move_axis h 3 y
          report x' y') in
        Leads-if (Under d) Q (is_zero x y) finished step (stop_moving d) (λ w s.
          Leads-bind P P Q (move_axis h 2 x) (λ x'. do y' ← move_axis h 3 y; report x' y')
            (move_axis-Aimed scr dev ok h prompt 2 (x-Moves scr dev ok h prompt) x d)
            (λ x'.
              Leads-bind P P Q (move_axis h 3 y) (λ y'. report x' y')
                (move_axis-Aimed scr dev ok h prompt 3 (y-Moves scr dev ok h prompt) y d)
                (λ y'. report_step x' y' (move_loop h f x' y') (move_loop-Moving f x' y')))
            (record w { udev = set_mouse_op (λ op. set op 0 0x04) w.udev }) (aim d w s))

    pub m_internal_move_r-Agrees :
        (x y : ℤ) → Keeps (Somewhere scr dev ok h prompt d) (m_internal_move_r h live x y)
    unfolding m_internal_move_r
    m_internal_move_r-Agrees x y w (p, q, s) =
        let (same_dev, same_mouse, same_flag, same_kb) = track_keeps x y w.udev in
        move_loop-Moving h.patience x y (record w { udev = track x y w.udev })
          (
            still,
            p,
            q,
            Agrees-position scr dev ok h prompt (kept_of w.udev) (at_spot p q d) (track x y) w s
                (same_dev, same_kb, same_mouse) (track_place x y (kept_of w.udev) w.udev s.place),
          )

    pub zero_or :
        (r : ℤ)
        → Keeps
            (Somewhere scr dev ok h prompt d)
            (if eqb_ℤ r (pos 0) then return (pos 0) else return minus_one)
    zero_or r =
        Keeps-if (After d) (eqb_ℤ r (pos 0)) (return (pos 0)) (return minus_one) (λ w s. s)
          (λ w s. s)

    pub m_move_r-Agrees : (x y : ℤ) → Keeps (Somewhere scr dev ok h prompt d) (m_move_r h live x y)
    unfolding m_move_r
    m_move_r-Agrees x y =
        Keeps-bind (After d) (m_internal_move_r h live x y)
          (λ r. if eqb_ℤ r (pos 0) then return (pos 0) else return minus_one)
          (m_internal_move_r-Agrees x y) zero_or
