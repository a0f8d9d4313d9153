-- ===== src/Demo/Whole.antt =====
-- The whole session of msdk/demo.c.
use msdk_linux.Base.{
  ℕ, abs, pos, ◌-ℤ◌, ◌≤◌, Bool, ◌*◌, arith, abs-sub, ◌<◌, List, ◌≡◌, ◌∙◌, inl, refl, sym, [], ◌∷◌,
  ◌⊎◌, minus_one, some,
}
use msdk_linux.Machine.{
  World, Host, Device, IsPrompt, live, ◌>>◌, return, ◌>>=◌, History, silent, usleep, rand, done,
}
use msdk_linux.Curve.{Floats, m_move_to3}
use msdk_linux.Curve.Draw.{IsInt}
use msdk_linux.Api.Agrees.{kept_of, Stands, restand, still}
use msdk_linux.Api.Runs.{new-Stands}
use msdk_linux.Mouse.Calls.{MouseState}
use msdk_linux.Machine.Ends.{Returns, Returns-done}
use msdk_linux.Move.{m_move_to, m_move_r}
use msdk_linux.Api.Reach.{m_move_to3-Returns}
use msdk_linux.Absolute.{m_resolution_used}
use msdk_linux.Session.{m_close, new_udev, vid, pid}
use msdk_linux.Hid.Open.{hid_close, hid_open}
use msdk_linux.Api.Box.{Down, Screen, nothing_at, at_spot}
use msdk_linux.Api.Axes.{Agrees-position, Somewhere}
use mathlib.Core.Path.{subst, sym}
use msdk_linux.Demo.{type_keys, silent, usleep, session, m_delay, rand, demo}
use msdk_linux.Hid.Wire.{handed_over, at_rest}
use msdk_linux.Api.Buttons.{Agrees-Quiet}
use msdk_linux.Demo.Typing.{IsTyping, type_keys-IsTyping}
use msdk_linux.Move.Target.{IsAt}
use msdk_linux.Common.{m_delay, u32_of, times_1000}
use msdk_linux.Keyboard.ReleaseAll.{idle-HasDown}
use msdk_linux.Keyboard.Held.{idle_op}
use msdk_linux.Common.Range.{m_delay_random_lem}
use msdk_linux.Demo.Moves.{first_move, IsStored, second_move}
use msdk_linux.Session.Opening.{m_open-new_udev}

near_x : abs (pos 800 -ℤ pos 500) ≤ 50 * 29
near_x = omega (arith, abs-sub (pos 800) (pos 500))

near_y : abs (pos 168 -ℤ pos 500) ≤ 50 * 29
near_y = omega (arith, abs-sub (pos 168) (pos 500))

module _ (h : Host) (fl : Floats) (scr : Screen) (dev : Device) (ok : Bool) (prompt : IsPrompt h)
    (int : IsInt fl) (enough : 30 < h.patience) where
  -- The start of the session, with nothing down.
  abbrev Q : World → Type 0
  Q w = Somewhere scr dev ok h prompt (nothing_at 0 0) w

  close :
      (d : Down) (w : World)
      → Stands scr dev ok d w
      → Returns ((do m_close live; return (pos 0)) w) (λ r w'. r ≡ pos 0)
  unfolding m_close hid_close
  close d w s = rw (s.device, ◌>>=◌) refl

  -- From the resolution on.
  last_move :
      (d : Down) (w : World)
      → Stands scr dev ok d w
      → IsStored w.udev
      → Returns
          ((do
            m_resolution_used live (pos 1920) (pos 1080)
            m_move_to3 h fl live (pos 800) (pos 168)
            m_close live
            return (pos 0))
            w)
          (λ r w'. r ≡ pos 0)
  unfolding m_resolution_used
  last_move d w s stored =
      let w1 : World = record w { udev = record w.udev { cx = pos 1920; cy = pos 1080 } } in
      let s1 : Stands scr dev ok d w1 =
        Agrees-position scr dev ok h prompt (kept_of w.udev) d
          (λ u. record u { cx = pos 1920; cy = pos 1080 }) w s (refl, refl, refl)
          (record {
            kept = refl;
            flag = s.place.flag;
            x_nonneg = s.place.x_nonneg;
            y_nonneg = s.place.y_nonneg;
          }) in
      let (r, w2, e, t) =
        Returns-done
          (λ r w'.
            (((r ≡ pos 0) × IsAt 800 168 w') ⊎ (r ≡ minus_one))
            × Somewhere scr dev ok h prompt d w')
          (m_move_to3 h fl live (pos 800) (pos 168) w1)
          (m_move_to3-Returns h fl scr dev ok d 800 168 29 w1 prompt int s1 (omega arith)
            (omega arith)
            (λ known. subst (λ x. abs (pos 800 -ℤ x) ≤ 50 * 29) (sym (stored known).0) near_x)
            (λ known. subst (λ y. abs (pos 168 -ℤ y) ≤ 50 * 29) (sym (stored known).1) near_y)
            (omega arith)) in
      rw (e, ◌>>=◌) (close (at_spot t.1.0 t.1.1 d) w2 t.1.2)

  calls_more :
      (d : Down) (w : World) (c : History)
      → Stands scr dev ok d w
      → handed_over c ≡ handed_over w.calls
      → Stands scr dev ok d (record w { calls = c })
  calls_more d w c s e =
      Agrees-Quiet scr dev ok (kept_of w.udev) d w (record w { calls = c }) s (refl, e)

  Q_more :
      (w : World) (c : History)
      → Q w
      → handed_over c ≡ handed_over w.calls
      → Q (record w { calls = c })
  Q_more w c (x, y, s) e = (x, y, calls_more (nothing_at x y) w c s e)

  -- From the loop of random keys on.
  typing_on :
      (w : World)
      → (s : Q w) → IsStored w.udev
      → Returns
          ((do
            type_keys h 4096
            silent (usleep 500000)
            m_resolution_used live (pos 1920) (pos 1080)
            m_move_to3 h fl live (pos 800) (pos 168)
            m_close live
            return (pos 0))
            w)
          (λ r w'. r ≡ pos 0)
  typing_on w (px, py, s) stored =
      let d0 : Down = nothing_at px py in
      let (x, w1, e1, (keys, s1, same)) =
        Returns-done (λ r. IsTyping h prompt scr dev ok (kept_of w.udev) d0 w.udev)
          (type_keys h 4096 w)
          (type_keys-IsTyping h prompt scr dev ok (kept_of w.udev) d0 w.udev 4096 w (omega arith)
            ([], s, refl)) in
      let d : Down = record d0 { keys = keys } in
      let w2 : World = record w1 { calls = usleep 500000 ∷ w1.calls } in
      let stored1 : IsStored w1.udev = subst IsStored (sym same) stored in
      let s2 : Stands scr dev ok d w2 =
        calls_more d w1 (usleep 500000 ∷ w1.calls)
          (restand scr dev ok (kept_of w.udev) still d d w1 s1) (unfold handed_over in refl) in
      rw (e1, ◌>>=◌) (last_move d w2 s2 stored1)

  pub session-Returns :
      (c : History)
      → handed_over c ≡ at_rest [] ok
      → Returns (session h fl (record { calls = c; udev = new_udev dev })) (λ r w'. r ≡ pos 0)
  unfolding session m_delay
  session-Returns c rest =
      let t0 = u32_of (times_1000 (pos 5000)) in
      let w1 : World = record { calls = usleep t0 ∷ c; udev = new_udev dev } in
      let wired : handed_over w1.calls ≡ at_rest [] ok = unfold handed_over in rest in
      let m1 : MouseState dev 0 [] ok w1 = record {
        device = refl;
        first = 0;
        op = refl;
        on_wire = wired;
      } in
      let s1 : Q w1 = (
        scr.start_x,
        scr.start_y,
        new-Stands scr dev ok w1
            (record { device = refl; down = idle-HasDown idle_op refl; on_wire = wired }) m1
            (record {
              kept = refl;
              flag = inl refl;
              x_nonneg = omega arith;
              y_nonneg = omega arith;
            }),
      ) in
      let (r2, w2, e2, ((cs, m2), unknown, s2)) =
        Returns-done
          (λ r w'.
            ((css : List (List ℕ)) × MouseState dev 0 css ok w')
            × (w'.udev.mouse_1st_movto ≡ 0)
            × Q w')
          (m_move_r h live (pos 100) (pos 100) w1)
          (first_move h scr dev ok prompt enough w1 s1 [] m1 refl) in
      let w3 : World = record w2 { calls = usleep 500000 ∷ w2.calls } in
      let wired3 : handed_over w3.calls ≡ handed_over w2.calls = unfold handed_over in refl in
      let m3 : MouseState dev 0 cs ok w3 = record {
        device = m2.device;
        first = m2.first;
        op = m2.op;
        on_wire = wired3 ∙ m2.on_wire;
      } in
      let s3 : Q w3 = Q_more w2 w3.calls s2 wired3 in
      let (r4, w4, e4, (stored, s4)) =
        Returns-done (λ r w'. IsStored w'.udev × Q w') (m_move_to h live (pos 500) (pos 500) w3)
          (second_move h scr dev ok prompt enough w3 s3 cs m3 unknown) in
      let (t5, e5) =
        m_delay_random_lem h (pos 2000) (pos 3000) w4 (omega arith) (omega arith) (omega arith) in
      let w5 : World = record w4 { calls = usleep t5 ∷ rand ∷ w4.calls } in
      let s5 : Q w5 = Q_more w4 w5.calls s4 (unfold handed_over in refl) in
      rw (e2, ◌>>=◌) (rw (e4, ◌>>=◌) (rw (e5, ◌>>=◌) (typing_on w5 s5 stored)))

-- The screen has no part in it.
abbrev screen : Screen
screen = record {
  last_x = 1919;
  last_y = 1079;
  start_x = 0;
  start_y = 0;
  on_x = omega arith;
  on_y = omega arith;
  column = λ n. 0;
  row = λ n. 0;
}

-- With lengths that fit an int, at a device that answers at once, with patience for more than 30
-- rounds, where HID_Open finds a device and memory is given and nothing has gone out before, the
-- demonstration program ends with 0, whatever the device answers: the movements, its 4096 random
-- keys and the movement along a curve all return.
pub demo-Returns :
    (h : Host) (fl : Floats) (dev : Device) (ok : Bool) (w w1 : World)
    → IsPrompt h
    → IsInt fl
    → 30 < h.patience
    → hid_open h vid pid w ≡ done (some dev) w1
    → h.allocates w1.calls ≡ some tt
    → handed_over w.calls ≡ at_rest [] ok
    → Returns (demo h fl w) (λ r w'. r ≡ pos 0)
unfolding demo
demo-Returns h fl dev ok w w1 prompt int enough e room rest =
    let (c, opens, wired) =
      m_open-new_udev h (pos 1) w w1 (omega arith) (omega arith) dev e room [] ok rest in
    rw (opens, ◌>>=◌) (session-Returns h fl screen dev ok prompt int enough c wired)
