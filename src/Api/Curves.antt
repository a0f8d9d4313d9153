-- ===== src/Api/Curves.antt =====
-- `M_MoveTo3` keeps the record and the box in agreement, whatever its floating point numbers are.
use msdk_linux.Base.{ℤ, Bool, pos, ◌≤ℤ◌}
use msdk_linux.Machine.{Device, Host, IsPrompt, World, Prog, live}
use msdk_linux.Api.Box.{Down, Screen}
use msdk_linux.Curve.{Floats, make_step, m_move_to3}
use msdk_linux.Machine.Ends.{Keeps}
use msdk_linux.Common.{m_delay_random}
use msdk_linux.Api.Agrees.{Stands}
use msdk_linux.Api.Axes.{nonneg_guard, Somewhere, anywhere, standing}
use msdk_linux.Api.Buttons.{m_delay_random-Agrees}
use msdk_linux.Api.Places.{m_internal_move_to3-Agrees}
use msdk_linux.Curve.Keeps.{Rules, m_move_to3_kept}
use msdk_linux.Common.{m_rand_dom_nbr}
use msdk_linux.Api.Steps.{draw-Agrees, make_step-Agrees}

module _ (scr : Screen) (dev : Device) (ok : Bool) (h : Host) (prompt : IsPrompt h) (d : Down)
    (fl : Floats) where
  abbrev Q : World → Type 0
  Q = Somewhere scr dev ok h prompt d

  steps : {A : Type 0} (m : Prog A) → ((d' : Down) → Keeps (Stands scr dev ok d') m) → Keeps Q m
  steps = anywhere scr dev ok h prompt d

  rules : Rules h fl Q (λ x. pos 0 ≤ℤ x)
  rules = record {
    draw = λ a b. steps (m_rand_dom_nbr h a b) (λ d'. draw-Agrees scr dev ok h prompt d' fl a b);
    delay = λ a b. steps (m_delay_random h a b) (λ d'.
        standing scr dev ok h prompt d' (m_delay_random h a b)
          (λ k. m_delay_random-Agrees scr dev ok k h prompt a b d'));
    step = λ swapped a b ori bc rnd s p q.
        steps (make_step fl swapped (a, b) ori bc rnd s)
          (λ d'. make_step-Agrees scr dev ok h prompt d' fl swapped a b ori bc rnd s p q);
    report = m_internal_move_to3-Agrees scr dev ok h prompt d;
    kept = λ w (px, py, s). (s.place.x_nonneg, s.place.y_nonneg);
    on_screen = nonneg_guard;
  }

  pub m_move_to3-Agrees : (x y : ℤ) → Keeps Q (m_move_to3 h fl live x y)
  m_move_to3-Agrees = m_move_to3_kept h fl Q (λ x. pos 0 ≤ℤ x) rules
