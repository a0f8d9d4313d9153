-- ===== src/Api/Steps.antt =====
-- What `M_MoveTo3` draws and one step of its curve keep the record and the box in agreement.
use msdk_linux.Base.{ℕ, ℤ, Bool, Bool-cases, pos, abs, leb, inl, inr, false, true, ◌≤ℤ◌, ◌≡◌, ◌⊎◌}
use msdk_linux.Machine.{Device, Host, IsPrompt, World, Udev}
use msdk_linux.Api.Box.{Down, Screen}
use msdk_linux.Curve.{Floats, Way, make_step, set_place, place_of, follow}
use msdk_linux.Machine.Ends.{Keeps, Ensures-mono}
use msdk_linux.Common.{m_rand_dom_nbr}
use msdk_linux.Api.Agrees.{Agrees, IsPlaced, at_place, Stands, Kept, kept_of}
use msdk_linux.Curve.Step.{set_place-SameBut, follow-nonneg}
use msdk_linux.Api.Axes.{Agrees-position, standing}
use msdk_linux.Common.Quiet.{m_rand_dom_nbr-Quiet}
use msdk_linux.Api.Buttons.{Agrees-Quiet}

follow-kept :
    (flag : ℕ) (place mov : ℤ)
    → (flag ≡ 0) ⊎ (flag ≡ 1)
    → pos 0 ≤ℤ place
    → pos 0 ≤ℤ follow flag place mov
follow-kept flag place mov (inl e) p = rw e p
follow-kept flag place mov (inr e) p = follow-nonneg flag place mov e

set_place-IsPlaced :
    (swapped : Bool) (a b : ℤ) (u : Udev)
    → IsPlaced (kept_of u) u
    → pos 0 ≤ℤ a
    → pos 0 ≤ℤ b
    → IsPlaced (kept_of (set_place swapped a b u)) (set_place swapped a b u)
set_place-IsPlaced true a b u s p q = at_place b a u s.flag q p
set_place-IsPlaced false a b u s p q = at_place a b u s.flag p q

place_of-nonneg :
    (swapped : Bool) (u : Udev)
    → IsPlaced (kept_of u) u
    → (pos 0 ≤ℤ (place_of swapped u).0) × (pos 0 ≤ℤ (place_of swapped u).1)
place_of-nonneg true u s = (s.y_nonneg, s.x_nonneg)
place_of-nonneg false u s = (s.x_nonneg, s.y_nonneg)

module _ (scr : Screen) (dev : Device) (ok : Bool) (h : Host) (prompt : IsPrompt h) (d : Down)
    (fl : Floats) where
  abbrev Q : World → Type 0
  Q = Stands scr dev ok d

  pub draw_kept : (k : Kept) (a b : ℤ) → Keeps (Agrees scr dev ok k d) (m_rand_dom_nbr h a b)
  draw_kept k a b w s =
      Ensures-mono _ _ (m_rand_dom_nbr h a b w) (m_rand_dom_nbr-Quiet h a b w)
        (λ r w' q. Agrees-Quiet scr dev ok k d w w' s q)

  pub draw-Agrees : (a b : ℤ) → Keeps Q (m_rand_dom_nbr h a b)
  draw-Agrees a b = standing scr dev ok h prompt d (m_rand_dom_nbr h a b) (λ k. draw_kept k a b)

  placed :
      (swapped : Bool) (a b : ℤ) (w : World)
      → pos 0 ≤ℤ a
      → pos 0 ≤ℤ b
      → Q w
      → Q (record w { udev = set_place swapped a b w.udev })
  placed swapped a b w p q s =
      let same = set_place-SameBut swapped a b w.udev in
      Agrees-position scr dev ok h prompt (kept_of w.udev) d (set_place swapped a b) w s
        (same.h_dev, same.kb, same.mouse) (set_place-IsPlaced swapped a b w.udev s.place p q)

  pub make_step-Agrees :
      (swapped : Bool) (a b : ℤ) (ori : ℤ × ℤ) (bc : ℤ) (rnd : ℕ) (s : Way)
      → pos 0 ≤ℤ a
      → pos 0 ≤ℤ b
      → Keeps Q (make_step fl swapped (a, b) ori bc rnd s)
  make_step-Agrees swapped a b ori bc rnd s p q w agrees =
      let (at_a, at_b) = place_of-nonneg swapped w.udev agrees.place in
      let flag = w.udev.mouse_1st_movto in
      elim (Bool-cases (leb (abs s.a_dis) rnd)) [
        | inl e ↦ unfold make_step in rw e (placed swapped a b w p q agrees)
        | inr e ↦
            unfold make_step in
            rw e (
              placed swapped _ _ w
                (follow-kept flag (place_of swapped w.udev).0 _ agrees.place.flag at_a)
                (follow-kept flag (place_of swapped w.udev).1 _ agrees.place.flag at_b) agrees)
      ]
