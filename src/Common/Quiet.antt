-- ===== src/Common/Quiet.antt =====
-- What random numbers and delays leave alone, whatever their arguments are.
use msdk_linux.Base.{◌≡◌, ℤ, refl, Bool-cases, ◌==◌, inl, inr, pos}
use msdk_linux.Machine.{World, Host, ◌>>◌, silent, usleep, return}
use msdk_linux.Common.{
  m_rand_dom_nbr, m_delay_random, m_delay, Host, rand_range, silent, low_end, usleep, u32_of,
  times_1000, return,
}
use msdk_linux.Hid.Wire.{handed_over}
use msdk_linux.Machine.Ends.{Ensures, Ensures-then}

-- The same record, and nothing new on the wire.
abbrev pub Quiet : World → World → Type 0
Quiet w w' = (w'.udev ≡ w.udev) × (handed_over w'.calls ≡ handed_over w.calls)

pub m_rand_dom_nbr-Quiet :
    (h : Host) (a b : ℤ) (w : World) → Ensures (m_rand_dom_nbr h a b w) (λ r w'. Quiet w w')
unfolding m_rand_dom_nbr
m_rand_dom_nbr-Quiet h a b w = elim (Bool-cases (rand_range (low_end a b) b == 0)) [
  | inl e ↦ rw e tt
  | inr e ↦ rw e (refl, unfold handed_over in refl)
]

pub m_delay_random-Quiet :
    (h : Host) (a b : ℤ) (w : World) → Ensures (m_delay_random h a b w) (λ r w'. Quiet w w')
unfolding m_delay_random
m_delay_random-Quiet h a b w =
    Ensures-then (λ r w'. Quiet w w') (λ r w'. Quiet w w') (m_rand_dom_nbr h a b)
      (λ t. do silent (usleep (u32_of (times_1000 t))); return (pos 0)) w
      (m_rand_dom_nbr-Quiet h a b w) (λ t w' (same, quiet). (same, unfold handed_over in quiet))

pub m_delay-Quiet : (time : ℤ) (w : World) → Ensures (m_delay time w) (λ r w'. Quiet w w')
unfolding m_delay handed_over
m_delay-Quiet time w = (refl, refl)
