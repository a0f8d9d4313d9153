-- ===== src/Api/Windows.antt =====
-- The keyboard's functions on Windows codes keep the record and the box in agreement.
use msdk_linux.Base.{ℤ, Bool, ◌≡◌, minus_one, refl, pos, Bool-cases, ltb, inl, inr, sym, negsuc}
use msdk_linux.Api.Box.{Down, Screen}
use msdk_linux.Machine.{World, Device, Prog, Host, IsPrompt, live}
use msdk_linux.Machine.Ends.{Ensures}
use msdk_linux.Api.Requests.{hid_of}
use msdk_linux.Api.Keys.{
  after_down, after_up, not_below_zero, Typed, m_key_down-Agrees, m_key_state-Agrees,
  m_key_up-Agrees, m_key_press-Typed, nothing,
}
use msdk_linux.Api.Agrees.{Agrees, Kept}
use msdk_linux.Keyboard.{
  by_vkey, m_key_state2, m_key_up2, m_key_press2, m_key_down2, m_key_up, m_key_state, m_key_down,
  m_key_press,
}
use mathlib.Core.Path.{subst, sym}

by_vkey-Ensures :
    (R : World → Type 0) (code : ℤ) (f : ℤ → Prog ℤ) (w : World)
    → Ensures (f (hid_of code) w) (λ r. R)
    → (hid_of code ≡ minus_one → R w)
    → Ensures (by_vkey code f w) (λ r. R)
by_vkey-Ensures R (pos n) f w p refused = elim (Bool-cases (ltb 222 n)) [
  | inl e ↦ rw e (refused (rw e refl))
  | inr e ↦ rw e (rw e at p)
]
by_vkey-Ensures R (negsuc n) f w p refused = tt

refused_down : (code : ℤ) (d : Down) → code ≡ minus_one → after_down code d ≡ d
refused_down code d e = rw e (rw (not_below_zero 0) refl)

refused_up : (code : ℤ) (d : Down) → code ≡ minus_one → after_up code d ≡ d
refused_up code d e = rw e (rw (not_below_zero 0) refl)

module _ (scr : Screen) (dev : Device) (ok : Bool) (k0 : Kept) (h : Host) (prompt : IsPrompt h)
    (code : ℤ) (d : Down) (w : World) (s : Agrees scr dev ok k0 d w) where
  pub m_key_down2-Agrees :
      Ensures
        (m_key_down2 h live code w)
        (λ r w'. Agrees scr dev ok k0 (after_down (hid_of code) d) w')
  unfolding m_key_down2
  m_key_down2-Agrees =
      by_vkey-Ensures (Agrees scr dev ok k0 (after_down (hid_of code) d)) code (m_key_down h live) w
        (m_key_down-Agrees scr dev ok k0 h prompt (hid_of code) d w s)
        (λ e. subst (λ d'. Agrees scr dev ok k0 d' w) (sym (refused_down (hid_of code) d e)) s)

  pub m_key_up2-Agrees :
      Ensures (m_key_up2 h live code w) (λ r w'. Agrees scr dev ok k0 (after_up (hid_of code) d) w')
  unfolding m_key_up2
  m_key_up2-Agrees =
      by_vkey-Ensures (Agrees scr dev ok k0 (after_up (hid_of code) d)) code (m_key_up h live) w
        (m_key_up-Agrees scr dev ok k0 h prompt (hid_of code) d w s)
        (λ e. subst (λ d'. Agrees scr dev ok k0 d' w) (sym (refused_up (hid_of code) d e)) s)

  pub m_key_state2-Agrees : Ensures (m_key_state2 live code w) (λ r w'. Agrees scr dev ok k0 d w')
  unfolding m_key_state2
  m_key_state2-Agrees =
      by_vkey-Ensures (Agrees scr dev ok k0 d) code (m_key_state live) w
        (m_key_state-Agrees scr dev ok k0 h prompt (hid_of code) d w s) (λ e. s)

  pub m_key_press2-Typed :
      (nbr : ℤ)
      → Ensures
          (m_key_press2 h live code nbr w)
          (λ r w'. Typed scr dev ok k0 h prompt (hid_of code) d w')
  unfolding m_key_press2
  m_key_press2-Typed nbr =
      by_vkey-Ensures (Typed scr dev ok k0 h prompt (hid_of code) d) code
        (λ hid. m_key_press h live hid nbr) w
        (m_key_press-Typed scr dev ok k0 h prompt (hid_of code) nbr d w (d, nothing, s))
        (λ e. (d, nothing, s))
