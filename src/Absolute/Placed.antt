-- ===== src/Absolute/Placed.antt =====
-- `M_InternalMoveTo3` at a device that answers at once.
use msdk_linux.Base.{
  ℕ, List, ℤ, pos, Bool, ◌≡◌, some, eqb_ℤ, false, ◌⊎◌, minus_one, ◌∷◌, arith, length, take, refl,
  Bool-cases, inl, ◌∙◌, ap, inr,
}
use msdk_linux.Absolute.{m_internal_move_to3, absolute_command}
use msdk_linux.Machine.{Host, IsPrompt, Device, World, live, ◌>>=◌}
use msdk_linux.Hid.Wire.{handed_over, at_rest}
use msdk_linux.Move.{set_position}
use msdk_linux.Machine.Ends.{Returns}
use msdk_linux.Hid.Exchange.{hid_ctrl_comm_short}

seven :
    (cx cy x y : ℤ)
    → (length (absolute_command cx cy x y) ≡ 7)
      × (take 7 (absolute_command cx cy x y) ≡ absolute_command cx cy x y)
unfolding absolute_command
seven cx cy x y = (refl, refl)

module _ (h : Host) (prompt : IsPrompt h) (dev : Device) (cs : List (List ℕ)) (ok : Bool) (x y : ℤ)
    (w : World) (is_open : w.udev.h_dev ≡ some dev) (wide : eqb_ℤ w.udev.cx (pos 0) ≡ false)
    (tall : eqb_ℤ w.udev.cy (pos 0) ≡ false) (rest : handed_over w.calls ≡ at_rest cs ok) where
  -- The position is told as (x, y) after 0, and nothing but the history is changed after -1.
  abbrev pub Told3 : ℤ → World → Type 0
  Told3 r w' =
      ((r ≡ pos 0) × (w'.udev ≡ set_position x y (record w.udev { mouse_1st_movto = 1 })))
      ⊎ ((r ≡ minus_one) × (w'.udev ≡ w.udev))

  -- With a resolution set, at a device that answers at once, M_InternalMoveTo3 returns after one
  -- command, the report for the coordinates; after 0 these are the kept position, and after -1 the
  -- record is as before.
  pub m_internal_move_to3-sent : Returns (m_internal_move_to3 h live x y w) (λ r w'.
      (handed_over w'.calls ≡ at_rest (absolute_command w.udev.cx w.udev.cy x y ∷ cs) ok)
      × Told3 r w')
  unfolding m_internal_move_to3
  m_internal_move_to3-sent =
      let (whole, same) = seven w.udev.cx w.udev.cy x y in
      let t =
        hid_ctrl_comm_short h dev 0 prompt w.udev.h_dev 7 (absolute_command w.udev.cx w.udev.cy x y)
          cs ok w is_open (omega (arith, whole)) (omega arith) rest in
      rw (wide, tall, t.returns, ◌>>=◌)
        (elim (Bool-cases (eqb_ℤ t.reply.status (pos 1))) [
          | inl e ↦ rw e (t.on_wire ∙ ap (λ c. at_rest (c ∷ cs) ok) same, inl (refl, refl))
          | inr e ↦ rw e (t.on_wire ∙ ap (λ c. at_rest (c ∷ cs) ok) same, inr (refl, refl))
        ])
