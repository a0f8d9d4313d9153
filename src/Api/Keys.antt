-- ===== src/Api/Keys.antt =====
-- The keyboard's functions keep the record and the box in agreement.
use msdk_linux.Base.{
  ℕ, ℤ, if◌then◌else◌, Bool, negsuc, ◌≡◌, pos_part, false, arith, [], pos, eqb_ℤ, Bool-cases,
  minus_one, inl, inr, refl, sym, ap, ◌∷◌, ◌∙◌,
}
use msdk_linux.Keyboard.Op.{is_key_code}
use msdk_linux.Machine.{Device, Host, IsPrompt, World, live, return}
use msdk_linux.Api.Box.{Down, reads_next, reads-Tells, Screen}
use msdk_linux.Keyboard.State.{
  down_mods, up_mods, up_keys, down_keys, key_down_op-HasDown, key_up_op-HasDown,
}
use msdk_linux.Keyboard.{
  m_key_up, m_release_all_key, press_once, m_key_down, m_key_state, m_key_press, set_kb_op,
  key_down_op, key_up_op,
}
use msdk_linux.Api.Agrees.{
  Agrees, send_kb_op-Agrees, Holds-shows_keys, Clicks, IsPlaced, with_ops, Kept, still,
}
use msdk_linux.Machine.Ends.{Keeps, Ensures, Keeps-bind, Keeps-if, Ensures-mono, Returns-Ensures}
use msdk_linux.Machine.Loop.Rule.{repeat_nbr-Keeps}
use msdk_linux.Keyboard.Calls.{KbState}
use msdk_linux.Keyboard.ReleaseAll.{m_release_all_key-Told}
use mathlib.Core.Path.{subst, sym, ap}

-- What is down after the code went down, or up. A code that is not accepted changes nothing.
abbrev pub after_down : ℤ → Down → Down
after_down code d =
    if is_key_code code
    then record d {
      mods = down_mods (pos_part code) d.mods;
      keys = down_keys (pos_part code) d.keys;
    }
    else d

abbrev pub after_up : ℤ → Down → Down
after_up code d =
    if is_key_code code
    then record d { mods = up_mods (pos_part code) d.mods; keys = up_keys (pos_part code) d.keys }
    else d

-- `d'` comes from `d` by doing the two any number of times, in any order.
pub data Changes (f g : Down → Down) (d : Down) : Down → Type 0 where
  nothing : Changes f g d d
  first : {d' : Down} → Changes f g d d' → Changes f g d (f d')
  second : {d' : Down} → Changes f g d d' → Changes f g d (g d')

pub not_below_zero : (n : ℕ) → is_key_code (negsuc n) ≡ false
unfolding is_key_code
not_below_zero n = ground arith

module _ (scr : Screen) (dev : Device) (ok : Bool) (k0 : Kept) (h : Host)
    (prompt : IsPrompt h) where
  pub m_key_down-Agrees :
      (code : ℤ) (d : Down) (w : World)
      → Agrees scr dev ok k0 d w
      → Ensures (m_key_down h live code w) (λ r w'. Agrees scr dev ok k0 (after_down code d) w')
  unfolding m_key_down
  m_key_down-Agrees (negsuc n) d w s = rw (not_below_zero n) s
  m_key_down-Agrees (pos n) d w s = elim (Bool-cases (is_key_code (pos n))) [
    | inl v ↦
        let d' = record d { mods = down_mods n d.mods; keys = down_keys n d.keys } in
        rw v (
          send_kb_op-Agrees scr dev ok h prompt k0 d' d
            (record w { udev = set_kb_op (key_down_op n) w.udev })
            (Holds-shows_keys scr dev ok k0 d d (down_mods n d.mods) (down_keys n d.keys)
              (key_down_op n) w s (key_down_op-HasDown n d.mods w.udev.curr_kb_op d.keys v s.kb))
            refl)
    | inr bad ↦ rw bad s
  ]

  pub m_key_up-Agrees :
      (code : ℤ) (d : Down) (w : World)
      → Agrees scr dev ok k0 d w
      → Ensures (m_key_up h live code w) (λ r w'. Agrees scr dev ok k0 (after_up code d) w')
  unfolding m_key_up
  m_key_up-Agrees (negsuc n) d w s = rw (not_below_zero n) s
  m_key_up-Agrees (pos n) d w s = elim (Bool-cases (is_key_code (pos n))) [
    | inl v ↦
        let d' = record d { mods = up_mods n d.mods; keys = up_keys n d.keys } in
        rw v (
          send_kb_op-Agrees scr dev ok h prompt k0 d' d
            (record w { udev = set_kb_op (key_up_op n) w.udev })
            (Holds-shows_keys scr dev ok k0 d d (up_mods n d.mods) (up_keys n d.keys) (key_up_op n)
              w s (key_up_op-HasDown n d.mods w.udev.curr_kb_op d.keys v s.kb))
            refl)
    | inr bad ↦ rw bad s
  ]

  pub m_key_state-Agrees :
      (code : ℤ) (d : Down) (w : World)
      → Agrees scr dev ok k0 d w
      → Ensures (m_key_state live code w) (λ r w'. Agrees scr dev ok k0 d w')
  unfolding m_key_state
  m_key_state-Agrees code d w s = elim (Bool-cases (is_key_code code)) [
    | inl v ↦ rw v s
    | inr bad ↦ rw bad s
  ]

  -- What came from `d` by presses and releases of the code.
  abbrev pub Typed : ℤ → Down → World → Type 0
  Typed code d w =
      (d' : Down) × Changes (after_down code) (after_up code) d d' × Agrees scr dev ok k0 d' w

  press_once-Typed : (code : ℤ) (d : Down) → Keeps (Typed code d) (press_once h live code)
  unfolding press_once
  press_once-Typed code d =
      let up = m_key_up h live code in
      Keeps-bind (Typed code d) (m_key_down h live code)
        (λ r. if eqb_ℤ r (pos 0) then up else return minus_one)
        (λ w (d', c, s).
          Ensures-mono _ _ (m_key_down h live code w) (m_key_down-Agrees code d' w s)
            (λ r w' s'. (after_down code d', first c, s')))
        (λ r.
          Keeps-if (Typed code d) (eqb_ℤ r (pos 0)) up (return minus_one)
            (λ w (d', c, s).
              Ensures-mono _ _ (up w) (m_key_up-Agrees code d' w s)
                (λ r w' s'. (after_up code d', second c, s')))
            (λ w s. s))

  pub m_key_press-Typed :
      (code nbr : ℤ) (d : Down) → Keeps (Typed code d) (m_key_press h live code nbr)
  unfolding m_key_press
  m_key_press-Typed code nbr d =
      repeat_nbr-Keeps (Typed code d) (press_once h live code) (return tt) (press_once-Typed code d)
        (λ w s. s) h.patience nbr

  pub m_release_all_key-Agrees :
      (d : Down) (w : World)
      → Agrees scr dev ok k0 d w
      → Ensures
          (m_release_all_key h live w)
          (λ r w'. Agrees scr dev ok k0 (record d { mods = 0; keys = [] }) w')
  m_release_all_key-Agrees d w s =
      let st : KbState dev d.mods d.keys s.reports ok w = record {
        device = s.device;
        down = s.kb;
        on_wire = s.on_wire;
      } in
      Ensures-mono _ _ (m_release_all_key h live w)
        (Returns-Ensures _ (m_release_all_key h live w)
          (m_release_all_key-Told h dev d.mods d.keys s.reports ok w prompt st))
        (λ r w' (z, t, only). record {
          device = t.device;
          kb = t.down;
          mouse =
              subst (λ op. Clicks op d.buttons still) (sym (ap (λ u. u.curr_mouse_op) only))
                s.mouse;
          reports = (0 ∷ []) ∷ s.reports;
          on_wire = t.on_wire;
          reading =
              reads_next scr (0 ∷ []) s.reports d s.reading
              ∙ reads-Tells scr (0 ∷ []) 0 [] d (omega arith) tt (inl (refl, refl, refl));
          place =
              subst (IsPlaced k0) (sym only)
                (with_ops w'.udev.curr_kb_op w.udev.curr_mouse_op k0 w.udev s.place);
        })
