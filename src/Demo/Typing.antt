-- ===== src/Demo/Typing.antt =====
-- The loop of msdk/demo.c that presses keys.
use msdk_linux.Base.{
  ℕ, ℤ, pos, Bool, ◌%◌, ◌+◌, ◌≡◌, true, false, List, arith, ◌∙◌, ap, ◌<◌, ◌∷◌, refl, suc,
  if◌then◌else◌, eqb_ℤ, minus_one, zero,
}
use msdk_linux.Machine.{Host, IsPrompt, Device, Udev, World, live, rand, Prog, return, call, ◌>>◌}
use msdk_linux.Keyboard.Op.{is_key_code, is_modifier}
use msdk_linux.Api.Box.{Down, Screen}
use msdk_linux.Machine.Ends.{Total, Returns-mono, Returns-both, Total-bind, Total-if, Returns}
use msdk_linux.Api.Agrees.{Agrees, Kept, Agrees-KbState}
use msdk_linux.Keyboard.{m_key_down, m_key_press, m_key_up, press_once}
use msdk_linux.Keyboard.Told.{m_key_down-Told, m_key_up-Told}
use msdk_linux.Api.Keys.{m_key_down-Agrees, after_up, after_down, m_key_up-Agrees}
use msdk_linux.Keyboard.State.{down_keys, up_keys}
use msdk_linux.Demo.{type_keys, return, Prog, call}
use mathlib.Core.Path.{subst}
use msdk_linux.Machine.Loop.Rule.{repeat_nbr-Total}
use msdk_linux.Api.Buttons.{Agrees-Quiet}
use msdk_linux.Hid.Wire.{handed_over}

a_key : (r : ℕ) → (is_key_code (pos (r % 35 + 4)) ≡ true) × (is_modifier (r % 35 + 4) ≡ false)
unfolding is_key_code is_modifier
a_key r = ground arith

module _ (h : Host) (prompt : IsPrompt h) (scr : Screen) (dev : Device) (ok : Bool) (k0 : Kept)
    (d : Down) (u0 : Udev) where
  -- Only the keys that are no modifiers may differ from `d`, and only `CurrKbOp` from `u0`.
  abbrev pub IsTyping : World → Type 0
  IsTyping w =
      (keys : List ℕ) × Agrees scr dev ok k0 (record d { keys = keys }) w
      × (w.udev ≡ record u0 { curr_kb_op = w.udev.curr_kb_op })

  module _ (code : ℕ) (v : is_key_code (pos code) ≡ true) (k : is_modifier code ≡ false) where
    down_eq :
        (keys : List ℕ)
        → after_down (pos code) (record d { keys = keys }) ≡ record d { keys = down_keys code keys }
    down_eq keys = rw (v, k) refl

    up_eq :
        (keys : List ℕ)
        → after_up (pos code) (record d { keys = keys }) ≡ record d { keys = up_keys code keys }
    up_eq keys = rw (v, k) refl

    told-IsTyping :
        (keys : List ℕ) (d' : Down) (w w' : World)
        → d' ≡ record d { keys = keys }
        → Agrees scr dev ok k0 d' w'
        → w.udev ≡ record u0 { curr_kb_op = w.udev.curr_kb_op }
        → w'.udev ≡ record w.udev { curr_kb_op = w'.udev.curr_kb_op }
        → IsTyping w'
    told-IsTyping keys d' w w' e s same only =
        let with_op : Udev → Udev = λ u. record u { curr_kb_op = w'.udev.curr_kb_op } in
        (keys, subst (λ x. Agrees scr dev ok k0 x w') e s, only ∙ ap with_op same)

    key_down-IsTyping : Total IsTyping (m_key_down h live (pos code))
    key_down-IsTyping w (keys, s, same) =
        let st = Agrees-KbState scr dev ok k0 (record d { keys = keys }) w s in
        Returns-mono _ _ (m_key_down h live (pos code) w)
          (Returns-both _ _ (m_key_down h live (pos code) w)
            (m_key_down-Told h prompt dev d.mods keys s.reports ok code w v st)
            (m_key_down-Agrees scr dev ok k0 h prompt (pos code) (record d { keys = keys }) w s))
          (λ r w' (told, s').
            told-IsTyping (down_keys code keys) (after_down (pos code) (record d { keys = keys })) w
              w' (down_eq keys) s' same told.3)

    key_up-IsTyping : Total IsTyping (m_key_up h live (pos code))
    key_up-IsTyping w (keys, s, same) =
        let st = Agrees-KbState scr dev ok k0 (record d { keys = keys }) w s in
        Returns-mono _ _ (m_key_up h live (pos code) w)
          (Returns-both _ _ (m_key_up h live (pos code) w)
            (m_key_up-Told h prompt dev d.mods keys s.reports ok code w v st)
            (m_key_up-Agrees scr dev ok k0 h prompt (pos code) (record d { keys = keys }) w s))
          (λ r w' (told, s').
            told-IsTyping (up_keys code keys) (after_up (pos code) (record d { keys = keys })) w w'
              (up_eq keys) s' same told.3)

    press-IsTyping :
        (n : ℕ) → n < h.patience → Total IsTyping (m_key_press h live (pos code) (pos n))
    unfolding m_key_press press_once
    press-IsTyping n lt =
        let up = m_key_up h live (pos code) in
        repeat_nbr-Total IsTyping (press_once h live (pos code)) (return tt)
          (Total-bind IsTyping (m_key_down h live (pos code))
            (λ r. if eqb_ℤ r (pos 0) then up else return minus_one) key_down-IsTyping
            (λ r.
              Total-if IsTyping (eqb_ℤ r (pos 0)) up (return minus_one) key_up-IsTyping (λ w s. s)))
          (λ w s. s) h.patience n lt

  drawn-IsTyping : (w : World) → IsTyping w → IsTyping (record w { calls = rand ∷ w.calls })
  drawn-IsTyping w (keys, s, same) = (
    keys,
    Agrees-Quiet scr dev ok k0 (record d { keys = keys }) w (record w { calls = rand ∷ w.calls }) s
        (refl, unfold handed_over in refl),
    same,
  )

  type_keys-Total : (n : ℕ) → 1 < h.patience → Total IsTyping (type_keys h n)
  unfolding type_keys
  type_keys-Total zero lt = λ w s. s
  type_keys-Total (suc n) lt =
      let press : ℕ → Prog ℤ = λ r. m_key_press h live (pos (r % 35 + 4)) (pos 1) in
      Total-bind IsTyping (call rand h.random) (λ r. do press r; type_keys h n) drawn-IsTyping
        (λ r.
          Total-bind IsTyping (press r) (λ _. type_keys h n)
            (press-IsTyping (r % 35 + 4) (a_key r).0 (a_key r).1 1 lt) (λ _. type_keys-Total n lt))

  -- At a device that answers at once and with patience for more than one round, the loop of the
  -- demonstration program that presses keys at random returns after any number of rounds: only keys
  -- that are no modifiers may have changed, the record and the box agree on them, and nothing of
  -- the record but CurrKbOp changes.
  pub type_keys-IsTyping :
      (n : ℕ) (w : World)
      → 1 < h.patience
      → IsTyping w
      → Returns (type_keys h n w) (λ r w'. IsTyping w')
  type_keys-IsTyping n w lt s = type_keys-Total n lt w s
