-- ===== src/Keyboard/Sets.antt =====
-- The keyboard functions of msdk/msdk.c as operations on a set of codes: the order in which the
-- keys went down, and how the record holds them, are forgotten.
use msdk_linux.Base.{
  ℕ, ℤ, List, Bool, ◌≡◌, pos, false, true, not, ◌==◌, ◌&&◌, ◌||◌, if◌then◌else◌, ◌∷◌, [], arith,
  refl, ◌^◌, ◌-◌,
}
use msdk_linux.Machine.{Host, IsPrompt, Device, World, Prog, live, done, return, ◌>>◌}
use msdk_linux.Machine.Ends.{Returns, Returns-bind}
use msdk_linux.Keyboard.{m_key_down, m_key_up, m_key_state, m_release_all_key}
use msdk_linux.Keyboard.Calls.{KbState}
use msdk_linux.Keyboard.Told.{m_key_down-Told, m_key_up-Told, m_key_state-held}
use msdk_linux.Keyboard.ReleaseAll.{m_release_all_key-Told}
use msdk_linux.Keyboard.Effect.{held-down, held-up, HasRoom}
use msdk_linux.Keyboard.State.{down_keys, up_keys, down_mods, up_mods}
use msdk_linux.Keyboard.Op.{is_key_code}
use msdk_linux.Keyboard.Op.Query.{held}
use msdk_linux.Bits.{zero-bit_and}

-- A set of codes.
abbrev pub CodeSet : Type 0
CodeSet = ℕ → Bool

-- The calls that change what is down.
pub data KeyCall : Type 0 where
  press_code lift_code : ℕ → KeyCall
  lift_all : KeyCall

abbrev pub call_key : Host → KeyCall → Prog ℤ
call_key h (press_code code) = m_key_down h live (pos code)
call_key h (lift_code code) = m_key_up h live (pos code)
call_key h lift_all = m_release_all_key h live

-- One after the other, whatever each answers.
abbrev pub call_keys : Host → List KeyCall → Prog ℤ
call_keys h [] = return (pos 0)
call_keys h (c ∷ calls) = do call_key h c; call_keys h calls

abbrev pub after_call : KeyCall → CodeSet → CodeSet
after_call (press_code code) s j = code == j || s j
after_call (lift_code code) s j = not (code == j) && s j
after_call lift_all s j = false

abbrev pub after_calls : List KeyCall → CodeSet → CodeSet
after_calls [] s = s
after_calls (c ∷ calls) s = after_calls calls (after_call c s)

-- Every code is one that the functions accept.
abbrev pub AreAccepted : List KeyCall → Type 0
AreAccepted [] = Unit
AreAccepted (press_code code ∷ calls) = (is_key_code (pos code) ≡ true) × AreAccepted calls
AreAccepted (lift_code code ∷ calls) = (is_key_code (pos code) ≡ true) × AreAccepted calls
AreAccepted (lift_all ∷ calls) = AreAccepted calls

-- Each press finds a place; `ks` are the keys that are down before.
abbrev pub HaveRoom : List KeyCall → List ℕ → Type 0
HaveRoom [] ks = Unit
HaveRoom (press_code code ∷ calls) ks = HasRoom code ks × HaveRoom calls (down_keys code ks)
HaveRoom (lift_code code ∷ calls) ks = HaveRoom calls (up_keys code ks)
HaveRoom (lift_all ∷ calls) ks = HaveRoom calls []

nothing_held : (j : ℕ) → held 0 [] j ≡ false
nothing_held j = ground (arith, zero-bit_and (2 ^ (j - 224)))

module _ (h : Host) (prompt : IsPrompt h) (dev : Device) (ok : Bool) (j : ℕ)
    (v : is_key_code (pos j) ≡ true) where
  -- What M_KeyState answers for `j`, by the set.
  abbrev Answers : CodeSet → World → Type 0
  Answers s w = m_key_state live (pos j) w ≡ done (if s j then pos 1 else pos 0) w

  -- From any set that has `j` just if it is down.
  answered :
      (calls : List KeyCall) (s : CodeSet) (mods : ℕ) (ks : List ℕ) (cs : List (List ℕ)) (w : World)
      → AreAccepted calls
      → HaveRoom calls ks
      → held mods ks j ≡ s j
      → KbState dev mods ks cs ok w
      → Returns (call_keys h calls w) (λ r w'. Answers (after_calls calls s) w')
  answered [] s mods ks cs w acc fits e st =
      rw (m_key_state-held h prompt dev mods ks cs ok j w v st, e)
  answered (press_code code ∷ calls) s mods ks cs w (a, acc) (room, fits) e st =
      Returns-bind _ (λ r w'. Answers (after_calls calls (after_call (press_code code) s)) w')
        (m_key_down h live (pos code)) (λ r. call_keys h calls) w
        (m_key_down-Told h prompt dev mods ks cs ok code w a st)
        (λ r w' (command, st', told, same, ended).
          answered calls (after_call (press_code code) s) (down_mods code mods) (down_keys code ks)
            (command ∷ cs) w' acc fits
            (rw (held-down j code mods w.udev.curr_kb_op ks a v st.down room, e)) st')
  answered (lift_code code ∷ calls) s mods ks cs w (a, acc) fits e st =
      Returns-bind _ (λ r w'. Answers (after_calls calls (after_call (lift_code code) s)) w')
        (m_key_up h live (pos code)) (λ r. call_keys h calls) w
        (m_key_up-Told h prompt dev mods ks cs ok code w a st)
        (λ r w' (command, st', told, same, ended).
          answered calls (after_call (lift_code code) s) (up_mods code mods) (up_keys code ks)
            (command ∷ cs) w' acc fits
            (rw (held-up j code mods w.udev.curr_kb_op ks a v st.down, e)) st')
  answered (lift_all ∷ calls) s mods ks cs w acc fits e st =
      Returns-bind _ (λ r w'. Answers (after_calls calls (after_call lift_all s)) w')
        (m_release_all_key h live) (λ r. call_keys h calls) w
        (m_release_all_key-Told h dev mods ks cs ok w prompt st)
        (λ r w' (zero, st', same).
          answered calls (after_call lift_all s) 0 [] ((0 ∷ []) ∷ cs) w' acc fits (nothing_held j)
            st')

  -- At a device that answers at once, for any sequence of calls of M_KeyDown and M_KeyUp with
  -- accepted codes and of M_ReleaseAllKey, in which each code that is pressed is a modifier, is
  -- down already, or finds fewer than six keys down: all of them return, whatever each answers, and
  -- then M_KeyState of an accepted code answers 1 if the set of codes has it and 0 if not, where
  -- the set starts as what was down, a press puts its code in, a release takes its code out, and
  -- M_ReleaseAllKey empties it.
  pub call_keys-after_calls :
      (calls : List KeyCall) (mods : ℕ) (ks : List ℕ) (cs : List (List ℕ)) (w : World)
      → AreAccepted calls
      → HaveRoom calls ks
      → KbState dev mods ks cs ok w
      → Returns (call_keys h calls w) (λ r w'. Answers (after_calls calls (held mods ks)) w')
  call_keys-after_calls calls mods ks cs w acc fits st =
      answered calls (held mods ks) mods ks cs w acc fits refl st
