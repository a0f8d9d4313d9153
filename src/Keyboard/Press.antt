-- ===== src/Keyboard/Press.antt =====
-- `M_KeyPress`: the loop of presses and releases.
use msdk_linux.Base.{
  ℕ, List, Bool, pos, ◌≡◌, true, false, length, ◌+◌, ◌*◌, ◌⊎◌, minus_one, inl, ◌∷◌, arith, inr, ◌<◌,
}
use msdk_linux.Machine.{Host, IsPrompt, Device, World, live, ◌>>=◌, return}
use msdk_linux.Machine.Ends.{Returns, Returns-done, Returns-mono}
use msdk_linux.Keyboard.{m_key_press, press_once, m_key_down, m_key_up}
use msdk_linux.Keyboard.Told.{m_key_down-Told, m_key_up-Told}
use msdk_linux.Keyboard.Op.{is_key_code}
use msdk_linux.Keyboard.Op.Query.{held}
use msdk_linux.Keyboard.Effect.{HasRoom, up-down_mods, up-down_keys}
use msdk_linux.Keyboard.Calls.{KbState, Told}
use msdk_linux.Keyboard.State.{down_mods, down_keys, HasDown, up_mods, up_keys}
use mathlib.Core.Path.{subst₂, subst}
use msdk_linux.Machine.Loop.Rule.{Round, repeat_nbr-Ended}
use native.Mathlib.Nat.{zero-add}

module _ (h : Host) (prompt : IsPrompt h) (dev : Device) (mods : ℕ) (ks : List ℕ) (ok : Bool)
    (code : ℕ) (v : is_key_code (pos code) ≡ true) (new : held mods ks code ≡ false)
    (room : HasRoom code ks) where
  -- The old keys are down, and `k` presses have been reported after `c` commands.
  abbrev pub AfterPresses : ℕ → ℕ → World → Type 0
  AfterPresses c k w = (cs : List (List ℕ)) × KbState dev mods ks cs ok w × (length cs ≡ c + 2 * k)

  -- The state after a press and the release that follows it.
  back :
      (cs : List (List ℕ)) (w0 w : World)
      → HasDown w0.udev.curr_kb_op mods ks
      → KbState dev (up_mods code (down_mods code mods)) (up_keys code (down_keys code ks)) cs ok w
      → KbState dev mods ks cs ok w
  back cs w0 w d s =
      subst₂ (λ m l. KbState dev m l cs ok w)
        (up-down_mods code mods w0.udev.curr_kb_op ks v d new room)
        (up-down_keys code mods w0.udev.curr_kb_op ks v d new room) s

  press_once-Round :
      (c k : ℕ) (w : World)
      → AfterPresses c k w
      → Returns
          (press_once h live (pos code) w)
          (Round (AfterPresses c) (press_once h live (pos code)) (return tt) (k + 1))
  unfolding press_once
  press_once-Round c k w (cs, s, len) =
      let (r, w1, e, t) =
        Returns-done (Told dev cs ok (down_mods code mods) (down_keys code ks) w)
          (m_key_down h live (pos code) w)
          (m_key_down-Told h prompt dev mods ks cs ok code w v s) in
      rw (e, ◌>>=◌)
        (elim t.4 [
          | inl z ↦ rw z (
              Returns-mono
                (Told dev (t.0 ∷ cs) ok (up_mods code (down_mods code mods))
                  (up_keys code (down_keys code ks)) w1)
                (Round (AfterPresses c) (press_once h live (pos code)) (return tt) (k + 1))
                (m_key_up h live (pos code) w1)
                (m_key_up-Told h prompt dev (down_mods code mods) (down_keys code ks) (t.0 ∷ cs) ok
                  code w1 v t.1)
                (λ r' w2 t'. elim t'.4 [
                  | inl z' ↦
                      inl (
                        z',
                        (t'.0 ∷ t.0 ∷ cs, back (t'.0 ∷ t.0 ∷ cs) w w2 s.down t'.1, omega arith),
                      )
                  | inr m' ↦ inr (λ z'. cc)
                ]))
          | inr m ↦ rw m (inr (λ z'. cc))
        ])

  -- A code that is accepted, not down, and has a place is pressed n times, n below the patience, at
  -- a device that answers at once: M_KeyPress returns, with 0 after two reports for each press and
  -- with the same keys down as before, or with -1.
  pub m_key_press-Ended :
      (n : ℕ) (cs : List (List ℕ)) (w : World)
      → n < h.patience
      → KbState dev mods ks cs ok w
      → Returns
          (m_key_press h live (pos code) (pos n) w)
          (λ r w'. ((r ≡ pos 0) × AfterPresses (length cs) n w') ⊎ (r ≡ minus_one))
  unfolding m_key_press
  m_key_press-Ended n cs w lt s =
      subst
        (λ m.
          Returns (m_key_press h live (pos code) (pos n) w)
            (λ r w'. ((r ≡ pos 0) × AfterPresses (length cs) m w') ⊎ (r ≡ minus_one)))
        (zero-add n)
        (repeat_nbr-Ended (AfterPresses (length cs)) (press_once h live (pos code)) (return tt)
          (press_once-Round (length cs)) (λ k w' p. p) h.patience n 0 w lt (cs, s, omega arith))
