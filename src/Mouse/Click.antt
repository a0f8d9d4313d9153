-- ===== src/Mouse/Click.antt =====
-- Clicks: the loops of `M_LeftClick`, `M_RightClick`, `M_MiddleClick` and `M_LeftDoubleClick`.
use msdk_linux.Base.{
  ℕ, Bool, ℤ, test_bit, List, ◌≡◌, false, ◌<ℤ◌, ◌<◌, ◌++◌, [], suc, ◌∷◌, pos, set_bit, zero, arith,
  ◌+◌, ◌⊎◌, minus_one, clear_bit, inl, inr, refl, negsuc,
}
use msdk_linux.Machine.{
  Host, IsPrompt, Device, World, done, live, usleep, rand, Prog, ◌>>=◌, Handle, null,
}
use msdk_linux.Machine.Ends.{Returns, Returns-done, Returns-mono, Ensures}
use msdk_linux.Machine.Loop.Rule.{repeat_nbr-Ended, Round, repeat_nbr_negative}
use msdk_linux.Mouse.{
  click_once, button_down, button_up, pause_random, m_left_click, m_right_click, m_middle_click,
  m_left_double_click, m_left_down, m_left_up, m_right_down, m_right_up, m_middle_down, m_middle_up,
}
use msdk_linux.Mouse.Calls.{
  MouseState, mouse_report, Clicked, button_down-Clicked, button_up-Clicked,
}
use msdk_linux.Common.Range.{Fits, m_delay_random_lem}
use msdk_linux.Common.{m_delay_random}
use msdk_linux.Hid.Wire.{handed_over}
use msdk_linux.Machine.Loop.{repeat_nbr}
use msdk_linux.Bits.{clear_bit-set_bit}
use mathlib.Core.Path.{subst}
use native.Mathlib.Nat.{zero-add}
use native.Mathlib.Numerals.{add-one}
use msdk_linux.Hid.{hid_ctrl_comm}

-- The reports of `n` clicks of button `k`, latest first: down and up, with the other buttons as
-- they are.
abbrev pub click_reports : ℕ → ℕ → ℕ → List (List ℕ)
click_reports k buttons zero = []
click_reports k buttons (suc n) =
    mouse_report buttons 0 0 0 ∷ mouse_report (set_bit buttons k) 0 0 0 ∷ click_reports k buttons n

module _ (h : Host) (prompt : IsPrompt h) (dev : Device) (ok : Bool) where
  -- A delay in between changes nothing of the state.
  pub delay-MouseState :
      (a b : ℤ) (buttons : ℕ) (cs : List (List ℕ)) (w : World)
      → a <ℤ b
      → Fits a
      → Fits b
      → MouseState dev buttons cs ok w
      → (w' : World) × (m_delay_random h a b w ≡ done (pos 0) w') × MouseState dev buttons cs ok w'
  delay-MouseState a b buttons cs w lt fa fb s =
      let (t, e) = m_delay_random_lem h a b w lt fa fb in
      (
        record w { calls = usleep t ∷ rand ∷ w.calls },
        e,
        record {
          device = s.device;
          first = s.first;
          op = s.op;
          on_wire = unfold handed_over in s.on_wire;
        },
      )

  module _ (k buttons : ℕ) (up_already : test_bit buttons k ≡ false) (small : buttons < 256)
      (bit : k < 8) where
    abbrev pub AfterClicks : List (List ℕ) → ℕ → World → Type 0
    AfterClicks cs n w = MouseState dev buttons (click_reports k buttons n ++ cs) ok w

    abbrev click : Prog ℤ
    click = click_once h (button_down h k) (button_up h k) live

    -- The release that ends a click, where the press has been reported.
    release-Round :
        (cs : List (List ℕ)) (n : ℕ) (w : World)
        → MouseState dev
            (set_bit buttons k)
            (mouse_report (set_bit buttons k) 0 0 0 ∷ (click_reports k buttons n ++ cs))
            ok
            w
        → Returns
            (button_up h k live w)
            (Round (AfterClicks cs) click (pause_random h (pos 500) (pos 900)) (n + 1))
    release-Round cs n w s =
        let same = clear_bit-set_bit buttons k small bit up_already in
        let cs' : List (List ℕ) =
          mouse_report (set_bit buttons k) 0 0 0 ∷ (click_reports k buttons n ++ cs) in
        Returns-mono
          (Clicked h prompt dev ok k (set_bit buttons k) cs' w s (clear_bit (set_bit buttons k) k))
          (Round (AfterClicks cs) click (pause_random h (pos 500) (pos 900)) (n + 1))
          (button_up h k live w) (button_up-Clicked h prompt dev ok k (set_bit buttons k) cs' w s)
          (λ r w' t. elim t.2 [
            | inl z ↦ inl (
              z,
              rw add-one
                  (subst (λ b. MouseState dev b (mouse_report b 0 0 0 ∷ cs') ok w') same t.0),
            )
            | inr m ↦ inr (λ z'. cc)
          ])

    click_once-Round :
        (cs : List (List ℕ)) (n : ℕ) (w : World)
        → AfterClicks cs n w
        → Returns
            (click w)
            (Round (AfterClicks cs) click (pause_random h (pos 500) (pos 900)) (n + 1))
    unfolding click_once
    click_once-Round cs n w s =
        let (r, w1, e, t) =
          Returns-done
            (Clicked h prompt dev ok k buttons (click_reports k buttons n ++ cs) w s
              (set_bit buttons k))
            (button_down h k live w)
            (button_down-Clicked h prompt dev ok k buttons (click_reports k buttons n ++ cs) w s) in
        rw (e, ◌>>=◌)
          (elim t.2 [
            | inl z ↦
                let (w2, e2, s2) =
                  delay-MouseState (pos 50) (pos 80) (set_bit buttons k)
                    (mouse_report (set_bit buttons k) 0 0 0 ∷ (click_reports k buttons n ++ cs)) w1
                    (omega arith) (omega arith) (omega arith) t.0 in
                rw z (rw (e2, ◌>>=◌) (release-Round cs n w2 s2))
            | inr m ↦ rw m (inr (λ z'. cc))
          ])

    pause-AfterClicks :
        (cs : List (List ℕ)) (n : ℕ) (w : World)
        → AfterClicks cs n w
        → Returns (pause_random h (pos 500) (pos 900) w) (λ _ w'. AfterClicks cs n w')
    pause-AfterClicks cs n w s =
        let (w', e, s') =
          delay-MouseState (pos 500) (pos 900) buttons (click_reports k buttons n ++ cs) w
            (omega arith) (omega arith) (omega arith) s in
        rw (e, ◌>>=◌) s'

    -- The loop of clicks ends; with 0 exactly the reports of `n` clicks have gone out and the
    -- buttons are as before; the other result is -1.
    pub clicks-Ended :
        (cs : List (List ℕ)) (n : ℕ) (w : World)
        → n < h.patience
        → MouseState dev buttons cs ok w
        → Returns
            (repeat_nbr h.patience click (pause_random h (pos 500) (pos 900)) (pos n) w)
            (λ r w'. ((r ≡ pos 0) × AfterClicks cs n w') ⊎ (r ≡ minus_one))
    clicks-Ended cs n w lt s =
        subst
          (λ m.
            Returns (repeat_nbr h.patience click (pause_random h (pos 500) (pos 900)) (pos n) w)
              (λ r w'. ((r ≡ pos 0) × AfterClicks cs m w') ⊎ (r ≡ minus_one)))
          (zero-add n)
          (repeat_nbr-Ended (AfterClicks cs) click (pause_random h (pos 500) (pos 900))
            (click_once-Round cs) (pause-AfterClicks cs) h.patience n 0 w lt s)

-- With no button down, at a device that answers at once, each of M_LeftClick, M_RightClick and
-- M_MiddleClick returns for a count below the patience: with 0 exactly the reports of that many
-- clicks of its button have gone out and no button is down, or with -1.
pub m_click-Ended :
    (h : Host) (dev : Device) (ok : Bool) (cs : List (List ℕ)) (n : ℕ) (w : World)
    → IsPrompt h
    → n < h.patience
    → MouseState dev 0 cs ok w
    → Returns (m_left_click h live (pos n) w) (λ r w'.
      ((r ≡ pos 0) × MouseState dev 0 (click_reports 0 0 n ++ cs) ok w') ⊎ (r ≡ minus_one))
      × Returns (m_right_click h live (pos n) w) (λ r w'.
        ((r ≡ pos 0) × MouseState dev 0 (click_reports 1 0 n ++ cs) ok w') ⊎ (r ≡ minus_one))
      × Returns (m_middle_click h live (pos n) w) (λ r w'.
        ((r ≡ pos 0) × MouseState dev 0 (click_reports 2 0 n ++ cs) ok w') ⊎ (r ≡ minus_one))
unfolding m_left_click m_right_click m_middle_click m_left_down m_left_up m_right_down m_right_up
    m_middle_down m_middle_up button_down button_up hid_ctrl_comm
m_click-Ended h dev ok cs n w prompt lt s = (
  clicks-Ended h prompt dev ok 0 0 refl (omega arith) (omega arith) cs n w lt s,
  clicks-Ended h prompt dev ok 1 0 refl (omega arith) (omega arith) cs n w lt s,
  clicks-Ended h prompt dev ok 2 0 refl (omega arith) (omega arith) cs n w lt s,
)

-- The four click functions with a negative count do not end with 0, whatever the patience: if they
-- return within it, they return -1.
pub m_click_negative :
    (h : Host) (m_hdl : Handle) (n : ℕ) (w : World)
    → Ensures (m_left_click h m_hdl (negsuc n) w) (λ r w'. r ≡ minus_one)
      × Ensures (m_right_click h m_hdl (negsuc n) w) (λ r w'. r ≡ minus_one)
      × Ensures (m_middle_click h m_hdl (negsuc n) w) (λ r w'. r ≡ minus_one)
      × Ensures (m_left_double_click h m_hdl (negsuc n) w) (λ r w'. r ≡ minus_one)
unfolding m_left_click m_right_click m_middle_click m_left_double_click
m_click_negative h null n w = (refl, refl, refl, refl)
m_click_negative h live n w = (
  repeat_nbr_negative h.patience n _ _ w,
  repeat_nbr_negative h.patience n _ _ w,
  repeat_nbr_negative h.patience n _ _ w,
  repeat_nbr_negative h.patience n _ _ w,
)
