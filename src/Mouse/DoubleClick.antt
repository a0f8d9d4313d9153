-- ===== src/Mouse/DoubleClick.antt =====
-- The double click: the loop of `M_LeftDoubleClick`.
use msdk_linux.Base.{ℕ, List, Bool, ◌<◌, ◌+◌, pos, ◌++◌, ◌≡◌, ◌⊎◌, arith, suc, inl, minus_one, inr}
use msdk_linux.Machine.{Host, IsPrompt, Device, World, live, ◌>>=◌}
use msdk_linux.Mouse.{m_left_double_click, double_click_once, pause_random, m_left_click}
use msdk_linux.Mouse.Calls.{MouseState}
use msdk_linux.Machine.Ends.{Returns, Returns-done, Returns-mono}
use msdk_linux.Mouse.Click.{click_reports, delay-MouseState, m_click-Ended}
use msdk_linux.Machine.Loop.Rule.{Round, repeat_nbr-Ended}
use mathlib.Core.Path.{subst}
use native.Mathlib.Nat.{zero-add}

module _ (h : Host) (prompt : IsPrompt h) (dev : Device) (ok : Bool) (cs : List (List ℕ))
    (patient : 1 < h.patience) where
  -- No button is down, and the reports of `n` clicks of the left one have gone out.
  abbrev LeftClicks : ℕ → World → Type 0
  LeftClicks n w = MouseState dev 0 (click_reports 0 0 n ++ cs) ok w

  -- One click more, or a failure.
  one_click :
      (n : ℕ) (w : World)
      → LeftClicks n w
      → Returns
          (m_left_click h live (pos 1) w)
          (λ r w'. ((r ≡ pos 0) × LeftClicks (suc n) w') ⊎ (r ≡ minus_one))
  one_click n w s = (m_click-Ended h dev ok (click_reports 0 0 n ++ cs) 1 w prompt patient s).0

  -- Two clicks for each double click.
  abbrev Doubles : ℕ → World → Type 0
  Doubles k = LeftClicks (k + k)

  two_more : (k : ℕ) → suc (suc (k + k)) ≡ k + 1 + (k + 1)
  two_more k = omega arith

  double_click_once-Round :
      (k : ℕ) (w : World)
      → Doubles k w
      → Returns
          (double_click_once h live w)
          (Round Doubles (double_click_once h live) (pause_random h (pos 500) (pos 800)) (k + 1))
  unfolding double_click_once
  double_click_once-Round k w s =
      let (r, w1, e, t) = Returns-done _ (m_left_click h live (pos 1) w) (one_click (k + k) w s) in
      rw (e, ◌>>=◌)
        (elim t [
          | inl p ↦
              let (w2, delayed, s2) =
                delay-MouseState h prompt dev ok (pos 60) (pos 110) 0
                  (click_reports 0 0 (suc (k + k)) ++ cs) w1 (omega arith) (omega arith)
                  (omega arith) p.1 in
              rw p.0 (
                rw (delayed, ◌>>=◌)
                  (Returns-mono _
                    (Round Doubles (double_click_once h live) (pause_random h (pos 500) (pos 800))
                      (k + 1))
                    (m_left_click h live (pos 1) w2) (one_click (suc (k + k)) w2 s2)
                    (λ r' w' t'. elim t' [
                      | inl q ↦ inl (q.0, subst (λ n. LeftClicks n w') (two_more k) q.1)
                      | inr m ↦ inr (λ z. cc)
                    ])))
          | inr m ↦ rw m (inr (λ z. cc))
        ])

  pause-Doubles :
      (k : ℕ) (w : World)
      → Doubles k w
      → Returns (pause_random h (pos 500) (pos 800) w) (λ _ w'. Doubles k w')
  pause-Doubles k w s =
      let (w', e, s') =
        delay-MouseState h prompt dev ok (pos 500) (pos 800) 0 (click_reports 0 0 (k + k) ++ cs) w
          (omega arith) (omega arith) (omega arith) s in
      rw (e, ◌>>=◌) s'

  -- With no button down, at a device that answers at once and with patience for more than one
  -- round, M_LeftDoubleClick returns for a count below the patience: with 0 exactly the reports of
  -- two clicks of the left button for each have gone out and no button is down, or with -1.
  pub m_left_double_click-Ended :
      (n : ℕ) (w : World)
      → n < h.patience
      → MouseState dev 0 cs ok w
      → Returns (m_left_double_click h live (pos n) w) (λ r w'.
        ((r ≡ pos 0) × MouseState dev 0 (click_reports 0 0 (n + n) ++ cs) ok w') ⊎ (r ≡ minus_one))
  unfolding m_left_double_click
  m_left_double_click-Ended n w lt s =
      subst
        (λ m.
          Returns (m_left_double_click h live (pos n) w)
            (λ r w'. ((r ≡ pos 0) × Doubles m w') ⊎ (r ≡ minus_one)))
        (zero-add n)
        (repeat_nbr-Ended Doubles (double_click_once h live) (pause_random h (pos 500) (pos 800))
          double_click_once-Round pause-Doubles h.patience n 0 w lt s)
