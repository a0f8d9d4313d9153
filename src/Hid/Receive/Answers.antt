-- ===== src/Hid/Receive/Answers.antt =====
-- What `receive_loop` makes of the device's answers.
use msdk_linux.Base.{
  ℕ, List, pos, ◌≡◌, ◌≤ℤ◌, ◌%◌, ◌∷◌, ◌≢◌, suc, ◌<◌, length, ◌+◌, arith, [], ◌≤◌, ◌<ℤ◌, ◌++◌,
  bit_and, some, none, Bool-cases, ltb_ℤ, inl, tests, inr, zero, Option,
}
use msdk_linux.Machine.{Host, Device, World, IsPrompt, transfer_in, done}
use msdk_linux.Hid.Receive.{receive_loop, receive_blocks, bytes_from}

module _ (h : Host) (dev : Device) where
  abbrev after_read : World → World
  after_read w = record w { calls = transfer_in dev ∷ w.calls }

  -- One round of the loop, branch by branch.
  module _ (f room : ℕ) (resp : List ℕ) (w : World) where
    pub receive_loop-failed :
        (h.answer_in w.calls).0 <ℤ pos 0
        → receive_loop h room dev (suc f) resp w ≡ done none (after_read w)
    unfolding receive_loop
    receive_loop-failed bad = ground arith

    pub receive_loop-busy :
        pos 0 ≤ℤ (h.answer_in w.calls).0
        → (h.answer_in w.calls).1 1 % 256 ≡ 0xCC
        → receive_loop h room dev (suc f) resp w ≡ receive_loop h room dev f resp (after_read w)
    unfolding receive_loop
    receive_loop-busy good busy = ground arith

    module _ (good : pos 0 ≤ℤ (h.answer_in w.calls).0)
        (ready : (h.answer_in w.calls).1 1 % 256 ≢ 0xCC)
        (fits : length resp + (h.answer_in w.calls).1 3 % 256 ≤ room) where
      abbrev longer : List ℕ
      longer = resp ++ bytes_from (h.answer_in w.calls).1 4 ((h.answer_in w.calls).1 3 % 256)

      pub receive_loop-more :
          0 < bit_and ((h.answer_in w.calls).1 1 % 256) 0x20
          → receive_loop h room dev (suc f) resp w ≡ receive_loop h room dev f longer (after_read w)
      unfolding receive_loop
      receive_loop-more more = ground arith

      pub receive_loop-last :
          bit_and ((h.answer_in w.calls).1 1 % 256) 0x20 ≡ 0
          → receive_loop h room dev (suc f) resp w ≡ done (some longer) (after_read w)
      unfolding receive_loop
      receive_loop-last last = ground arith

  receive_loop_prompt :
      (n : ℕ) (w : World)
      → 0 < n
      → IsPrompt h
      → (resp : Option (List ℕ)) × (receive_loop h 32 dev n [] w ≡ done resp (after_read w))
  receive_loop_prompt zero w some_left p = elim some_left [ ]
  receive_loop_prompt (suc f) w some_left p =
      elim (Bool-cases (ltb_ℤ (h.answer_in w.calls).0 (pos 0))) [
        | inl bad ↦ (none, receive_loop-failed f 32 [] w (omega tests))
        | inr good ↦ elim (p.answers w.calls) [
          | inl bad ↦ absurd (omega tests)
          | inr (ready, last, fits) ↦
              (some _, receive_loop-last f 32 [] w (omega tests) ready (omega arith) last)
        ]
      ]

  -- A device that answers at once makes the reading end, after one transfer.
  pub receive_blocks_prompt :
      (w : World)
      → IsPrompt h
      → (resp : Option (List ℕ)) × (receive_blocks h 32 dev w
          ≡ done resp (record w { calls = transfer_in dev ∷ w.calls }))
  unfolding receive_blocks
  receive_blocks_prompt w p = receive_loop_prompt h.patience w p.waits p
