-- ===== src/Hid/Send/Blocks.antt =====
-- The blocks that `send_loop` hands over are put together again to the command.
use msdk_linux.Base.{
  if◌then◌else◌, ℕ, zero, suc, ◌+◌, ◌-◌, ◌*◌, ◌%◌, ◌≤◌, ◌<◌, ◌≡◌, refl, ap, Bool, true, List, [],
  ◌∷◌, ◌++◌, arith, length, take, drop, take-append_length, length-drop, Bool-cases, inl, inr, ltb,
  ltb_ℤ, pos, u8, not, if◌then◌else◌, false, lt→ltb, le→ltb, tests,
}
use native.Mathlib.Nat.{zero-add, suc-add, mod-eq_of_lt}
use mathlib.Core.List.{append_assoc}
use msdk_linux.Machine.{Device, Host, World, transfer_out, done, ◌>>=◌, History}
use msdk_linux.Machine.Ends.{Returns, Returns-done}
use msdk_linux.Hid.Send.{
  send_loop, next_seq, chunk_len, more_data, out_put_report, send_block, send_blocks,
}
use msdk_linux.Hid.Wire.{received, handed_over, accept, payload, at_rest}
use mathlib.Core.Path.{subst}

payload-out_put_report : (t pcb : ℕ) (block : List ℕ) → payload (out_put_report t pcb block) ≡ block
payload-out_put_report t pcb block = take-append_length (length block) block _ refl

take_nil {ℓ} : {A : Type ℓ} (n : ℕ) → take {A = A} n [] ≡ []
take_nil zero = refl
take_nil (suc n) = refl

take-split {ℓ} :
    {A : Type ℓ} (n m : ℕ) (xs : List A) → take (n + m) xs ≡ take n xs ++ take m (drop n xs)
take-split zero m xs = rw zero-add
take-split (suc n) m [] = simp take_nil
take-split (suc n) m (x ∷ xs) = rw suc-add (ap (◌∷◌ x) (take-split n m xs))

-- A block with the due number, and with more to follow.
accept_more :
    (t b : ℕ) (bytes p : List ℕ) (cs : List (List ℕ)) (o : Bool)
    → b < 32
    → accept
        (out_put_report t (u8 (0x40 * (b % 2) + 0x20 + b)) bytes)
        (record { partial = p; blocks = b; commands = cs; in_order = o })
      ≡ record { partial = p ++ bytes; blocks = b + 1; commands = cs; in_order = o }
unfolding accept
accept_more t b bytes p cs o h =
    ground (arith, payload-out_put_report t (u8 (0x40 * (b % 2) + 0x20 + b)) bytes)

-- The last block of a command.
accept_last :
    (t b : ℕ) (bytes p : List ℕ) (cs : List (List ℕ)) (o : Bool)
    → b < 32
    → accept
        (out_put_report t (u8 (0x40 * (b % 2) + 0 + b)) bytes)
        (record { partial = p; blocks = b; commands = cs; in_order = o })
      ≡ record { partial = []; blocks = 0; commands = (p ++ bytes) ∷ cs; in_order = o }
unfolding accept
accept_last t b bytes p cs o h =
    ground (arith, payload-out_put_report t (u8 (0x40 * (b % 2) + 0 + b)) bytes)

chunk_len_more : (len : ℕ) → 60 < len → chunk_len len ≡ 60
unfolding chunk_len
chunk_len_more len h = ground arith

chunk_len_last : (len : ℕ) → len ≤ 60 → chunk_len len ≡ len
unfolding chunk_len
chunk_len_last len h = ground arith

more_data_more : (len : ℕ) → 60 < len → more_data len ≡ 0x20
unfolding more_data
more_data_more len h = ground arith

more_data_last : (len : ℕ) → len ≤ 60 → more_data len ≡ 0
unfolding more_data
more_data_last len h = ground arith

next_seq_lem : (b : ℕ) → next_seq (0x40 * (b % 2)) ≡ 0x40 * ((b + 1) % 2)
unfolding next_seq
next_seq_lem b = ground arith

regroup :
    (len : ℕ) (p block : List ℕ)
    → 60 < len
    → (p ++ take 60 block) ++ take (len - 60) (drop 60 block) ≡ p ++ take len block
regroup len p block h =
    let split : 60 + (len - 60) ≡ len = omega arith in
    rw (append_assoc, ← take-split 60 (len - 60) block, split)

module _ (h : Host) (dev : Device) (timeout : ℕ) where
  -- The world after one block has been handed over.
  abbrev after : ℕ → List ℕ → World → World
  after pcb bytes w = record w {
    calls = transfer_out dev (out_put_report timeout pcb bytes) ∷ w.calls;
  }

  send_block_lem :
      (n more seq b : ℕ) (block : List ℕ) (w : World)
      → n ≤ length block
      → send_block h dev timeout n more block seq b w
        ≡ done (h.answer_out w.calls) (after (u8 (seq + more + b)) (take n block) w)
  unfolding send_block
  send_block_lem n more seq b block w fits = ground arith

  pub send_loop-last :
      (f len b seq : ℕ) (block : List ℕ) (w : World)
      → len ≤ 60
      → len ≤ length block
      → send_loop h dev timeout (suc f) len block seq b w
        ≡ done
            (not (ltb_ℤ (h.answer_out w.calls) (pos 0)))
            (after (u8 (seq + 0 + b)) (take len block) w)
  unfolding send_loop
  send_loop-last f len b seq block w few fits =
      rw
        (
          chunk_len_last len few,
          more_data_last len few,
          send_block_lem len 0 seq b block w fits,
          ◌>>=◌,
        )
        (elim (Bool-cases (ltb_ℤ (h.answer_out w.calls) (pos 0))) [
          | inl bad ↦ rw bad
          | inr good ↦ rw (good, chunk_len_last len few, le→ltb 0 (len - len) (omega arith))
        ])

  send_loop-more :
      (f len b seq : ℕ) (block : List ℕ) (w : World)
      → 60 < len
      → len ≤ length block
      → send_loop h dev timeout (suc f) len block seq b w ≡ (
          if ltb_ℤ (h.answer_out w.calls) (pos 0)
          then done false (after (u8 (seq + 0x20 + b)) (take 60 block) w)
          else send_loop h dev timeout f
              (len - 60)
              (drop 60 block)
              (next_seq seq)
              (u8 (b + 1))
              (after (u8 (seq + 0x20 + b)) (take 60 block) w))
  unfolding send_loop
  send_loop-more f len b seq block w few fits =
      rw
        (
          chunk_len_more len few,
          more_data_more len few,
          send_block_lem 60 0x20 seq b block w (omega arith),
          ◌>>=◌,
        )
        (elim (Bool-cases (ltb_ℤ (h.answer_out w.calls) (pos 0))) [
          | inl bad ↦ rw bad
          | inr good ↦ rw (good, chunk_len_more len few, lt→ltb 0 (len - 60) (omega arith))
        ])

  -- Whatever the host answers, the loop ends; and if it says that every block went through, the
  -- other end has the command, in order.
  pub send_loop-handed_over :
      (f len b : ℕ) (block p : List ℕ) (cs : List (List ℕ)) (o : Bool) (w : World)
      → len < f
      → len ≤ length block
      → b < 32
      → b * 60 + len ≤ 1920
      → handed_over w.calls ≡ record { partial = p; blocks = b; commands = cs; in_order = o }
      → Returns (send_loop h dev timeout f len block (0x40 * (b % 2)) b w) (λ sent w'.
        (w'.udev ≡ w.udev)
        × (sent ≡ true → handed_over w'.calls ≡ at_rest ((p ++ take len block) ∷ cs) o))
  unfolding handed_over
  send_loop-handed_over zero len b block p cs o w lt fits few room e = absurd (omega arith)
  send_loop-handed_over (suc f) len b block p cs o w lt fits few room e =
      elim (Bool-cases (ltb 60 len)) [
        | inl more ↦
            rw (send_loop-more f len b (0x40 * (b % 2)) block w (omega tests) fits)
              (elim (Bool-cases (ltb_ℤ (h.answer_out w.calls) (pos 0))) [
                | inl bad ↦ rw bad (refl, λ q. cc)
                | inr good ↦
                    rw (good, next_seq_lem b)
                      (let w' = after (u8 (0x40 * (b % 2) + 0x20 + b)) (take 60 block) w in
                        let next : handed_over w'.calls ≡ record {
                          partial = p ++ take 60 block;
                          blocks = b + 1;
                          commands = cs;
                          in_order = o;
                        } =
                          rw e (accept_more timeout b (take 60 block) p cs o few) in
                        rw (mod-eq_of_lt {n = b + 1} {m = 256} (omega arith)) (
                          subst
                            (λ c.
                              Returns
                                (send_loop h dev timeout f (len - 60) (drop 60 block)
                                  (0x40 * ((b + 1) % 2)) (b + 1) w')
                                (λ sent w''.
                                  (w''.udev ≡ w.udev)
                                  × (sent ≡ true → handed_over w''.calls ≡ at_rest (c ∷ cs) o)))
                            (regroup len p block (omega tests))
                            (send_loop-handed_over f (len - 60) (b + 1) (drop 60 block)
                              (p ++ take 60 block) cs o w' (omega tests)
                              (omega (tests, length-drop 60 block)) (omega tests) (omega tests)
                              next)))
              ])
        | inr last ↦
            rw (send_loop-last f len b (0x40 * (b % 2)) block w (omega tests) fits)
              (refl, λ q. rw (e, accept_last timeout b (take len block) p cs o few))
      ]

  pub send_blocks-handed_over :
      (len : ℕ) (cmd : List ℕ) (cs : List (List ℕ)) (o : Bool) (w : World)
      → len ≤ length cmd
      → len ≤ 1920
      → handed_over w.calls ≡ at_rest cs o
      → (sent : Bool) × (w' : World) × (send_blocks h dev timeout len cmd w ≡ done sent w')
        × (w'.udev ≡ w.udev)
        × (sent ≡ true → handed_over w'.calls ≡ at_rest (take len cmd ∷ cs) o)
  unfolding send_blocks
  send_blocks-handed_over len cmd cs o w fits few rest =
      let (sent, w', e, both) =
        Returns-done
          (λ sent w'.
            (w'.udev ≡ w.udev)
            × (sent ≡ true → handed_over w'.calls ≡ at_rest (take len cmd ∷ cs) o))
          (send_loop h dev timeout (suc len) len cmd 0 0 w)
          (send_loop-handed_over (suc len) len 0 cmd [] cs o w (omega arith) fits (omega arith)
            (omega arith) rest) in
      (sent, w', e, both.0, both.1)

  -- A command of one block is on the wire whatever the transfer gives.
  pub send_blocks-short :
      (len : ℕ) (cmd : List ℕ) (cs : List (List ℕ)) (o : Bool) (w : World)
      → len ≤ length cmd
      → len ≤ 60
      → handed_over w.calls ≡ at_rest cs o
      → (c : History) × (send_blocks h dev timeout len cmd w
          ≡ done (not (ltb_ℤ (h.answer_out w.calls) (pos 0))) (record w { calls = c }))
        × (handed_over c ≡ at_rest (take len cmd ∷ cs) o)
  unfolding send_blocks handed_over
  send_blocks-short len cmd cs o w fits few rest = (
    (after (u8 (0x40 * (0 % 2) + 0 + 0)) (take len cmd) w).calls,
    send_loop-last len len 0 0 cmd w few fits,
    rw (rest, accept_last timeout 0 (take len cmd) [] cs o (omega arith)),
  )

  -- The other end gets a command of one block if its transfer goes through.
  pub send_blocks-received :
      (len : ℕ) (cmd : List ℕ) (cs : List (List ℕ)) (o : Bool) (w : World)
      → len ≤ length cmd
      → len ≤ 60
      → received h w.calls ≡ at_rest cs o
      → (c : History) × (send_blocks h dev timeout len cmd w
          ≡ done (not (ltb_ℤ (h.answer_out w.calls) (pos 0))) (record w { calls = c }))
        × (received h c ≡ (
            if ltb_ℤ (h.answer_out w.calls) (pos 0)
            then received h w.calls
            else at_rest (take len cmd ∷ cs) o))
  unfolding send_blocks received
  send_blocks-received len cmd cs o w fits few rest = (
    (after (u8 (0x40 * (0 % 2) + 0 + 0)) (take len cmd) w).calls,
    send_loop-last len len 0 0 cmd w few fits,
    rw (rest, accept_last timeout 0 (take len cmd) [] cs o (omega arith)),
  )
