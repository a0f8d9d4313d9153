-- ===== src/Hid/Answered.antt =====
-- `HID_Ctrl_Comm` as a whole, with a device that answers in several reports: what comes back.
use msdk_linux.Base.{
  ℕ, List, ◌≡◌, ◌∷◌, ◌≤◌, length, some, take, pos, [], refl, get_or, ◌++◌, ◌*◌, ◌+◌, length-append,
  lt→ltb, arith, ◌-◌, ap, ◌≤ℤ◌, ◌<◌, le→ltb, pos_part, neg_part,
}
use msdk_linux.Hid.{status_word, Reply, hid_ctrl_comm}
use native.Mathlib.Nat.{zero-add, suc-add}
use msdk_linux.Machine.{Host, Device, History, transfer_out, World, done, ◌>>=◌}
use msdk_linux.Hid.Receive.Reports.{Part, reads, response, Delivers, receive_loop-Delivers}
use msdk_linux.Hid.Send.{send_blocks, out_put_report}
use msdk_linux.Hid.Receive.{receive_blocks}
use msdk_linux.Hid.Send.Blocks.{send_loop-last}

get_or-append : (xs ys : List ℕ) (i d : ℕ) → get_or (xs ++ ys) (length xs + i) d ≡ get_or ys i d
get_or-append [] ys i d = rw zero-add refl
get_or-append (x ∷ xs) ys i d = rw suc-add (get_or-append xs ys i d)

get_or-at : (xs ys : List ℕ) (n i d : ℕ) → n ≡ length xs + i → get_or (xs ++ ys) n d ≡ get_or ys i d
get_or-at xs ys n i d e = rw e (get_or-append xs ys i d)

-- The two last bytes are the status word, high byte first.
abbrev pub with_status : List ℕ → ℕ → ℕ → Reply
with_status bytes hi lo = record {
  status = pos (hi * 256 + lo);
  resp_apdu = bytes ++ hi ∷ lo ∷ [];
  resp_len = length bytes;
}

status_word-append :
    (bytes : List ℕ) (hi lo : ℕ) → status_word (bytes ++ hi ∷ lo ∷ []) ≡ with_status bytes hi lo
unfolding status_word
status_word-append bytes hi lo =
    let two = length-append bytes (hi ∷ lo ∷ []) in
    let n = length (bytes ++ hi ∷ lo ∷ []) in
    rw
      (
        lt→ltb 1 n (omega arith),
        get_or-at bytes (hi ∷ lo ∷ []) (n - 2) 0 0 (omega arith),
        get_or-at bytes (hi ∷ lo ∷ []) (n - 1) 1 0 (omega arith),
      )
      (ap
        (λ l. record {
          status = pos (hi * 256 + lo);
          resp_apdu = bytes ++ hi ∷ lo ∷ [];
          resp_len = l;
        })
        (omega arith))

module _ (h : Host) (dev : Device) (room timeout : ℕ) where
  -- The calls of an exchange of one block with its answer.
  abbrev pub exchange : List Part → List ℕ → History → History
  exchange ps block c = reads h dev ps (transfer_out dev (out_put_report timeout 0 block) ∷ c)

  -- Where a command of one block goes out and the device answers in any number of reports, busy
  -- ones among them, with a response of at least two bytes that fits the buffer and within the
  -- patience, HID_Ctrl_Comm returns the last two bytes as its result, high byte first, and hands
  -- back the response and its length without them.
  pub hid_ctrl_comm_answered :
      (len : ℕ) (cmd : List ℕ) (ps : List Part) (final bytes : List ℕ) (hi lo : ℕ) (w : World)
      → len ≤ length cmd
      → len ≤ 60
      → pos 0 ≤ℤ h.answer_out w.calls
      → length ps < h.patience
      → response ps final ≡ bytes ++ hi ∷ lo ∷ []
      → length bytes + 2 ≤ room
      → Delivers h dev ps final
          (transfer_out dev (out_put_report timeout 0 (take len cmd)) ∷ w.calls)
      → hid_ctrl_comm h room (some dev) len cmd timeout w
        ≡ done (with_status bytes hi lo) (record w { calls = exchange ps (take len cmd) w.calls })
  unfolding hid_ctrl_comm send_blocks receive_blocks
  hid_ctrl_comm_answered len cmd ps final bytes hi lo w fits few good enough is_resp has_room d =
      let w1 : World = record w {
        calls = transfer_out dev (out_put_report timeout 0 (take len cmd)) ∷ w.calls;
      } in
      let two = length-append bytes (hi ∷ lo ∷ []) in
      rw (send_loop-last h dev timeout len len 0 0 cmd w few fits, ◌>>=◌)
        (rw
          (le→ltb (pos_part (h.answer_out w.calls) + 0) (0 + neg_part (h.answer_out w.calls))
            (omega arith))
          (rw
            (
              receive_loop-Delivers h dev h.patience room ps final [] w1 enough
                  (rw is_resp (omega (arith, two))) d,
              ◌>>=◌,
            )
            (rw is_resp (rw (status_word-append bytes hi lo) refl))))
