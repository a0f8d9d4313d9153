-- ===== src/Hid/Receive/Reports.antt =====
-- A response that comes in several reports, with busy ones among them.
use msdk_linux.Base.{
  ℕ, List, ◌++◌, length, pos, ◌≡◌, ◌≤ℤ◌, ◌<◌, ◌∷◌, ◌+◌, ◌%◌, ◌≢◌, ◌≤◌, bit_and, some, arith, suc,
  length-append, [], zero,
}
use msdk_linux.Machine.{Host, Device, History, World, transfer_in, done}
use msdk_linux.Hid.Receive.{receive_loop, bytes_from}
use msdk_linux.Hid.Receive.Answers.{receive_loop-busy, receive_loop-more, receive_loop-last}
use mathlib.Core.List.{append_assoc}

-- A report before the last: "busy", or a part of the response.
pub data Part : Type 0 where
  busy : Part
  part : List ℕ → Part

abbrev pub response : List Part → List ℕ → List ℕ
response [] final = final
response (busy ∷ ps) final = response ps final
response (part bytes ∷ ps) final = bytes ++ response ps final

module _ (h : Host) (dev : Device) where
  -- After the calls `c` the device hands over a report with these bytes; `More` says of bit 5 of
  -- its PCB whether another follows.
  abbrev pub Brings : (ℕ → Type 0) → List ℕ → History → Type 0
  Brings More bytes c =
      (pos 0 ≤ℤ (h.answer_in c).0)
      × ((h.answer_in c).1 1 % 256 ≢ 0xCC)
      × More (bit_and ((h.answer_in c).1 1 % 256) 0x20)
      × ((h.answer_in c).1 3 % 256 ≡ length bytes)
      × (bytes_from (h.answer_in c).1 4 (length bytes) ≡ bytes)

  -- After the calls `c` the device answers with these reports, and then with a last one.
  abbrev pub Delivers : List Part → List ℕ → History → Type 0
  Delivers [] final c = Brings (λ more. more ≡ 0) final c
  Delivers (busy ∷ ps) final c =
      (pos 0 ≤ℤ (h.answer_in c).0)
      × ((h.answer_in c).1 1 % 256 ≡ 0xCC)
      × Delivers ps final (transfer_in dev ∷ c)
  Delivers (part bytes ∷ ps) final c =
      Brings (λ more. 0 < more) bytes c × Delivers ps final (transfer_in dev ∷ c)

  abbrev pub reads : List Part → History → History
  reads [] c = transfer_in dev ∷ c
  reads (p ∷ ps) c = reads ps (transfer_in dev ∷ c)

  -- The receiving loop passes over busy reports and joins the parts of a response in order, where
  -- it fits the buffer and the patience lasts.
  pub receive_loop-Delivers :
      (f room : ℕ) (ps : List Part) (final resp : List ℕ) (w : World)
      → length ps < f
      → length resp + length (response ps final) ≤ room
      → Delivers ps final w.calls
      → receive_loop h room dev f resp w
        ≡ done (some (resp ++ response ps final)) (record w { calls = reads ps w.calls })
  receive_loop-Delivers zero room ps final resp w lt fits d = absurd (omega arith)
  receive_loop-Delivers (suc f) room [] final resp w lt fits (good, ready, last, len, bytes) =
      rw (receive_loop-last h dev f room resp w good ready (omega arith) last, len, bytes)
  receive_loop-Delivers (suc f) room (busy ∷ ps) final resp w lt fits (good, late, d) =
      rw (receive_loop-busy h dev f room resp w good late) (
        receive_loop-Delivers f room ps final resp (record w { calls = transfer_in dev ∷ w.calls })
          (omega arith) fits d)
  receive_loop-Delivers (suc f) room (part b ∷ ps) final resp w lt fits
        ((good, ready, more, len, bytes), d) =
      let sum = length-append b (response ps final) in
      rw
        (
          receive_loop-more h dev f room resp w good ready (omega arith) more,
          len,
          bytes,
          ← append_assoc resp b (response ps final),
        )
        (receive_loop-Delivers f room ps final (resp ++ b)
          (record w { calls = transfer_in dev ∷ w.calls }) (omega arith)
          (omega (arith, sum, length-append resp b)) d)
