-- ===== src/Keyboard/ReleaseAll.antt =====
-- `M_ReleaseAllKey` at a device that answers at once.
use msdk_linux.Base.{ℕ, List, drop, ◌≡◌, inl, ◌∷◌, inr, [], Bool, suc, arith, ap, refl, zero, pos}
use msdk_linux.Keyboard.Held.{Shows, idle_op, places}
use msdk_linux.Keyboard.{m_release_all_key, clear_kb, Host, live, set_kb_op, ◌>>=◌}
use msdk_linux.Keyboard.Op.{clear_kb}
use msdk_linux.Machine.{Host, Device, World, IsPrompt, live, ◌>>=◌}
use msdk_linux.Keyboard.State.{HasDown}
use msdk_linux.Keyboard.Calls.{KbState}
use msdk_linux.Machine.Ends.{Returns}
use msdk_linux.Hid.Exchange.{hid_ctrl_comm_short}

drop-places : (n : ℕ) (ks : List ℕ) → drop n (places n ks) ≡ 0 ∷ []
drop-places zero ks = refl
drop-places (suc n) [] = drop-places n []
drop-places (suc n) (k ∷ ks) = drop-places n ks

clear_kb-Shows : (op : List ℕ) (mods : ℕ) (ks : List ℕ) → Shows op mods ks → clear_kb op ≡ idle_op
clear_kb-Shows op mods ks (inl (e, m, n)) = rw e refl
clear_kb-Shows op mods ks (inr e) =
    rw e (ap (λ l. 0 ∷ 0 ∷ 0 ∷ 0 ∷ 0 ∷ 0 ∷ 0 ∷ 0 ∷ 0 ∷ l) (drop-places 6 ks))

pub idle-HasDown : (op : List ℕ) → op ≡ idle_op → HasDown op 0 []
idle-HasDown op e = record {
  shows = inl (e, refl, refl);
  few = omega arith;
  keys = tt;
  byte_mods = omega arith;
}

-- M_ReleaseAllKey at a device that answers at once returns 0, whatever the answer is: nothing is
-- down in the state after it, the byte 0 alone has gone out, and nothing else of the record
-- changes.
pub m_release_all_key-Told :
    (h : Host) (dev : Device) (mods : ℕ) (ks : List ℕ) (cs : List (List ℕ)) (ok : Bool) (w : World)
    → IsPrompt h
    → KbState dev mods ks cs ok w
    → Returns (m_release_all_key h live w) (λ r w'.
      (r ≡ pos 0)
      × KbState dev 0 [] ((0 ∷ []) ∷ cs) ok w'
      × (w'.udev ≡ record w.udev { curr_kb_op = w'.udev.curr_kb_op }))
unfolding m_release_all_key
m_release_all_key-Told h dev mods ks cs ok w prompt s =
    let op = w.udev.curr_kb_op in
    let w1 : World = record w { udev = set_kb_op clear_kb w.udev } in
    let cleared = clear_kb-Shows op mods ks s.down.shows in
    let x =
      hid_ctrl_comm_short h dev 0 prompt w.udev.h_dev 1 (clear_kb op) cs ok w1 s.device
        (omega arith) (omega arith) s.on_wire in
    rw (x.returns, ◌>>=◌)
      (
        refl,
        record {
          device = s.device;
          down = idle-HasDown (clear_kb op) cleared;
          on_wire = x.on_wire;
        },
        refl,
      )
