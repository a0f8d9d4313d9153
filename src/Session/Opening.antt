-- ===== src/Session/Opening.antt =====
-- `M_Open` and `M_Close` as a pair.
use msdk_linux.Base.{
  ℕ, List, ℤ, pos, refl, ◌≡◌, some, none, ◌<ℤ◌, ◌≤ℤ◌, ltb_ℤ, ◌⊎◌, ◌||◌, true, false, arith, ◌∷◌,
  Bool, [], minus_one, ◌∙◌, replicate, inl,
}
use msdk_linux.Session.{m_open, vid, pid, m_close, new_udev}
use msdk_linux.Machine.{Host, World, Device, done, null, malloc, live, ◌>>=◌, History}
use msdk_linux.Hid.Open.{hid_open, hid_close}
use msdk_linux.Session.Resources.{resources, with_device, with_block}
use mathlib.Core.Path.{subst}
use msdk_linux.Machine.Ends.{Returns, Returns-done}
use msdk_linux.Session.Balance.{Opened, hid_open-Opened, hid_close-Leaves, one_more_less, Leaves}
use msdk_linux.Hid.Wire.{handed_over, at_rest}
use msdk_linux.Move.{m_get_curr_mouse_pos}
use msdk_linux.Keyboard.Calls.{KbState}
use msdk_linux.Mouse.Calls.{MouseState}
use msdk_linux.Keyboard.State.{HasDown}

in_range :
    (nbr : ℤ) → pos 1 ≤ℤ nbr → nbr ≤ℤ pos 126 → (ltb_ℤ nbr (pos 1) || ltb_ℤ (pos 126) nbr) ≡ false
in_range nbr low high = ground arith

out_of_range :
    (nbr : ℤ)
    → (nbr <ℤ pos 1) ⊎ (pos 126 <ℤ nbr)
    → (ltb_ℤ nbr (pos 1) || ltb_ℤ (pos 126) nbr) ≡ true
out_of_range nbr off = ground arith

-- M_Open answers a number that is not from 1 to 126 with NULL, before anything is called.
pub m_open_refuses :
    (h : Host) (nbr : ℤ) (w : World)
    → (nbr <ℤ pos 1) ⊎ (pos 126 <ℤ nbr)
    → m_open h nbr w ≡ done null w
unfolding m_open
m_open_refuses h nbr w off = rw (out_of_range nbr off) refl

module _ (h : Host) (nbr : ℤ) (w w1 : World) (low : pos 1 ≤ℤ nbr) (high : nbr ≤ℤ pos 126) where
  module _ (dev : Device) (e : hid_open h vid pid w ≡ done (some dev) w1)
      (room : h.allocates w1.calls ≡ some tt) where
    abbrev opened : World
    opened = record { calls = malloc ∷ w1.calls; udev = new_udev dev }

    m_open-live : m_open h nbr w ≡ done live opened
    unfolding m_open
    m_open-live = rw (in_range nbr low high) (rw (e, ◌>>=◌) (rw room refl))

    after_open : Leaves h w.udev (with_device dev (resources h w.calls)) (handed_over w.calls) w1
    after_open =
        subst (λ o. Returns o (Opened h w.udev (resources h w.calls) (handed_over w.calls))) e
          (hid_open-Opened h vid pid w)

    -- Where M_Open gets a device and memory and the wire is between two commands, its record is the
    -- start of the state that the keyboard and the mouse functions keep: nothing is down, nothing
    -- has gone out since, and the position is unknown.
    pub m_open-ready :
        (cs : List (List ℕ)) (ok : Bool)
        → handed_over w.calls ≡ at_rest cs ok
        → (w2 : World) × (m_open h nbr w ≡ done live w2)
          × KbState dev 0 [] cs ok w2
          × MouseState dev 0 cs ok w2
          × (m_get_curr_mouse_pos live w2 ≡ done (minus_one, none) w2)
    unfolding m_get_curr_mouse_pos
    m_open-ready cs ok rest =
        let quiet : handed_over opened.calls ≡ at_rest cs ok =
          unfold handed_over in (after_open.2 ∙ rest) in
        let idle : HasDown (replicate 10 0) 0 [] = record {
          shows = inl (refl, refl, refl);
          few = omega arith;
          keys = tt;
          byte_mods = omega arith;
        } in
        (
          opened,
          m_open-live,
          record { device = refl; down = idle; on_wire = quiet },
          record { device = refl; first = 0; op = refl; on_wire = quiet },
          refl,
        )

    pub m_open-new_udev :
        (cs : List (List ℕ)) (ok : Bool)
        → handed_over w.calls ≡ at_rest cs ok
        → (c : History) × (m_open h nbr w ≡ done live (record { calls = c; udev = new_udev dev }))
          × (handed_over c ≡ at_rest cs ok)
    m_open-new_udev cs ok rest =
        (malloc ∷ w1.calls, m_open-live, unfold handed_over in (after_open.2 ∙ rest))

    -- For a number from 1 to 126, where HID_Open finds a device and memory is given, M_Open returns
    -- a handle whose record is zero but for the device, holding one block, one libusb session, one
    -- handle and one claim more than before, and M_Close on it returns 0 and gives all of them
    -- back.
    pub m_open-m_close :
        (w2 : World) × (m_open h nbr w ≡ done live w2)
        × (w2.udev ≡ new_udev dev)
        × (resources h w2.calls ≡ with_block (with_device dev (resources h w.calls)))
        × Returns
            (m_close live w2)
            (λ r w3. (r ≡ pos 0) × (resources h w3.calls ≡ resources h w.calls))
    unfolding m_close
    m_open-m_close =
        let before = resources h w.calls in
        let held : resources h opened.calls ≡ with_block (with_device dev before) =
          unfold resources in rw (after_open.1, room) refl in
        let (r, w3, closes, t) =
          Returns-done _ (hid_close (some dev) opened)
            (hid_close-Leaves h dev (with_block before) opened held) in
        (
          opened,
          m_open-live,
          refl,
          held,
          rw (closes, ◌>>=◌)
              (rw t.0 (refl, unfold resources in rw t.1.1 (rw (one_more_less before.blocks) refl))),
        )
