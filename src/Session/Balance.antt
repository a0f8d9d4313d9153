-- ===== src/Session/Balance.antt =====
-- Opening and closing: nothing that was acquired is lost.
use msdk_linux.Base.{
  ℕ, List, pos, refl, ◌≡◌, some, none, ◌+◌, Option, ◌⊎◌, ◌-◌, ◌∷◌, inl, arith, inr, Bool-cases,
  eqb_ℤ, ltb_ℤ,
}
use msdk_linux.Machine.{
  Host, Device, Udev, World, usb_init, kernel_driver_active, open_device, detach_kernel_driver,
  claim_interface,
}
use msdk_linux.Hid.Open.{hid_close, hid_open, give_back, detach_and_claim, claim_or_give_back}
use msdk_linux.Session.Resources.{Resources, give_up_one, resources, with_device}
use msdk_linux.Machine.Ends.{Returns}
use msdk_linux.Hid.Wire.{handed_over, Wire}

give_up_one-head : (dev : Device) (ds : List Device) → give_up_one dev (dev ∷ ds) ≡ ds
give_up_one-head dev ds = ground arith

pub one_more_less : (n : ℕ) → n + 1 - 1 ≡ n
one_more_less n = omega arith

pub Option-cases {ℓ} : {A : Type ℓ} (o : Option A) → (o ≡ none) ⊎ ((a : A) × (o ≡ some a))
Option-cases none = inl refl
Option-cases (some a) = inr (a, refl)

module _ (h : Host) where
  -- The record, the resources and the wire are as given.
  abbrev pub Leaves : Udev → Resources → Wire → World → Type 0
  Leaves u r x w = (w.udev ≡ u) × (resources h w.calls ≡ r) × (handed_over w.calls ≡ x)

  -- How opening a device ends, in terms of what was there before it.
  abbrev pub Opened : Udev → Resources → Wire → Option Device → World → Type 0
  Opened u r x none = Leaves u r x
  Opened u r x (some dev) = Leaves u (with_device dev r) x

  module _ (dev : Device) (u : Udev) (r : Resources) (x : Wire) where
    -- The device is open, and its interface not claimed.
    abbrev HalfWay : World → Type 0
    HalfWay = Leaves u (record r { sessions = r.sessions + 1; handles = dev ∷ r.handles }) x

    give_back-Opened : (w : World) → HalfWay w → Returns (give_back dev w) (Opened u r x)
    give_back-Opened w (same, e, quiet) = (
      same,
      (unfold resources in
          rw e (rw (give_up_one-head dev r.handles) (rw (one_more_less r.sessions) refl))),
      unfold handed_over in quiet,
    )

    claim-Opened : (w : World) → HalfWay w → Returns (claim_or_give_back h dev w) (Opened u r x)
    claim-Opened w (same, e, quiet) =
        let w1 : World = record w { calls = claim_interface dev ∷ w.calls } in
        elim (Bool-cases (ltb_ℤ (h.claim w.calls) (pos 0))) [
          | inl bad ↦ rw bad (
              give_back-Opened w1
                (same, (unfold resources in rw e (rw bad refl)), unfold handed_over in quiet))
          | inr good ↦
              rw good (same, (unfold resources in rw e (rw good refl)), unfold handed_over in quiet)
        ]

    detach-Opened : (w : World) → HalfWay w → Returns (detach_and_claim h dev w) (Opened u r x)
    detach-Opened w (same, e, quiet) =
        let c = kernel_driver_active dev ∷ w.calls in
        let w1 : World = record w { calls = c } in
        let w2 : World = record w { calls = detach_kernel_driver dev ∷ c } in
        let there1 : HalfWay w1 = (same, (unfold resources in e), unfold handed_over in quiet) in
        let there2 : HalfWay w2 = (same, (unfold resources in e), unfold handed_over in quiet) in
        elim (Bool-cases (eqb_ℤ (h.driver_active w.calls) (pos 1))) [
          | inl active ↦ rw active (elim (Bool-cases (ltb_ℤ (h.detach c) (pos 0))) [
            | inl bad ↦ rw bad (give_back-Opened w2 there2)
            | inr good ↦ rw good (claim-Opened w2 there2)
          ])
          | inr not_active ↦ rw not_active (claim-Opened w1 there1)
        ]

  -- Whatever libusb answers, HID_Open returns, leaves the record alone and sends no report; with a
  -- device it holds one session, one handle and one claim more than before, and without one it has
  -- given back all that it took.
  pub hid_open-Opened :
      (vid pid : ℕ) (w : World)
      → Returns (hid_open h vid pid w) (Opened w.udev (resources h w.calls) (handed_over w.calls))
  unfolding hid_open
  hid_open-Opened vid pid w =
      let c = usb_init ∷ w.calls in
      let r = resources h w.calls in
      elim (Bool-cases (ltb_ℤ (h.init w.calls) (pos 0))) [
        | inl bad ↦ rw bad (refl, (unfold resources in rw bad refl), unfold handed_over in refl)
        | inr good ↦ rw good (elim (Option-cases (h.device c)) [
          | inl e ↦ rw e (
            refl,
            (unfold resources in rw (good, e) (rw (one_more_less r.sessions) refl)),
            unfold handed_over in refl,
          )
          | inr (dev, e) ↦ rw e (
              detach-Opened dev w.udev r (handed_over w.calls)
                (record w { calls = open_device vid pid ∷ c })
                (refl, (unfold resources in rw (good, e) refl), unfold handed_over in refl))
        ])
      ]

  -- `HID_Close` gives back all of it.
  pub hid_close-Leaves :
      (dev : Device) (r : Resources) (w : World)
      → resources h w.calls ≡ with_device dev r
      → Returns
          (hid_close (some dev) w)
          (λ x w'. (x ≡ pos 0) × Leaves w.udev r (handed_over w.calls) w')
  unfolding hid_close
  hid_close-Leaves dev r w e = (
    refl,
    (
      refl,
      (unfold resources in
          rw e (
            rw (give_up_one-head dev r.handles)
              (rw (give_up_one-head dev r.claims) (rw (one_more_less r.sessions) refl)))),
      unfold handed_over in refl,
    ),
  )
