-- ===== src/Session/Resources.antt =====
-- What a history of calls has acquired and not given back, as the documentation of libusb and of
-- the C library counts it.
use msdk_linux.Base.{
  ℕ, List, pos, Option, ◌+◌, some, ◌∷◌, none, if◌then◌else◌, ◌==◌, ltb_ℤ, ◌-◌, [],
}
use msdk_linux.Machine.{
  Device, Host, History, open_device, close_device, claim_interface, release_interface, usb_init,
  usb_exit, malloc, free,
}

pub record Resources : Type 0 where
  -- Initialisations of libusb that went well, and no `libusb_exit` yet.
  pub sessions : ℕ
  pub handles : List Device
  pub claims : List Device
  pub blocks : ℕ

-- One handle less for the device.
abbrev pub give_up_one : Device → List Device → List Device
give_up_one dev [] = []
give_up_one dev (d ∷ ds) = if d == dev then ds else d ∷ give_up_one dev ds

abbrev pub add_handle : Option Device → List Device → List Device
add_handle none ds = ds
add_handle (some dev) ds = dev ∷ ds

abbrev pub add_block : Option (Unit {0}) → ℕ → ℕ
add_block none n = n
add_block (some _) n = n + 1

unfoldable pub resources : Host → History → Resources
resources h [] = record { sessions = 0; handles = []; claims = []; blocks = 0 }
resources h (usb_init ∷ c) =
    let r = resources h c in
    record r { sessions = if ltb_ℤ (h.init c) (pos 0) then r.sessions else r.sessions + 1 }
resources h (usb_exit ∷ c) = let r = resources h c in record r { sessions = r.sessions - 1 }
resources h (open_device vid pid ∷ c) =
    let r = resources h c in record r { handles = add_handle (h.device c) r.handles }
resources h (close_device dev ∷ c) =
    let r = resources h c in record r { handles = give_up_one dev r.handles }
resources h (claim_interface dev ∷ c) =
    let r = resources h c in
    record r { claims = if ltb_ℤ (h.claim c) (pos 0) then r.claims else dev ∷ r.claims }
resources h (release_interface dev ∷ c) =
    let r = resources h c in record r { claims = give_up_one dev r.claims }
resources h (malloc ∷ c) =
    let r = resources h c in record r { blocks = add_block (h.allocates c) r.blocks }
resources h (free ∷ c) = let r = resources h c in record r { blocks = r.blocks - 1 }
resources h (other ∷ c) = resources h c

-- With one device more in use.
abbrev pub with_device : Device → Resources → Resources
with_device dev r = record {
  sessions = r.sessions + 1;
  handles = dev ∷ r.handles;
  claims = dev ∷ r.claims;
  blocks = r.blocks;
}

abbrev pub with_block : Resources → Resources
with_block r = record r { blocks = r.blocks + 1 }
