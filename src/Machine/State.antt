-- ===== src/Machine/State.antt =====
-- The device record, and programs over it and over the history of calls.
use msdk_linux.Base.{ℕ, Bool, Option, List, ◌∷◌, ℤ, if◌then◌else◌}
use msdk_linux.Machine.Calls.{Call, Device, History}

-- `UDEVHANDLE`
pub record Udev : Type 0 where
  pub h_dev : Option Device
  pub curr_kb_op : List ℕ
  pub curr_mouse_op : List ℕ
  pub curr_mouse_abs_pos_x : ℤ
  pub curr_mouse_abs_pos_y : ℤ
  pub mouse_1st_movto : ℕ
  pub cx : ℤ
  pub cy : ℤ

-- `HANDLE`: NULL, or the pointer that `M_Open` returned. There is one device record, as the
-- library supports one box.
pub data Handle : Type 0 where
  null live : Handle

pub record World : Type 0 where
  pub calls : History
  pub udev : Udev

-- How a call ends: it returns, it does what C leaves undefined, or the patience ran out.
pub data Outcome (A : Type 0) : Type 0 where
  done : A → World → Outcome A
  undefined : Outcome A
  waiting : Outcome A

abbrev pub Prog : Type 0 → Type 0
Prog A = World → Outcome A

infixl 5 ◌>>=◌ ◌>>◌
abbrev pub ◌>>=◌ : {A B : Type 0} → Prog A → (A → Prog B) → Prog B
◌>>=◌ m f w = elim (m w) [ done a w' ↦ f a w' | undefined ↦ undefined | waiting ↦ waiting ]

abbrev pub ◌>>◌ : {A B : Type 0} → Prog A → Prog B → Prog B
m >> k = m >>= λ _. k

abbrev pub return : {A : Type 0} → A → Prog A
return a w = done a w

abbrev pub undefined_here : {A : Type 0} → Prog A
undefined_here w = undefined

abbrev pub give_up : {A : Type 0} → Prog A
give_up w = waiting

-- Reads the record behind the handle.
abbrev pub udev : Prog Udev
udev w = done w.udev w

-- Writes it.
abbrev pub modify : (Udev → Udev) → Prog (Unit {0})
modify f w = done tt (record w { udev = f w.udev })

-- Makes one call and reads the host's answer to it.
abbrev pub call : {A : Type 0} → Call → (History → A) → Prog A
call c answer w = done (answer w.calls) (record w { calls = c ∷ w.calls })

abbrev pub silent : Call → Prog (Unit {0})
silent c = call c (λ _. tt)

-- A guard: `if (b) return a;`
abbrev pub return_if : {A : Type 0} → Bool → A → Prog A → Prog A
return_if b a m w = if b then done a w else m w
