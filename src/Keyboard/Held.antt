-- ===== src/Keyboard/Held.antt =====
-- What the keyboard functions are for: a set of modifiers and a list of at most six keys that are
-- down, and how `CurrKbOp` shows them.
use msdk_linux.Base.{
  ℕ, List, if◌then◌else◌, ◌∷◌, Bool, ◌≡◌, replicate, ◌+◌, length, ltb, false, ◌<◌, ◌==◌, [], ◌⊎◌,
  ◌||◌, suc, ◌++◌, zero, take,
}

-- `mods` has a bit for each modifier; `keys` are the other keys that are down, oldest first.
abbrev pub contains : ℕ → List ℕ → Bool
contains code [] = false
contains code (k ∷ ks) = k == code || contains code ks

abbrev pub erase : ℕ → List ℕ → List ℕ
erase code [] = []
erase code (k ∷ ks) = if k == code then ks else k ∷ erase code ks

-- Six keys fit; a seventh takes the place of the sixth.
abbrev pub press : ℕ → List ℕ → List ℕ
press code ks =
    if contains code ks
    then ks
    else if ltb (length ks) 6
    then ks ++ code ∷ []
    else take 5 ks ++ code ∷ []

-- Keys other than 0, each once.
abbrev pub IsKeys : List ℕ → Type 0
IsKeys [] = Unit
IsKeys (k ∷ ks) = (0 < k) × (contains k ks ≡ false) × IsKeys ks

-- The places of the keys, filled up with 0, and the last byte of the array.
abbrev pub places : ℕ → List ℕ → List ℕ
places zero ks = 0 ∷ []
places (suc n) [] = 0 ∷ places n []
places (suc n) (k ∷ ks) = k ∷ places n ks

-- The index of the last byte in use.
abbrev pub last_index : List ℕ → ℕ
last_index [] = 3
last_index (k ∷ ks) = length ks + 3

abbrev pub idle_op : List ℕ
idle_op = replicate 10 0

abbrev pub active_op : ℕ → List ℕ → List ℕ
active_op mods ks = (0x80 + last_index ks) ∷ mods ∷ 0 ∷ places 6 ks

-- `op` shows that `mods` and `ks` are down: all bytes are 0 where nothing is, or the bytes are
-- laid out as Keyboard/Op says.
abbrev pub Shows : List ℕ → ℕ → List ℕ → Type 0
Shows op mods ks = ((op ≡ idle_op) × (mods ≡ 0) × (ks ≡ [])) ⊎ (op ≡ active_op mods ks)
