-- ===== src/Keyboard/Op/Release.antt =====
-- Releasing a key, on the array and on the list of keys.
use msdk_linux.Base.{ℕ, List, length, ◌≤◌, ◌<◌, ◌≡◌, arith, ◌∷◌, [], if◌then◌else◌, ◌==◌}
use msdk_linux.Keyboard.Held.{erase, IsKeys, active_op, idle_op}
use msdk_linux.Keyboard.Op.{release_key}

-- What the array is left as where the last key goes: cleared, or with the modifiers alone.
abbrev pub left_over : ℕ → List ℕ → List ℕ → List ℕ
left_over mods (k ∷ []) [] = if mods == 0 then idle_op else active_op mods []
left_over mods ks ks' = active_op mods ks'

pub release_key-active :
    (mods code : ℕ) (ks : List ℕ)
    → length ks ≤ 6
    → 0 < code
    → IsKeys ks
    → release_key code (active_op mods ks) ≡ left_over mods ks (erase code ks)
unfolding release_key
release_key-active mods code [] few p keys = ground arith
release_key-active mods code (a ∷ []) few p keys = ground arith
release_key-active mods code (a ∷ b ∷ []) few p keys = ground arith
release_key-active mods code (a ∷ b ∷ c ∷ []) few p keys = ground arith
release_key-active mods code (a ∷ b ∷ c ∷ d ∷ []) few p keys = ground arith
release_key-active mods code (a ∷ b ∷ c ∷ d ∷ e ∷ []) few p keys = ground arith
release_key-active mods code (a ∷ b ∷ c ∷ d ∷ e ∷ f ∷ []) few p keys = ground arith
release_key-active mods code (a ∷ b ∷ c ∷ d ∷ e ∷ f ∷ g ∷ ks) few p keys = absurd (omega arith)
