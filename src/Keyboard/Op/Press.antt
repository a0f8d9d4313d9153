-- ===== src/Keyboard/Op/Press.antt =====
-- Pressing a key, on the array and on the list of keys.
use msdk_linux.Base.{ℕ, List, length, ◌≤◌, ◌<◌, ◌≡◌, arith, ◌∷◌, []}
use msdk_linux.Keyboard.Held.{press, IsKeys, active_op}
use msdk_linux.Keyboard.Op.{press_key}

pub press_key-active :
    (mods code : ℕ) (ks : List ℕ)
    → length ks ≤ 6
    → 0 < code
    → IsKeys ks
    → press_key code (active_op mods ks) ≡ active_op mods (press code ks)
unfolding press_key
press_key-active mods code [] few p keys = ground arith
press_key-active mods code (a ∷ []) few p keys = ground arith
press_key-active mods code (a ∷ b ∷ []) few p keys = ground arith
press_key-active mods code (a ∷ b ∷ c ∷ []) few p keys = ground arith
press_key-active mods code (a ∷ b ∷ c ∷ d ∷ []) few p keys = ground arith
press_key-active mods code (a ∷ b ∷ c ∷ d ∷ e ∷ []) few p keys = ground arith
press_key-active mods code (a ∷ b ∷ c ∷ d ∷ e ∷ f ∷ []) few p keys = ground arith
press_key-active mods code (a ∷ b ∷ c ∷ d ∷ e ∷ f ∷ g ∷ ks) few p keys = absurd (omega arith)
