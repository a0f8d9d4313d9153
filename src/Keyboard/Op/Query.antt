-- ===== src/Keyboard/Op/Query.antt =====
-- Asking whether a key or a modifier is down.
use msdk_linux.Base.{
  ℕ, List, Bool, ◌≡◌, length, ◌≤◌, if◌then◌else◌, [], ◌<◌, arith, test_bit, ◌∷◌, ◌-◌,
}
use msdk_linux.Keyboard.Held.{contains, idle_op, active_op}
use msdk_linux.Keyboard.Op.{is_down, is_modifier}

-- What is down, in terms of the modifiers and the list of keys.
abbrev pub held : ℕ → List ℕ → ℕ → Bool
held mods ks code = if is_modifier code then test_bit mods (code - 224) else contains code ks

pub is_down-active :
    (mods code : ℕ) (ks : List ℕ)
    → length ks ≤ 6
    → 0 < code
    → is_down code (active_op mods ks) ≡ held mods ks code
unfolding is_down
is_down-active mods code [] few p = ground arith
is_down-active mods code (a ∷ []) few p = ground arith
is_down-active mods code (a ∷ b ∷ []) few p = ground arith
is_down-active mods code (a ∷ b ∷ c ∷ []) few p = ground arith
is_down-active mods code (a ∷ b ∷ c ∷ d ∷ []) few p = ground arith
is_down-active mods code (a ∷ b ∷ c ∷ d ∷ e ∷ []) few p = ground arith
is_down-active mods code (a ∷ b ∷ c ∷ d ∷ e ∷ f ∷ []) few p = ground arith
is_down-active mods code (a ∷ b ∷ c ∷ d ∷ e ∷ f ∷ g ∷ ks) few p = absurd (omega arith)

pub is_down-idle : (code : ℕ) → is_down code idle_op ≡ held 0 [] code
unfolding is_down
is_down-idle code = ground arith
