-- ===== src/Keyboard/Op/Modifiers.antt =====
-- Pressing and releasing a modifier, on the array and on the set of modifiers.
use msdk_linux.Base.{
  ℕ, List, length, ◌≤◌, set_bit, clear_bit, inl, inr, ◌∷◌, arith, refl, [], ◌-◌, ◌^◌,
}
use msdk_linux.Keyboard.Held.{Shows}
use msdk_linux.Keyboard.Op.{press_modifier, release_modifier}
use msdk_linux.Bits.{zero-bit_and}

pub press_modifier-Shows :
    (k mods : ℕ) (op ks : List ℕ)
    → length ks ≤ 6
    → Shows op mods ks
    → Shows (press_modifier k op) (set_bit mods k) ks
unfolding press_modifier
press_modifier-Shows k mods op ks few (inl (e, m, n)) = inr (rw (e, m, n))
press_modifier-Shows k mods op [] few (inr e) = inr (rw e)
press_modifier-Shows k mods op (a ∷ []) few (inr e) = inr (rw e)
press_modifier-Shows k mods op (a ∷ b ∷ []) few (inr e) = inr (rw e)
press_modifier-Shows k mods op (a ∷ b ∷ c ∷ []) few (inr e) = inr (rw e)
press_modifier-Shows k mods op (a ∷ b ∷ c ∷ d ∷ []) few (inr e) = inr (rw e)
press_modifier-Shows k mods op (a ∷ b ∷ c ∷ d ∷ e' ∷ []) few (inr e) = inr (rw e)
press_modifier-Shows k mods op (a ∷ b ∷ c ∷ d ∷ e' ∷ f ∷ []) few (inr e) = inr (rw e)
press_modifier-Shows k mods op (a ∷ b ∷ c ∷ d ∷ e' ∷ f ∷ g ∷ ks) few (inr e) = absurd (omega arith)

pub release_modifier-Shows :
    (k mods : ℕ) (op ks : List ℕ)
    → length ks ≤ 6
    → Shows op mods ks
    → Shows (release_modifier k op) (clear_bit mods k) ks
unfolding release_modifier
release_modifier-Shows k mods op ks few (inl (e, m, n)) =
    inl (rw e refl, rw m (zero-bit_and (255 - 2 ^ k)), n)
release_modifier-Shows k mods op [] few (inr e) = inr (rw e)
release_modifier-Shows k mods op (a ∷ []) few (inr e) = inr (rw e)
release_modifier-Shows k mods op (a ∷ b ∷ []) few (inr e) = inr (rw e)
release_modifier-Shows k mods op (a ∷ b ∷ c ∷ []) few (inr e) = inr (rw e)
release_modifier-Shows k mods op (a ∷ b ∷ c ∷ d ∷ []) few (inr e) = inr (rw e)
release_modifier-Shows k mods op (a ∷ b ∷ c ∷ d ∷ e' ∷ []) few (inr e) = inr (rw e)
release_modifier-Shows k mods op (a ∷ b ∷ c ∷ d ∷ e' ∷ f ∷ []) few (inr e) = inr (rw e)
release_modifier-Shows k mods op (a ∷ b ∷ c ∷ d ∷ e' ∷ f ∷ g ∷ ks) few (inr e) =
    absurd (omega arith)
