-- ===== src/Keyboard/State.antt =====
-- The functions on the array keep it in step with the modifiers and keys that are down.
use msdk_linux.Base.{
  ℕ, List, if◌then◌else◌, length, ◌<◌, set, set_bit, ◌≤◌, ◌≡◌, clear_bit, inl, ◌-◌, inr, refl,
  arith, Bool-cases, ◌∷◌, [], ◌⊎◌, ◌==◌, ==_iff, pos, true,
}
use msdk_linux.Keyboard.Held.{Shows, press, erase, IsKeys, idle_op, active_op}
use msdk_linux.Keyboard.Op.Press.{press_key-active}
use msdk_linux.Keyboard.Op.{is_modifier, press_key, release_key, is_key_code, is_down}
use msdk_linux.Keyboard.Op.Release.{release_key-active, left_over}
use msdk_linux.Keyboard.{key_down_op, key_up_op}
use msdk_linux.Keyboard.Op.Modifiers.{press_modifier-Shows, release_modifier-Shows}
use msdk_linux.Keyboard.Op.Query.{held, is_down-idle, is_down-active}
use msdk_linux.Bits.{set_bit-lt, clear_bit-lt}
use msdk_linux.Keyboard.Keys.{press-few, erase-few, erase-IsKeys, press-IsKeys}

-- `op` shows `mods` and `ks`, which are a byte and at most six different keys.
pub record HasDown (op : List ℕ) (mods : ℕ) (ks : List ℕ) : Type 0 where
  pub shows : Shows op mods ks
  pub few : length ks ≤ 6
  pub keys : IsKeys ks
  pub byte_mods : mods < 256

abbrev pub down_mods : ℕ → ℕ → ℕ
down_mods code mods = if is_modifier code then set_bit mods (code - 224) else mods

abbrev pub down_keys : ℕ → List ℕ → List ℕ
down_keys code ks = if is_modifier code then ks else press code ks

abbrev pub up_mods : ℕ → ℕ → ℕ
up_mods code mods = if is_modifier code then clear_bit mods (code - 224) else mods

abbrev pub up_keys : ℕ → List ℕ → List ℕ
up_keys code ks = if is_modifier code then ks else erase code ks

set_two : (mods : ℕ) (op ks : List ℕ) → Shows op mods ks → set op 2 0 ≡ op
set_two mods op ks (inl (e, m, n)) = rw e
set_two mods op ks (inr e) = rw e

press_key-Shows :
    (code mods : ℕ) (op ks : List ℕ)
    → 0 < code
    → HasDown op mods ks
    → Shows (press_key code op) mods (press code ks)
press_key-Shows code mods op ks p d = elim d.shows [
  | inl (e, m, n) ↦ inr (rw (e, m, n) (unfold press_key in refl))
  | inr e ↦ inr (rw e (press_key-active mods code ks d.few p d.keys))
]

left_over-Shows :
    (mods : ℕ) (ks ks' : List ℕ)
    → ((left_over mods ks ks' ≡ idle_op) × (mods ≡ 0) × (ks' ≡ []))
      ⊎ (left_over mods ks ks' ≡ active_op mods ks')
left_over-Shows mods [] ks' = inr refl
left_over-Shows mods (a ∷ []) [] = elim (Bool-cases (mods == 0)) [
  | inl z ↦ inl (rw z, (==_iff mods 0).0 z, refl)
  | inr z ↦ inr (rw z)
]
left_over-Shows mods (a ∷ []) (b ∷ ks') = inr refl
left_over-Shows mods (a ∷ b ∷ ks) ks' = inr refl

release_key-Shows :
    (code mods : ℕ) (op ks : List ℕ)
    → 0 < code
    → HasDown op mods ks
    → Shows (release_key code op) mods (erase code ks)
release_key-Shows code mods op ks p d = elim d.shows [
  | inl (e, m, n) ↦ inl (rw e (unfold release_key in refl), m, rw n)
  | inr e ↦
      rw (e, release_key-active mods code ks d.few p d.keys)
        (left_over-Shows mods ks (erase code ks))
]

pub code-pos : (code : ℕ) → is_key_code (pos code) ≡ true → 0 < code
unfolding is_key_code
code-pos code v = ground arith

pub bit-lt : (code : ℕ) → is_key_code (pos code) ≡ true → is_modifier code ≡ true → code - 224 < 8
unfolding is_key_code is_modifier
bit-lt code v m = ground arith

module _ (code mods : ℕ) (op ks : List ℕ) (v : is_key_code (pos code) ≡ true)
    (d : HasDown op mods ks) where
  pub key_down_op-HasDown : HasDown (key_down_op code op) (down_mods code mods) (down_keys code ks)
  unfolding key_down_op
  key_down_op-HasDown = elim (Bool-cases (is_modifier code)) [
    | inl m ↦
        rw (m, set_two mods op ks d.shows)
          (record {
            shows = press_modifier-Shows (code - 224) mods op ks d.few d.shows;
            few = d.few;
            keys = d.keys;
            byte_mods = set_bit-lt mods (code - 224) d.byte_mods (bit-lt code v m);
          })
    | inr k ↦
        rw (k, set_two mods op ks d.shows)
          (record {
            shows = press_key-Shows code mods op ks (code-pos code v) d;
            few = press-few code ks d.few;
            keys = press-IsKeys code ks (code-pos code v) d.keys;
            byte_mods = d.byte_mods;
          })
  ]

  pub key_up_op-HasDown : HasDown (key_up_op code op) (up_mods code mods) (up_keys code ks)
  unfolding key_up_op
  key_up_op-HasDown = elim (Bool-cases (is_modifier code)) [
    | inl m ↦
        rw (m, set_two mods op ks d.shows)
          (record {
            shows = release_modifier-Shows (code - 224) mods op ks d.few d.shows;
            few = d.few;
            keys = d.keys;
            byte_mods = clear_bit-lt mods (code - 224) d.byte_mods (bit-lt code v m);
          })
    | inr k ↦
        rw (k, set_two mods op ks d.shows)
          (record {
            shows = release_key-Shows code mods op ks (code-pos code v) d;
            few = erase-few code 6 ks d.few;
            keys = erase-IsKeys code ks d.keys;
            byte_mods = d.byte_mods;
          })
  ]

  pub is_down-HasDown : is_down code op ≡ held mods ks code
  is_down-HasDown = elim d.shows [
    | inl (e, m, n) ↦ rw (e, m, n) (is_down-idle code)
    | inr e ↦ rw e (is_down-active mods code ks d.few (code-pos code v))
  ]
