-- ===== src/Keyboard/Windows.antt =====
-- The functions on Windows key codes, and the table that they read.
use msdk_linux.Base.{
  ◌≤◌, ap, ◌∙◌, ℕ, ◌<◌, all_below, Bool, ◌==◌, pos, ◌||◌, ◌≡◌, true, ◌⊎◌, false, arith,
  all_below_sound, refl, minus_one, Bool-cases, ltb, inl, inr, tests,
}
use msdk_linux.Keyboard.{m_key_down2, m_key_up2, m_key_state2, m_key_down, m_key_up, m_key_state}
use msdk_linux.Keyboard.Op.{is_key_code}
use msdk_linux.KeyCode.Vkey.{vkey2hidcode}
use msdk_linux.Machine.{Host, World, live, done}
use msdk_linux.Keyboard.Told.{bad_code_refused}

-- What is checked of one code.
abbrev fits_table : ℕ → Bool
fits_table code = vkey2hidcode code == 0 || is_key_code (pos (vkey2hidcode code))

table_fits : all_below 256 fits_table ≡ true
unfolding all_below vkey2hidcode is_key_code
table_fits = refl

-- Which codes the table has no key for.
zero_or : (n : ℕ) (p : Bool) → (n == 0 || p) ≡ true → (n ≡ 0) ⊎ (p ≡ true)
zero_or n p h = ground arith

-- Every place of the table holds 0 or a code that `M_KeyDown` accepts.
vkey2hidcode-cases :
    (code : ℕ)
    → code < 256
    → (vkey2hidcode code ≡ 0) ⊎ (is_key_code (pos (vkey2hidcode code)) ≡ true)
vkey2hidcode-cases code lt =
    zero_or (vkey2hidcode code) (is_key_code (pos (vkey2hidcode code)))
      (all_below_sound 256 fits_table code table_fits lt)

zero_is_no_key : is_key_code (pos 0) ≡ false
unfolding is_key_code
zero_is_no_key = refl

-- A Windows code that the table has an accepted code for.
abbrev pub HasKey : ℕ → Type 0
HasKey code = (code ≤ 222) × (is_key_code (pos (vkey2hidcode code)) ≡ true)

not_key : (code : ℕ) → is_key_code (pos code) ≡ true → code ≡ 0 → ⊥
not_key code v e =
    let bad : is_key_code (pos code) ≡ false = ap (λ n. is_key_code (pos n)) e ∙ zero_is_no_key in
    ground (arith, bad)

-- For a Windows code from 0 on that is above 222, or for which VKEY2HIDCODE has no accepted code,
-- M_KeyDown2, M_KeyUp2 and M_KeyState2 are each refused with -1 and without any effect; for every
-- other one each does what its namesake does with the code in the table.
pub by_vkey_lem :
    (h : Host) (code : ℕ) (w : World)
    → (¬ HasKey code
        × (m_key_down2 h live (pos code) w ≡ done minus_one w)
        × (m_key_up2 h live (pos code) w ≡ done minus_one w)
        × (m_key_state2 live (pos code) w ≡ done minus_one w))
      ⊎ (HasKey code
          × (m_key_down2 h live (pos code) w ≡ m_key_down h live (pos (vkey2hidcode code)) w)
          × (m_key_up2 h live (pos code) w ≡ m_key_up h live (pos (vkey2hidcode code)) w)
          × (m_key_state2 live (pos code) w ≡ m_key_state live (pos (vkey2hidcode code)) w))
unfolding m_key_down2 m_key_up2 m_key_state2
by_vkey_lem h code w = elim (Bool-cases (ltb 222 code)) [
  | inl off ↦ inl (λ k. omega (tests, off, k.0), rw off refl, rw off refl, rw off refl)
  | inr fits ↦ elim (vkey2hidcode-cases code (omega tests)) [
    | inl none_there ↦
        let (down, up, state) = bad_code_refused h (pos 0) w zero_is_no_key in
        inl (
          λ k. not_key (vkey2hidcode code) k.1 none_there,
          rw (fits, none_there) down,
          rw (fits, none_there) up,
          rw (fits, none_there) state,
        )
    | inr key ↦ inr ((omega tests, key), rw fits refl, rw fits refl, rw fits refl)
  ]
]
