-- ===== src/KeyCode/Vkey.antt =====
-- msdk/AjjlKeyName.h: `VKEY2HIDCODE`, from Windows key codes to HID usage codes; 0 is "none".
use msdk_linux.Base.{ℕ, List, [], ◌∷◌, ◌++◌, get_or}

-- Key codes 0 to 111.
pub vkey2hidcode_low : List ℕ
vkey2hidcode_low =
    0 ∷ 0 ∷ 0 ∷ 0 ∷ 0 ∷ 0 ∷ 0 ∷ 0 ∷ 42 ∷ 43 ∷ 0 ∷ 0 ∷ 0 ∷ 40 ∷ 0 ∷ 0 ∷ 225 ∷ 224 ∷ 226 ∷ 72 ∷ 57 ∷ 0
    ∷ 0 ∷ 0 ∷ 0 ∷ 0 ∷ 0 ∷ 41 ∷ 0 ∷ 0 ∷ 0 ∷ 0 ∷ 44 ∷ 75 ∷ 78 ∷ 77 ∷ 74 ∷ 80 ∷ 82 ∷ 79 ∷ 81 ∷ 0 ∷ 0
    ∷ 0 ∷ 70 ∷ 73 ∷ 76 ∷ 0 ∷ 39 ∷ 30 ∷ 31 ∷ 32 ∷ 33 ∷ 34 ∷ 35 ∷ 36 ∷ 37 ∷ 38 ∷ 0 ∷ 0 ∷ 0 ∷ 0 ∷ 0 ∷ 0
    ∷ 0 ∷ 4 ∷ 5 ∷ 6 ∷ 7 ∷ 8 ∷ 9 ∷ 10 ∷ 11 ∷ 12 ∷ 13 ∷ 14 ∷ 15 ∷ 16 ∷ 17 ∷ 18 ∷ 19 ∷ 20 ∷ 21 ∷ 22
    ∷ 23 ∷ 24 ∷ 25 ∷ 26 ∷ 27 ∷ 28 ∷ 29 ∷ 227 ∷ 231 ∷ 0 ∷ 0 ∷ 0 ∷ 98 ∷ 89 ∷ 90 ∷ 91 ∷ 92 ∷ 93 ∷ 94
    ∷ 95 ∷ 96 ∷ 97 ∷ 85 ∷ 87 ∷ 88 ∷ 86 ∷ 99 ∷ 84 ∷ []

-- Key codes 112 to 222.
pub vkey2hidcode_high : List ℕ
vkey2hidcode_high =
    58 ∷ 59 ∷ 60 ∷ 61 ∷ 62 ∷ 63 ∷ 64 ∷ 65 ∷ 66 ∷ 67 ∷ 68 ∷ 69 ∷ 0 ∷ 0 ∷ 0 ∷ 0 ∷ 0 ∷ 0 ∷ 0 ∷ 0 ∷ 0
    ∷ 0 ∷ 0 ∷ 0 ∷ 0 ∷ 0 ∷ 0 ∷ 0 ∷ 0 ∷ 0 ∷ 0 ∷ 0 ∷ 83 ∷ 71 ∷ 0 ∷ 0 ∷ 0 ∷ 0 ∷ 0 ∷ 0 ∷ 0 ∷ 0 ∷ 0 ∷ 0
    ∷ 0 ∷ 0 ∷ 0 ∷ 0 ∷ 225 ∷ 229 ∷ 224 ∷ 228 ∷ 226 ∷ 230 ∷ 0 ∷ 0 ∷ 0 ∷ 0 ∷ 0 ∷ 0 ∷ 0 ∷ 0 ∷ 0 ∷ 0 ∷ 0
    ∷ 0 ∷ 0 ∷ 0 ∷ 0 ∷ 0 ∷ 0 ∷ 0 ∷ 0 ∷ 0 ∷ 51 ∷ 46 ∷ 54 ∷ 45 ∷ 55 ∷ 56 ∷ 53 ∷ 0 ∷ 0 ∷ 0 ∷ 0 ∷ 0 ∷ 0
    ∷ 0 ∷ 0 ∷ 0 ∷ 0 ∷ 0 ∷ 0 ∷ 0 ∷ 0 ∷ 0 ∷ 0 ∷ 0 ∷ 0 ∷ 0 ∷ 0 ∷ 0 ∷ 0 ∷ 0 ∷ 0 ∷ 0 ∷ 0 ∷ 47 ∷ 49 ∷ 48
    ∷ 52 ∷ []

-- `VKEY2HIDCODE[code]`; the array has 256 places, and those past the list are 0.
unfoldable pub vkey2hidcode : ℕ → ℕ
unfolding vkey2hidcode_low vkey2hidcode_high
vkey2hidcode code = get_or (vkey2hidcode_low ++ vkey2hidcode_high) code 0
