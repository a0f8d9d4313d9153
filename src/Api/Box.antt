-- ===== src/Api/Box.antt =====
-- The box at the other end of the wire and the screen of its system: what it takes to be down and
-- where the pointer is after the reports that it got, read from the layout of the reports.
use msdk_linux.Base.{
  ℕ, List, length, ◌∷◌, Bool, ◌≤◌, if◌then◌else◌, ◌≡◌, [], leb, refl, ◌&&◌, ◌+◌, ◌==◌, inl, get_or,
  drop, inr, true, arith, ◌<◌, false, ap, ltb, ℤ, pos, ◌+ℤ◌, signed_char, ◌∙◌, int_laws, le→ltb,
}
use msdk_linux.Mouse.Calls.{mouse_report}
use msdk_linux.Keyboard.Held.{IsKeys, last_index}
use msdk_linux.Keyboard.Calls.{key_places, Tells}
use msdk_linux.Absolute.Scale.{read_x, read_y}
use msdk_linux.Move.Pointer.{clamp}

-- What is down, a bit for each modifier, the other keys, and a bit for each button; and the pixel
-- of the pointer.
pub record Down : Type 0 where
  pub mods : ℕ
  pub keys : List ℕ
  pub buttons : ℕ
  pub spot_x : ℕ
  pub spot_y : ℕ

-- The screen: the pixel in its last column and row, and the one that the pointer starts from.
-- `column` and `row` are the pixel that its system makes of the two numbers, from 0 to 0x7FFF, in a
-- report with a place: nothing is assumed of them, as msdk/msdk.h says that some come out wrong.
pub record Screen : Type 0 where
  pub last_x : ℕ
  pub last_y : ℕ
  pub start_x : ℕ
  pub start_y : ℕ
  pub on_x : start_x ≤ last_x
  pub on_y : start_y ≤ last_y
  pub column : ℕ → ℕ
  pub row : ℕ → ℕ

abbrev pub at_spot : ℕ → ℕ → Down → Down
at_spot x y d = record d { spot_x = x; spot_y = y }

abbrev pub nothing_at : ℕ → ℕ → Down
nothing_at x y = record { mods = 0; keys = []; buttons = 0; spot_x = x; spot_y = y }

-- The pointer moves by two signed bytes, and stays on the screen.
abbrev pub shift : Screen → ℕ → ℕ → Down → Down
shift scr dx dy d =
    at_spot (clamp scr.last_x (pos d.spot_x +ℤ signed_char dx))
      (clamp scr.last_y (pos d.spot_y +ℤ signed_char dy)) d

-- It goes to the pixel that the system makes of two numbers, and stays on the screen.
abbrev pub at_most : ℕ → ℕ → ℕ
at_most last n = if ltb last n then last else n

abbrev pub place : Screen → List ℕ → Down → Down
place scr report d =
    at_spot (at_most scr.last_x (scr.column (read_x report)))
      (at_most scr.last_y (scr.row (read_y report))) d

-- The places of the keys that are in use.
abbrev pub in_use : List ℕ → List ℕ
in_use [] = []
in_use (k ∷ ks) = if k == 0 then in_use ks else k ∷ in_use ks

abbrev pub is_kb_header : ℕ → Bool
is_kb_header b = leb 0x83 b && leb b 0x88

-- A report of the keyboard begins with 0x83 to 0x88, or is the byte 0 alone; one of the mouse begins
-- with 4, and one with a place for the pointer with 6. Any other command leaves everything as it is.
unfoldable pub read_report : Screen → List ℕ → Down → Down
read_report scr [] d = d
read_report scr (b ∷ bytes) d =
    if b == 0
    then record d { mods = 0; keys = [] }
    else if is_kb_header b
    then record d { mods = get_or bytes 0 0; keys = in_use (drop 2 bytes) }
    else if b == 4
    then shift scr (get_or bytes 1 0) (get_or bytes 2 0) (record d { buttons = get_or bytes 0 0 })
    else if b == 6
    then place scr (b ∷ bytes) d
    else d

-- The latest report stands first.
unfoldable pub reads : Screen → List (List ℕ) → Down
unfolding read_report
reads scr [] = nothing_at scr.start_x scr.start_y
reads scr (report ∷ reports) = read_report scr report (reads scr reports)

not_zero : (k : ℕ) → 0 < k → (k == 0) ≡ false
not_zero k p = ground arith

in_use_all : (ks : List ℕ) → IsKeys ks → in_use ks ≡ ks
in_use_all [] keys = refl
in_use_all (k ∷ ks) keys = rw (not_zero k keys.0, in_use_all ks keys.2)

in_use_places : (ks : List ℕ) → IsKeys ks → in_use (key_places ks) ≡ ks
in_use_places [] keys = refl
in_use_places (k ∷ ks) keys = in_use_all (k ∷ ks) keys

last_index-header : (ks : List ℕ) → length ks ≤ 6 → is_kb_header (0x80 + last_index ks) ≡ true
last_index-header [] few = refl
last_index-header (k ∷ ks) few = ground arith

-- What a report of the keyboard tells is what the box reads from it.
pub reads-Tells :
    (scr : Screen) (command : List ℕ) (mods : ℕ) (ks : List ℕ) (d : Down)
    → length ks ≤ 6
    → IsKeys ks
    → Tells command mods ks
    → read_report scr command d ≡ record d { mods = mods; keys = ks }
unfolding read_report
reads-Tells scr command mods ks d few keys (inl (e, m, n)) = rw (e, m, n) refl
reads-Tells scr command mods ks d few keys (inr e) = rw e (
    rw
      (
        not_zero (0x80 + last_index ks) (omega arith),
        last_index-header ks few,
        in_use_places ks keys,
      )
      refl)

pub reads-mouse_report :
    (scr : Screen) (buttons dx dy wheel : ℕ) (d : Down)
    → read_report scr (mouse_report buttons dx dy wheel) d
      ≡ shift scr dx dy (record d { buttons = buttons })
unfolding read_report
reads-mouse_report scr buttons dx dy wheel d = refl

-- One report more, and what the box took the others to say.
pub reads_next :
    (scr : Screen) (report : List ℕ) (reports : List (List ℕ)) (told : Down)
    → reads scr reports ≡ told
    → reads scr (report ∷ reports) ≡ read_report scr report told
unfolding reads
reads_next scr report reports told e = ap (read_report scr report) e

-- The pointer is on the screen.
abbrev pub IsOn : Screen → Down → Type 0
IsOn scr d = (d.spot_x ≤ scr.last_x) × (d.spot_y ≤ scr.last_y)

clamp-on : (last : ℕ) (x : ℤ) → clamp last x ≤ last
clamp-on last x = ground arith

at_most-on : (last n : ℕ) → at_most last n ≤ last
at_most-on last n = ground arith

IsOn-if :
    (scr : Screen) (b : Bool) (d d' : Down)
    → IsOn scr d
    → IsOn scr d'
    → IsOn scr (if b then d else d')
IsOn-if scr true d d' on on' = on
IsOn-if scr false d d' on on' = on'

read_report-IsOn :
    (scr : Screen) (report : List ℕ) (d : Down) → IsOn scr d → IsOn scr (read_report scr report d)
unfolding read_report
read_report-IsOn scr [] d on = on
read_report-IsOn scr (b ∷ bytes) d on =
    let released : Down = record d { mods = 0; keys = [] } in
    let typed : Down = record d { mods = get_or bytes 0 0; keys = in_use (drop 2 bytes) } in
    let clicked : Down = record d { buttons = get_or bytes 0 0 } in
    let dx : ℕ = get_or bytes 1 0 in
    let dy : ℕ = get_or bytes 2 0 in
    let placed : Down = if b == 6 then place scr (b ∷ bytes) d else d in
    let moved : Down = if b == 4 then shift scr dx dy clicked else placed in
    IsOn-if scr (b == 0) released (if is_kb_header b then typed else moved) on (
      IsOn-if scr (is_kb_header b) typed moved on (
        IsOn-if scr (b == 4) (shift scr dx dy clicked) placed
          (
            clamp-on scr.last_x (pos d.spot_x +ℤ signed_char dx),
            clamp-on scr.last_y (pos d.spot_y +ℤ signed_char dy),
          )
          (IsOn-if scr (b == 6) (place scr (b ∷ bytes) d) d
            (
              at_most-on scr.last_x (scr.column (read_x (b ∷ bytes))),
              at_most-on scr.last_y (scr.row (read_y (b ∷ bytes))),
            )
            on)))

pub reads-IsOn : (scr : Screen) (reports : List (List ℕ)) → IsOn scr (reads scr reports)
unfolding reads
reads-IsOn scr [] = (scr.on_x, scr.on_y)
reads-IsOn scr (report ∷ reports) =
    read_report-IsOn scr report (reads scr reports) (reads-IsOn scr reports)

clamp-within_pos : (last : ℕ) (x : ℤ) (p : ℕ) → x ≡ pos p → p ≤ last → clamp last x ≡ p
clamp-within_pos last x p e on = rw e (rw (le→ltb last p on) refl)

clamp-still : (last p : ℕ) → p ≤ last → clamp last (pos p +ℤ signed_char 0) ≡ p
clamp-still last p on = clamp-within_pos last (pos p +ℤ pos 0) p (omega int_laws) on

-- A report of the mouse without a movement leaves it there.
pub shift-still : (scr : Screen) (d : Down) → IsOn scr d → shift scr 0 0 d ≡ d
shift-still scr d (on_x, on_y) =
    ap (λ x. at_spot x (clamp scr.last_y (pos d.spot_y +ℤ signed_char 0)) d)
      (clamp-still scr.last_x d.spot_x on_x)
    ∙ ap (λ y. at_spot d.spot_x y d) (clamp-still scr.last_y d.spot_y on_y)
