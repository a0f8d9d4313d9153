-- ===== src/Api/Spots.antt =====
-- Where the box takes the pointer to be after the reports of a movement, and of a place.
use msdk_linux.Base.{
  ℕ, List, ◌++◌, ◌≡◌, ◌≤◌, Bool, ◌∷◌, le→ltb, refl, pos, ap, suc, ◌∙◌, ◌+ℤ◌, sym, signed_char,
  get_or, [],
}
use msdk_linux.Api.Box.{
  Screen, reads, read_report, Down, place, at_most, IsOn, at_spot, reads-IsOn, reads_next,
}
use msdk_linux.Move.Round.{IsMoves}
use msdk_linux.Machine.{Device, World}
use msdk_linux.Move.Pointer.{pointer, clamp}
use msdk_linux.Absolute.{absolute_command}
use msdk_linux.Api.Agrees.{Stands}
use msdk_linux.Hid.Wire.{handed_over, at_rest}
use mathlib.Core.Path.{subst, sym}
use msdk_linux.Absolute.Scale.{read_y, read_x}
use msdk_linux.Api.Places.{reads-absolute_command}

-- A screen on which a movement of -3000 reaches the corner.
pub record IsUsual (scr : Screen) : Type 0 where
  pub narrow : scr.last_x ≤ 3000
  pub low : scr.last_y ≤ 3000

-- A pixel that the system at the other end takes the pointer to, from the report for it, without an
-- error.
abbrev pub IsExact : Screen → ℕ → ℕ → Type 0
IsExact scr a b =
    let report = absolute_command (pos (suc scr.last_x)) (pos (suc scr.last_y)) (pos a) (pos b) in
    (scr.column (read_x report) ≡ a) × (scr.row (read_y report) ≡ b)

-- The reports of a movement take it where `pointer` says.
reads-moves :
    (scr : Screen) (buttons : ℕ) (reports cs : List (List ℕ))
    → IsMoves buttons reports
    → ((reads scr (reports ++ cs)).spot_x ≡ pointer scr.last_x 2 reports (reads scr cs).spot_x)
      × ((reads scr (reports ++ cs)).spot_y ≡ pointer scr.last_y 3 reports (reads scr cs).spot_y)
unfolding reads
reads-moves scr buttons [] cs moves = (refl, refl)
reads-moves scr buttons (report ∷ reports) cs ((dx, dy, e), moves) =
    let (x, y) = reads-moves scr buttons reports cs moves in
    let before : Down = reads scr (reports ++ cs) in
    (
      ap (λ r. (read_report scr r before).spot_x) e
          ∙ ap (λ p. clamp scr.last_x (pos p +ℤ signed_char dx)) x
          ∙ ap
              (λ r. clamp scr.last_x (
                pos (pointer scr.last_x 2 reports (reads scr cs).spot_x)
                +ℤ signed_char (get_or r 2 0)))
              (sym e),
      ap (λ r. (read_report scr r before).spot_y) e
          ∙ ap (λ p. clamp scr.last_y (pos p +ℤ signed_char dy)) y
          ∙ ap
              (λ r. clamp scr.last_y (
                pos (pointer scr.last_y 3 reports (reads scr cs).spot_y)
                +ℤ signed_char (get_or r 3 0)))
              (sym e),
    )

at_most_same : (last n m : ℕ) → n ≡ m → m ≤ last → at_most last n ≡ m
at_most_same last n m e on = rw e (rw (le→ltb last m on) refl)

-- The report for such a pixel of the screen takes it there.
pub place-pixel :
    (scr : Screen) (a b : ℕ) (d : Down)
    → IsExact scr a b
    → a ≤ scr.last_x
    → b ≤ scr.last_y
    → place scr (absolute_command (pos (suc scr.last_x)) (pos (suc scr.last_y)) (pos a) (pos b)) d
      ≡ at_spot a b d
place-pixel scr a b d (at_x, at_y) on_x on_y =
    let report = absolute_command (pos (suc scr.last_x)) (pos (suc scr.last_y)) (pos a) (pos b) in
    ap (λ x. at_spot x (at_most scr.last_y (scr.row (read_y report))) d)
      (at_most_same scr.last_x (scr.column (read_x report)) a at_x on_x)
    ∙ ap (λ y. at_spot a y d) (at_most_same scr.last_y (scr.row (read_y report)) b at_y on_y)

module _ (scr : Screen) (dev : Device) (ok : Bool) where
  pub Stands-IsOn : (d : Down) (w : World) → Stands scr dev ok d w → IsOn scr d
  Stands-IsOn d w s = subst (IsOn scr) s.reading (reads-IsOn scr s.reports)

  module _ (d d' : Down) (w w' : World) (s : Stands scr dev ok d w)
      (s' : Stands scr dev ok d' w') where
    -- The reports that the state after is made of.
    same_reports :
        (css : List (List ℕ)) → handed_over w'.calls ≡ at_rest css ok → reads scr css ≡ d'
    same_reports css sent = ap (λ x. reads scr x.commands) (sym sent ∙ s'.on_wire) ∙ s'.reading

    -- After the reports of a movement.
    pub moved-spot :
        (buttons : ℕ) (reports : List (List ℕ))
        → IsMoves buttons reports
        → handed_over w'.calls ≡ at_rest (reports ++ s.reports) ok
        → (pointer scr.last_x 2 reports d.spot_x ≡ d'.spot_x)
          × (pointer scr.last_y 3 reports d.spot_y ≡ d'.spot_y)
    moved-spot buttons reports moves sent =
        let (x, y) = reads-moves scr buttons reports s.reports moves in
        let now = same_reports (reports ++ s.reports) sent in
        (
          ap (λ b. pointer scr.last_x 2 reports b.spot_x) (sym s.reading)
              ∙ sym x
              ∙ ap (λ b. b.spot_x) now,
          ap (λ b. pointer scr.last_y 3 reports b.spot_y) (sym s.reading)
              ∙ sym y
              ∙ ap (λ b. b.spot_y) now,
        )

    -- After a report for a pixel.
    pub placed-spot :
        (a b : ℕ) (earlier : List (List ℕ))
        → IsExact scr a b
        → a ≤ scr.last_x
        → b ≤ scr.last_y
        → handed_over w'.calls
          ≡ at_rest
              (absolute_command (pos (suc scr.last_x)) (pos (suc scr.last_y)) (pos a) (pos b)
                ∷ earlier)
              ok
        → (a ≡ d'.spot_x) × (b ≡ d'.spot_y)
    placed-spot a b earlier exact on_x on_y sent =
        let report =
          absolute_command (pos (suc scr.last_x)) (pos (suc scr.last_y)) (pos a) (pos b) in
        let now : at_spot a b (reads scr earlier) ≡ d' =
          sym (place-pixel scr a b (reads scr earlier) exact on_x on_y)
          ∙ sym (
              reads-absolute_command scr (pos (suc scr.last_x)) (pos (suc scr.last_y)) (pos a)
                (pos b) (reads scr earlier))
          ∙ sym (reads_next scr report earlier (reads scr earlier) refl)
          ∙ same_reports (report ∷ earlier) sent in
        (ap (λ x. x.spot_x) now, ap (λ x. x.spot_y) now)
