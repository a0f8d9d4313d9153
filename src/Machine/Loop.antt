-- ===== src/Machine/Loop.antt =====
-- The loop `while (Nbr) { ... Nbr--; }` that the click and the press functions share.
pub mod Rule
use msdk_linux.Base.{ℕ, ℤ, suc, ◌-ℤ◌, pos, if◌then◌else◌, eqb_ℤ, minus_one, zero, negsuc}
use msdk_linux.Machine.State.{Prog}
use msdk_linux.Machine.{give_up, return, ◌>>=◌, ◌>>◌, undefined_here}

-- The least `int`.
abbrev pub least_int : ℤ
least_int = negsuc 0x7FFFFFFF

-- `body` answers 0 if it went well, and any other answer ends the loop with -1. `pause` is what
-- is done between two rounds. A negative `nbr` is counted down further, away from 0, until `Nbr--`
-- would leave the range of an `int`, which is undefined.
unfoldable pub repeat_nbr : ℕ → Prog ℤ → Prog (Unit {0}) → ℤ → Prog ℤ
repeat_nbr zero body pause nbr = give_up
repeat_nbr (suc f) body pause nbr =
    let rest = repeat_nbr f body pause (nbr -ℤ pos 1) in
    if eqb_ℤ nbr (pos 0) then return (pos 0) else do
      r ← body
      if eqb_ℤ r (pos 0)
          then (if eqb_ℤ nbr least_int
              then undefined_here
              else (if eqb_ℤ (nbr -ℤ pos 1) (pos 0) then rest else (pause >> rest)))
          else return minus_one
