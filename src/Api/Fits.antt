-- ===== src/Api/Fits.antt =====
-- What is asked of the calls for the kept position to stay with the pointer.
use msdk_linux.Base.{ℕ, List, ◌≡◌, ℤ, abs, ◌≤◌, ◌*◌, ◌+ℤ◌, ◌≤ℤ◌, pos, negsuc, suc, ◌-ℤ◌}
use msdk_linux.Api.Box.{Screen}
use msdk_linux.Api.Spots.{IsExact}
use msdk_linux.Api.Runs.{Runs, begun, asked}
use msdk_linux.Machine.{Host, World}
use msdk_linux.Api.Requests.{Request, move_r, move_to, move_to3}
use msdk_linux.Curve.{Floats}

-- A place that the pointer can be sent to; coordinates below 0 are refused.
abbrev pub Pixel : (ℕ → ℕ → Type 0) → ℤ → ℤ → Type 0
Pixel P (pos a) (pos b) = P a b
Pixel P (pos a) (negsuc m) = Unit
Pixel P (negsuc n) y = Unit

-- What is asked of a call with the result `r`, made in `w`, on the screen and with patience for more
-- than `n` rounds. A relative movement from a known position does not go past the right or the bottom
-- edge; an absolute one goes to a pixel of the screen; one along a curve goes to a pixel that the
-- other system reaches without an error, is made with the resolution of the screen, and does not fail
-- from a known position. Nothing is asked of the other calls.
abbrev pub Fits : Screen → ℕ → Request → ℤ → World → Type 0
Fits scr n (move_r x y) r w =
    (abs x ≤ 100 * n)
    × (abs y ≤ 100 * n)
    × (w.udev.mouse_1st_movto ≡ 1 → w.udev.curr_mouse_abs_pos_x +ℤ x ≤ℤ pos scr.last_x)
    × (w.udev.mouse_1st_movto ≡ 1 → w.udev.curr_mouse_abs_pos_y +ℤ y ≤ℤ pos scr.last_y)
Fits scr n (move_to x y) r w = Pixel (λ a b. (a ≤ scr.last_x) × (b ≤ scr.last_y)) x y
Fits scr n (move_to3 x y) r w =
    Pixel
      (λ a b.
        (a ≤ scr.last_x)
        × (b ≤ scr.last_y)
        × IsExact scr a b
        × (w.udev.cx ≡ pos (suc scr.last_x))
        × (w.udev.cy ≡ pos (suc scr.last_y))
        × (w.udev.mouse_1st_movto ≡ 1 → abs (pos a -ℤ w.udev.curr_mouse_abs_pos_x) ≤ 50 * n)
        × (w.udev.mouse_1st_movto ≡ 1 → abs (pos b -ℤ w.udev.curr_mouse_abs_pos_y) ≤ 50 * n)
        × (w.udev.mouse_1st_movto ≡ 1 → r ≡ pos 0))
      x y
Fits scr n other r w = Unit

-- Each of the calls is one of those.
abbrev pub AllFit :
    (scr : Screen) (n : ℕ) (h : Host) (fl : Floats) (w : World) (asks : List Request) (w' : World)
    → Runs h fl w asks w'
    → Type 0
AllFit scr n h fl w _ _ begun = Unit
AllFit scr n h fl w _ _ (asked {asks = asks} {w1 = w1} ask r w2 runs e) =
    AllFit scr n h fl w asks w1 runs × Fits scr n ask r w1
