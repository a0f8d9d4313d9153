-- ===== src/Tests/Setup.antt =====
-- A device that acknowledges every command with the status word 1, and a fresh record.
use msdk_linux.Base.{◌*◌, ◌/◌, ℕ, pos, refl, ◌≡◌, some, [], arith, inr, inl, true, get_or, ◌∷◌}
use msdk_linux.Machine.{History, World, Host, IsPrompt}
use msdk_linux.Keyboard.State.{HasDown}
use msdk_linux.Keyboard.Calls.{KbState}
use msdk_linux.Hid.Wire.{AllTaken, AllTaken-always, handed_over, at_rest}
use msdk_linux.Mouse.Calls.{MouseState}
use msdk_linux.Session.{new_udev}
use msdk_linux.Api.Agrees.{IsPlaced, kept_of}
use msdk_linux.Api.Box.{Screen}

-- A screen of 1920 by 1080 pixels, whose system scales the numbers of a place down and leaves the
-- rest out; the pointer starts from (300, 200).
abbrev pub screen : Screen
screen = record {
  last_x = 1919;
  last_y = 1079;
  start_x = 300;
  start_y = 200;
  on_x = omega arith;
  on_y = omega arith;
  column = λ n. n * 1920 / 32767;
  row = λ n. n * 1080 / 32767;
}

-- The payload are two bytes, 0 and 1.
abbrev pub answer : ℕ → ℕ
answer n = get_or (0 ∷ 0 ∷ 0 ∷ 2 ∷ 0 ∷ 1 ∷ []) n 0

abbrev pub box : Host
box = record {
  init = λ c. pos 0;
  device = λ c. some 7;
  driver_active = λ c. pos 1;
  detach = λ c. pos 0;
  claim = λ c. pos 0;
  answer_out = λ c. pos 64;
  answer_in = λ c. (pos 64, answer);
  allocates = λ c. some tt;
  random = λ c. 30;
  patience = 40;
}

abbrev pub start : World
start = record { calls = []; udev = new_udev 7 }

pub box-IsPrompt : IsPrompt box
box-IsPrompt = record {
  waits = omega arith;
  answers = λ c. inr ((λ e. absurd (omega arith)), refl, omega arith);
}

pub start-on_wire : handed_over start.calls ≡ at_rest [] true
unfolding handed_over
start-on_wire = refl

pub start-HasDown : HasDown start.udev.curr_kb_op 0 []
start-HasDown = record {
  shows = inl (refl, refl, refl);
  few = omega arith;
  keys = tt;
  byte_mods = omega arith;
}

pub start-KbState : KbState 7 0 [] [] true start
start-KbState = record { device = refl; down = start-HasDown; on_wire = start-on_wire }

pub start-MouseState : MouseState 7 0 [] true start
start-MouseState = record { device = refl; first = 0; op = refl; on_wire = start-on_wire }

-- The same record, with a resolution.
abbrev pub sized : World
sized = record start { udev = record start.udev { cx = pos 1920; cy = pos 1080 } }

pub start-IsPlaced : IsPlaced (kept_of start.udev) start.udev
start-IsPlaced = record {
  kept = refl;
  flag = inl refl;
  x_nonneg = omega arith;
  y_nonneg = omega arith;
}

-- Every transfer goes through.
pub box-taken : (c : History) → AllTaken box c
box-taken = AllTaken-always box (λ c. refl)
