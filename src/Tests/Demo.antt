-- ===== src/Tests/Demo.antt =====
-- The demonstration program on the device of Tests/Setup.
use msdk_linux.Base.{pos, arith, ◌≡◌, true, refl}
use msdk_linux.Curve.{Floats}
use msdk_linux.Curve.Draw.{IsInt}
use msdk_linux.Machine.Ends.{Returns}
use msdk_linux.Demo.{demo}
use msdk_linux.Tests.Setup.{box, start, box-IsPrompt, start-on_wire}
use msdk_linux.Demo.Whole.{demo-Returns}
use msdk_linux.Tests.Session.{claimed, opens}

abbrev flat : Floats
flat = record { rounded_root = λ x y. pos 1000; bent = λ cur dest c d. d }

flat-IsInt : IsInt flat
flat-IsInt = record { root = λ x y. omega arith }

demo-Returns_example : Returns (demo box flat start) (λ r w'. r ≡ pos 0)
demo-Returns_example =
    demo-Returns box flat 7 true start claimed box-IsPrompt flat-IsInt (omega arith) opens refl
      start-on_wire
