-- ===== src/Api/Runs.antt =====
-- Any sequence of requests: what the reports that were handed over say is what the calls allow; and
-- so is what the box takes to be down, where no transfer of a report has failed.
use msdk_linux.Base.{◌⊎◌, inl, inr, ℕ, ℤ, List, [], ◌≡◌, Bool, ◌∷◌, refl, ◌∙◌, ap, sym}
use msdk_linux.Machine.{Host, World, Device, Outcome, done, IsPrompt}
use msdk_linux.Api.Box.{Down, reads, Screen, nothing_at}
use msdk_linux.Curve.{Floats}
use msdk_linux.Api.Requests.{Request, run, Effect, release_all_mouse, release_all_key}
use msdk_linux.Keyboard.Calls.{KbState}
use msdk_linux.Api.Agrees.{IsPlaced, Stands, kept_of, restand, still}
use msdk_linux.Mouse.Calls.{MouseState}
use msdk_linux.Machine.Ends.{Ensures}
use msdk_linux.Api.Answers.{run-Ends}
use mathlib.Core.Path.{subst, ap, sym}
use msdk_linux.Hid.Wire.{at_rest, received, AllTaken, received-handed_over, AllTaken-cases}

-- `Runs h fl w asks w'`: the requests, the latest first, were made one after the other from `w`, each
-- returned, and `w'` is the state after them.
pub data Runs (h : Host) (fl : Floats) (w : World) : List Request → World → Type 0 where
  begun : Runs h fl w [] w
  asked :
      {asks : List Request} {w1 : World} (ask : Request) (r : ℤ) (w2 : World)
      → Runs h fl w asks w1
      → run h fl ask w1 ≡ done r w2
      → Runs h fl w (ask ∷ asks) w2

-- What the requests may leave down, one after the other.
abbrev pub Effects : List Request → Down → Down → Type 0
Effects [] d d' = d' ≡ d
Effects (ask ∷ asks) d d' = (d1 : Down) × Effects asks d d1 × Effect ask d1 d'

pub ended :
    (P : ℤ → World → Type 0) (o : Outcome ℤ) (r : ℤ) (w : World)
    → o ≡ done r w
    → Ensures o P
    → P r w
ended P o r w e p = rw e at p

-- A record that is new, with nothing on the wire, and the box agree that nothing is down; the
-- pointer is where it started.
pub new-Stands :
    (scr : Screen) (dev : Device) (ok : Bool) (w : World)
    → KbState dev 0 [] [] ok w
    → MouseState dev 0 [] ok w
    → IsPlaced (kept_of w.udev) w.udev
    → Stands scr dev ok (nothing_at scr.start_x scr.start_y) w
unfolding reads
new-Stands scr dev ok w kb mouse place = record {
  device = kb.device;
  kb = kb.down;
  mouse = record { first = mouse.first; bytes = mouse.op };
  reports = [];
  on_wire = kb.on_wire;
  reading = refl;
  place = place;
}

-- From the reports that the box has got it takes this to be down, and the pointer to be there.
abbrev pub Got : Screen → Bool → Host → Down → World → Type 0
Got scr ok h d w =
    (reports : List (List ℕ)) × (received h w.calls ≡ at_rest reports ok) × (reads scr reports ≡ d)

module _ {scr : Screen} {dev : Device} {ok : Bool} where
  pub Stands-Got :
      (h : Host) (d : Down) (w : World)
      → Stands scr dev ok d w
      → AllTaken h w.calls
      → Got scr ok h d w
  Stands-Got h d w s taken =
      (s.reports, received-handed_over h w.calls taken ∙ s.on_wire, s.reading)

  pub Stands-cases :
      (h : Host) (d : Down) (w : World)
      → Stands scr dev ok d w
      → Got scr ok h d w ⊎ ¬ AllTaken h w.calls
  Stands-cases h d w s = elim (AllTaken-cases h w.calls) [
    | inl taken ↦ inl (Stands-Got h d w s taken)
    | inr failed ↦ inr failed
  ]

module _ (h : Host) (fl : Floats) (scr : Screen) (dev : Device) (ok : Bool) (w : World)
    (prompt : IsPrompt h) where
  -- What the reports that were handed over say, and what the record shows, stay the same.
  pub Runs-Stands :
      (asks : List Request) (w' : World) (d : Down)
      → Stands scr dev ok d w
      → Runs h fl w asks w'
      → (d' : Down) × Effects asks d d' × Stands scr dev ok d' w'
  Runs-Stands _ _ d s begun = (d, refl, s)
  Runs-Stands _ _ d s (asked {w1 = w1} ask r w2 runs e) =
      let (d1, before, s1) = Runs-Stands _ _ d s runs in
      let (k, d2, kept, effect, s2) =
        ended _ _ r w2 e (run-Ends scr dev ok h prompt fl (kept_of w1.udev) d1 ask w1 s1) in
      (d2, (d1, before, effect), restand scr dev ok k still d2 d2 w2 s2)

  -- At a device that answers at once, after any sequence of calls that ends with M_ReleaseAllKey
  -- and M_ReleaseAllMouse and in which no transfer of a report has failed, whatever the calls
  -- answered, the record shows that nothing is down and the box takes nothing to be down from the
  -- reports that it has got.
  pub Runs-released :
      (asks : List Request) (w' : World) (d : Down)
      → Stands scr dev ok d w
      → Runs h fl w (release_all_mouse ∷ release_all_key ∷ asks) w'
      → AllTaken h w'.calls
      → (x : ℕ) × (y : ℕ) × Stands scr dev ok (nothing_at x y) w' × Got scr ok h (nothing_at x y) w'
  unfolding Effect
  Runs-released asks w' d s runs taken =
      let (d', (d2, (d1, before, keys), buttons), s') = Runs-Stands _ w' d s runs in
      let up = buttons ∙ ap {A = Down} (λ x. record x { buttons = 0 }) keys in
      (
        d1.spot_x,
        d1.spot_y,
        subst (λ x. Stands scr dev ok x w') up s',
        subst (λ x. Got scr ok h x w') up (Stands-Got h d' w' s' taken),
      )
