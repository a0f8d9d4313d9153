-- ===== src/Move/Round.antt =====
-- One round of the loop of `M_InternalMoveR` at a device that answers at once.
use msdk_linux.Base.{
  inl, inr, ℕ, ℤ, pos, ◌≡◌, ◌⊎◌, signed_char, arith, List, ◌+ℤ◌, Bool, ◌∷◌, get_or, eq_of_parts,
  +ℤ_parts, some, [], -ℤ_parts, set, minus_one, ◌++◌, ap, refl, ◌-ℤ◌, ◌∙◌,
}
use msdk_linux.Machine.{Host, Device, IsPrompt, World, Prog, ◌>>◌, modify, ◌>>=◌, rand, Udev}
use msdk_linux.Mouse.Calls.{mouse_report, OnlyMouseOp, send_mouse_op_sent}
use msdk_linux.Mouse.{set_mouse_op, send_mouse_op}
use msdk_linux.Move.Step.{Closer, move_axis_lem, distance_after, Within}
use msdk_linux.Hid.Wire.{handed_over, at_rest}
use msdk_linux.Move.{move_axis}

-- What reports bring together at `place`: 2 for the x-axis and 3 for the y-axis.
abbrev pub moved : ℕ → List (List ℕ) → ℤ
moved place [] = pos 0
moved place (report ∷ reports) = signed_char (get_or report place 0) +ℤ moved place reports

-- Reports that move the mouse and leave the buttons and the wheel as they are.
abbrev pub IsMoves : ℕ → List (List ℕ) → Type 0
IsMoves buttons [] = Unit
IsMoves buttons (report ∷ reports) =
    ((dx : ℕ) × (dy : ℕ) × (report ≡ mouse_report buttons dx dy 0)) × IsMoves buttons reports

pub IsMoves-append :
    (buttons : ℕ) (later reports : List (List ℕ))
    → IsMoves buttons later
    → IsMoves buttons reports
    → IsMoves buttons (later ++ reports)
IsMoves-append buttons [] reports moves before = before
IsMoves-append buttons (report ∷ later) reports (move, moves) before =
    (move, IsMoves-append buttons later reports moves before)

-- No report goes against `g`, or further.
abbrev pub IsSteady : ℕ → ℤ → List (List ℕ) → Type 0
IsSteady place g [] = Unit
IsSteady place g (report ∷ reports) =
    Within g (signed_char (get_or report place 0)) × IsSteady place g reports

-- The reports bring `g` together without a step back.
abbrev pub Goes : ℕ → List (List ℕ) → ℤ → Type 0
Goes place reports g = (moved place reports ≡ g) × IsSteady place g reports

-- With `reports` the movement has come to where `x` and `y` are left.
pub record OnTheWay (dev : Device) (buttons : ℕ) (cs : List (List ℕ)) (ok : Bool) (start : World)
    (goal_x goal_y x y : ℤ) (w : World) : Type 0 where
  pub device : w.udev.h_dev ≡ some dev
  pub first : ℕ
  pub dx : ℕ
  pub dy : ℕ
  pub op : w.udev.curr_mouse_op ≡ first ∷ buttons ∷ dx ∷ dy ∷ 0 ∷ []
  pub reports : List (List ℕ)
  pub moves : IsMoves buttons reports
  pub on_wire : handed_over w.calls ≡ at_rest (reports ++ cs) ok
  pub so_far_x : moved 2 reports +ℤ x ≡ goal_x
  pub so_far_y : moved 3 reports +ℤ y ≡ goal_y
  pub same : OnlyMouseOp start w
  pub way_x : Within goal_x x
  pub way_y : Within goal_y y
  pub steady_x : IsSteady 2 goal_x reports
  pub steady_y : IsSteady 3 goal_y reports

step_sum : (m x s : ℤ) → s +ℤ m +ℤ (x -ℤ s) ≡ m +ℤ x
step_sum m x s =
    eq_of_parts (s +ℤ m +ℤ (x -ℤ s)) (m +ℤ x)
      (omega (arith, +ℤ_parts m x, +ℤ_parts s m, -ℤ_parts x s, +ℤ_parts (s +ℤ m) (x -ℤ s)))

way_on : (g x s : ℤ) → Within g x → Within x s → Within g s × Within g (x -ℤ s)
way_on g x s (inl up) (inl w) = (inl (omega arith), inl (omega (arith, -ℤ_parts x s)))
way_on g x s (inl up) (inr w) = (inl (omega arith), inl (omega (arith, -ℤ_parts x s)))
way_on g x s (inr down) (inl w) = (inr (omega arith), inr (omega (arith, -ℤ_parts x s)))
way_on g x s (inr down) (inr w) = (inr (omega arith), inr (omega (arith, -ℤ_parts x s)))

module _ (h : Host) (prompt : IsPrompt h) (dev : Device) (buttons : ℕ) (cs : List (List ℕ))
    (ok : Bool) (start : World) (goal_x goal_y : ℤ) where
  abbrev At : ℤ → ℤ → World → Type 0
  At = OnTheWay dev buttons cs ok start goal_x goal_y

  -- One round up to its report, and what follows it.
  abbrev step : ℤ → ℤ → (ℤ → ℤ → ℤ → Prog ℤ) → Prog ℤ
  step x y k = do
    modify (set_mouse_op (λ op. set op 0 0x04))
    x' ← move_axis h 2 x
    y' ← move_axis h 3 y
    r ← send_mouse_op h
    k x' y' r

  pub record Stepped (x y : ℤ) (w : World) : Type 0 where
    pub x' : ℤ
    pub y' : ℤ
    pub r : ℤ
    pub w' : World
    pub returns : (k : ℤ → ℤ → ℤ → Prog ℤ) → step x y k w ≡ k x' y' r w'
    pub there : At x' y' w'
    pub closer_x : Closer x x'
    pub closer_y : Closer y y'
    pub ends : (r ≡ pos 0) ⊎ (r ≡ minus_one)

  pub step_lem : (x y : ℤ) (w : World) → At x y w → Stepped x y w
  step_lem x y w s =
      let w1 : World = record w { udev = set_mouse_op (λ op. set op 0 0x04) w.udev } in
      let (bx, ex, cx, in_x) = move_axis_lem h 2 x w1 in
      let w2 : World = record w1 {
        calls = rand ∷ w1.calls;
        udev = set_mouse_op (λ op. set op 2 bx) w1.udev;
      } in
      let (b_y, ey, cy, in_y) = move_axis_lem h 3 y w2 in
      let w3 : World = record w2 {
        calls = rand ∷ w2.calls;
        udev = set_mouse_op (λ op. set op 3 b_y) w2.udev;
      } in
      let with_op : Udev → Udev =
        λ u. record u { curr_mouse_op = set (set (set w.udev.curr_mouse_op 0 4) 2 bx) 3 b_y } in
      let is_op = ap (λ op. set (set (set op 0 4) 2 bx) 3 b_y) s.op in
      let (r, c, e, sent, ends) =
        send_mouse_op_sent h prompt dev ok (mouse_report buttons bx b_y 0) (s.reports ++ cs) w3
          s.device is_op refl (unfold handed_over in s.on_wire) in
      let (step_x, left_x) = way_on goal_x x (signed_char bx) s.way_x in_x in
      let (step_y, left_y) = way_on goal_y y (signed_char b_y) s.way_y in_y in
      record {
        x' = distance_after x bx;
        y' = distance_after y b_y;
        r = r;
        w' = record w3 { calls = c };
        returns = λ k. rw (ex, ◌>>=◌) (rw (ey, ◌>>=◌) (rw (e, ◌>>=◌)));
        there = record {
          device = s.device;
          first = 4;
          dx = bx;
          dy = b_y;
          op = is_op;
          reports = mouse_report buttons bx b_y 0 ∷ s.reports;
          moves = ((bx, b_y, refl), s.moves);
          on_wire = sent;
          so_far_x = step_sum (moved 2 s.reports) x (signed_char bx) ∙ s.so_far_x;
          so_far_y = step_sum (moved 3 s.reports) y (signed_char b_y) ∙ s.so_far_y;
          same = ap with_op s.same;
          way_x = left_x;
          way_y = left_y;
          steady_x = (step_x, s.steady_x);
          steady_y = (step_y, s.steady_y);
        };
        closer_x = cx;
        closer_y = cy;
        ends = ends;
      }
