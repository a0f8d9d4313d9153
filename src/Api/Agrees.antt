-- ===== src/Api/Agrees.antt =====
-- The record and the reports that were handed over, whether their transfers failed or not, agree on
-- what is down; and what sends a report keeps it so. Of a box that gets every report this is its
-- agreement with the record.
use msdk_linux.Base.{
  ℕ, List, ◌≡◌, Bool, ◌∷◌, [], get_or, some, ◌∙◌, sym, ap, refl, ℤ, ◌⊎◌, pos, ◌≤ℤ◌,
}
use msdk_linux.Machine.{Device, Host, World, IsPrompt, Udev}
use msdk_linux.Api.Box.{
  Down, reads, reads-Tells, reads-mouse_report, reads_next, Screen, IsOn, shift, reads-IsOn,
  shift-still,
}
use msdk_linux.Hid.Wire.{handed_over, at_rest}
use msdk_linux.Machine.Ends.{Ensures, Returns-done, Ensures-mono}
use msdk_linux.Keyboard.State.{HasDown}
use msdk_linux.Mouse.{set_mouse_op, send_mouse_op}
use msdk_linux.Keyboard.{set_kb_op, send_kb_op}
use mathlib.Core.Path.{subst, sym, ap}
use msdk_linux.Keyboard.Calls.{KbState, Told, send_kb_op-Told}
use msdk_linux.Mouse.Calls.{mouse_report, send_mouse_op_sent, MouseState}
use msdk_linux.Move.{set_position}

-- A movement of the pointer and the wheel in the mouse's bytes.
pub record Motion : Type 0 where
  pub dx : ℕ
  pub dy : ℕ
  pub wheel : ℕ

abbrev pub turned : ℕ → Motion
turned turn = record { dx = 0; dy = 0; wheel = turn }

abbrev pub still : Motion
still = turned 0

-- The mouse's bytes, with these buttons and this movement.
pub record Clicks (op : List ℕ) (buttons : ℕ) (m : Motion) : Type 0 where
  pub first : ℕ
  pub bytes : op ≡ first ∷ buttons ∷ m.dx ∷ m.dy ∷ m.wheel ∷ []

-- What the record keeps of the position.
pub record Kept : Type 0 where
  pub flag : ℕ
  pub x : ℤ
  pub y : ℤ

abbrev pub kept_of : Udev → Kept
kept_of u = record {
  flag = u.mouse_1st_movto;
  x = u.curr_mouse_abs_pos_x;
  y = u.curr_mouse_abs_pos_y;
}

-- The kept position is not below 0, and the flag that it is known is 0 or 1.
pub record IsPlaced (k : Kept) (u : Udev) : Type 0 where
  pub kept : kept_of u ≡ k
  pub flag : (u.mouse_1st_movto ≡ 0) ⊎ (u.mouse_1st_movto ≡ 1)
  pub x_nonneg : pos 0 ≤ℤ u.curr_mouse_abs_pos_x
  pub y_nonneg : pos 0 ≤ℤ u.curr_mouse_abs_pos_y

pub at_place :
    (x y : ℤ) (u : Udev)
    → (u.mouse_1st_movto ≡ 0) ⊎ (u.mouse_1st_movto ≡ 1)
    → pos 0 ≤ℤ x
    → pos 0 ≤ℤ y
    → IsPlaced (kept_of (set_position x y u)) (set_position x y u)
at_place x y u flag p q = record { kept = refl; flag = flag; x_nonneg = p; y_nonneg = q }

-- The bytes of the two reports have no part in it.
pub with_ops :
    (kb mouse : List ℕ) (k : Kept) (u : Udev)
    → IsPlaced k u
    → IsPlaced k (record u { curr_kb_op = kb; curr_mouse_op = mouse })
with_ops kb mouse k u p = record {
  kept = p.kept;
  flag = p.flag;
  x_nonneg = p.x_nonneg;
  y_nonneg = p.y_nonneg;
}

module _ (scr : Screen) (dev : Device) (ok : Bool) where
  -- The record shows that `d` is down and holds a movement that is not reported yet, and the reports
  -- that were handed over so far say `told`.
  pub record Holds (k : Kept) (m : Motion) (d told : Down) (w : World) : Type 0 where
    pub device : w.udev.h_dev ≡ some dev
    pub kb : HasDown w.udev.curr_kb_op d.mods d.keys
    pub mouse : Clicks w.udev.curr_mouse_op d.buttons m
    pub reports : List (List ℕ)
    pub on_wire : handed_over w.calls ≡ at_rest reports ok
    pub reading : reads scr reports ≡ told
    pub place : IsPlaced k w.udev

  -- Everything that the record shows has been reported.
  abbrev pub Agrees : Kept → Down → World → Type 0
  Agrees k d w = Holds k still d d w

  -- The same, with the position as the record has it.
  abbrev pub Stands : Down → World → Type 0
  Stands d w = Agrees (kept_of w.udev) d w

  pub restand :
      (k : Kept) (m : Motion) (d told : Down) (w : World)
      → Holds k m d told w
      → Holds (kept_of w.udev) m d told w
  restand k m d told w s = subst (λ x. Holds x m d told w) (sym s.place.kept) s

  -- The same reports, and a record that differs in what is not down or up.
  pub Holds-same :
      (k k' : Kept) (m : Motion) (d told : Down) (w w' : World)
      → Holds k m d told w
      → w'.udev.h_dev ≡ w.udev.h_dev
      → w'.udev.curr_kb_op ≡ w.udev.curr_kb_op
      → w'.udev.curr_mouse_op ≡ w.udev.curr_mouse_op
      → handed_over w'.calls ≡ handed_over w.calls
      → IsPlaced k' w'.udev
      → Holds k' m d told w'
  Holds-same k k' m d told w w' s dev_e kb_e mouse_e wire_e place = record {
    device = dev_e ∙ s.device;
    kb = subst (λ op. HasDown op d.mods d.keys) (sym kb_e) s.kb;
    mouse = subst (λ op. Clicks op d.buttons m) (sym mouse_e) s.mouse;
    reports = s.reports;
    on_wire = wire_e ∙ s.on_wire;
    reading = s.reading;
    place = place;
  }

  -- The record is changed to show something else.
  pub Holds-shows_keys :
      (k : Kept) (d told : Down) (mods : ℕ) (ks : List ℕ) (f : List ℕ → List ℕ) (w : World)
      → Holds k still d told w
      → HasDown (f w.udev.curr_kb_op) mods ks
      → Holds k still
          (record d { mods = mods; keys = ks })
          told
          (record w { udev = set_kb_op f w.udev })
  Holds-shows_keys k d told mods ks f w s p = record {
    device = s.device;
    kb = p;
    mouse = s.mouse;
    reports = s.reports;
    on_wire = s.on_wire;
    reading = s.reading;
    place = with_ops (f w.udev.curr_kb_op) w.udev.curr_mouse_op k w.udev s.place;
  }

  pub Holds-shows_buttons :
      (k : Kept) (m : Motion) (d told : Down) (buttons : ℕ) (m' : Motion) (f : List ℕ → List ℕ)
      (w : World)
      → Holds k m d told w
      → Clicks (f w.udev.curr_mouse_op) buttons m'
      → Holds k m' (record d { buttons = buttons }) told (record w { udev = set_mouse_op f w.udev })
  Holds-shows_buttons k m d told buttons m' f w s p = record {
    device = s.device;
    kb = s.kb;
    mouse = p;
    reports = s.reports;
    on_wire = s.on_wire;
    reading = s.reading;
    place = with_ops w.udev.curr_kb_op (f w.udev.curr_mouse_op) k w.udev s.place;
  }

  -- What the calls on the keys and on the buttons start from.
  pub Agrees-KbState :
      (k : Kept) (d : Down) (w : World)
      → (s : Agrees k d w) → KbState dev d.mods d.keys s.reports ok w
  Agrees-KbState k d w s = record { device = s.device; down = s.kb; on_wire = s.on_wire }

  pub Agrees-MouseState :
      (k : Kept) (d : Down) (w : World)
      → (s : Agrees k d w) → MouseState dev d.buttons s.reports ok w
  Agrees-MouseState k d w s = record {
    device = s.device;
    first = s.mouse.first;
    op = s.mouse.bytes;
    on_wire = s.on_wire;
  }

  module _ (h : Host) (prompt : IsPrompt h) (k : Kept) where
    -- The keyboard's report tells the box about the keys.
    pub send_kb_op-Agrees :
        (d told : Down) (w : World)
        → Holds k still d told w
        → record told { mods = d.mods; keys = d.keys } ≡ d
        → Ensures (send_kb_op h w) (λ r w'. Agrees k d w')
    send_kb_op-Agrees d told w s same =
        let st : KbState dev d.mods d.keys s.reports ok w = record {
          device = s.device;
          down = s.kb;
          on_wire = s.on_wire;
        } in
        let (r, w', e, t) =
          Returns-done (Told dev s.reports ok d.mods d.keys w) (send_kb_op h w)
            (send_kb_op-Told h prompt dev d.mods d.keys s.reports ok w st) in
        let reading : reads scr (t.0 ∷ s.reports) ≡ d =
          reads_next scr t.0 s.reports told s.reading
          ∙ reads-Tells scr t.0 d.mods d.keys told s.kb.few s.kb.keys t.2
          ∙ same in
        rw e (record {
          device = t.1.device;
          kb = t.1.down;
          mouse =
              subst (λ op. Clicks op d.buttons still) (sym (ap (λ u. u.curr_mouse_op) t.3)) s.mouse;
          reports = t.0 ∷ s.reports;
          on_wire = t.1.on_wire;
          reading = reading;
          place =
              subst (IsPlaced k) (sym t.3)
                (with_ops w'.udev.curr_kb_op w.udev.curr_mouse_op k w.udev s.place);
        })

    -- The mouse's report tells it about the buttons and the movement, and leaves the record as it is.
    pub send_mouse_op-Holds :
        (m : Motion) (d told : Down) (w : World)
        → Holds k m d told w
        → record told { buttons = d.buttons } ≡ d
        → get_or w.udev.curr_mouse_op 0 0 ≡ 4
        → Ensures (send_mouse_op h w) (λ r w'.
          Holds k m (shift scr m.dx m.dy d) (shift scr m.dx m.dy d) w' × (w'.udev ≡ w.udev))
    send_mouse_op-Holds m d told w s same four =
        let report = mouse_report d.buttons m.dx m.dy m.wheel in
        let first : s.mouse.first ≡ 4 = sym (ap (λ op. get_or op 0 0) s.mouse.bytes) ∙ four in
        let is_op : w.udev.curr_mouse_op ≡ report =
          s.mouse.bytes ∙ ap (λ f. f ∷ d.buttons ∷ m.dx ∷ m.dy ∷ m.wheel ∷ []) first in
        let (r, c, e, sent, ends) =
          send_mouse_op_sent h prompt dev ok report s.reports w s.device is_op refl s.on_wire in
        rw e (
          record {
            device = s.device;
            kb = s.kb;
            mouse = s.mouse;
            reports = report ∷ s.reports;
            on_wire = sent;
            reading =
                reads_next scr report s.reports told s.reading
                ∙ reads-mouse_report scr d.buttons m.dx m.dy m.wheel told
                ∙ ap (shift scr m.dx m.dy) same;
            place = s.place;
          },
          refl,
        )

    -- Without a movement it leaves the pointer where it is.
    pub send_mouse_op-turned :
        (turn : ℕ) (d told : Down) (w : World)
        → Holds k (turned turn) d told w
        → record told { buttons = d.buttons } ≡ d
        → get_or w.udev.curr_mouse_op 0 0 ≡ 4
        → Ensures (send_mouse_op h w) (λ r w'. Holds k (turned turn) d d w' × (w'.udev ≡ w.udev))
    send_mouse_op-turned turn d told w s same four =
        let on : IsOn scr d =
          subst (IsOn scr) (ap {A = Down} (λ x. record x { buttons = d.buttons }) s.reading ∙ same)
            (reads-IsOn scr s.reports) in
        Ensures-mono _ _ (send_mouse_op h w)
          (send_mouse_op-Holds (turned turn) d told w s same four)
          (λ r w' (s', kept).
            (subst (λ x. Holds k (turned turn) x x w') (shift-still scr d on) s', kept))
