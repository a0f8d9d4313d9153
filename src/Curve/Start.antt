-- ===== src/Curve/Start.antt =====
-- The start of `M_MoveTo3`'s loop, and the kept position when it is stored.
use msdk_linux.Base.{
  ℕ, ℤ, abs, pos, Bool, ◌+ℤ◌, ◌≡◌, ◌≤◌, ◌-ℤ◌, ◌≤ℤ◌, eq_of_parts, int_laws, sym, arith, one_part,
  -ℤ_parts, -ℤ_parts, ap, ◌∙◌, pos_part, refl, neg_part,
}
use msdk_linux.Machine.{Udev}
use msdk_linux.Curve.{place_of, set_position, start_way}
use msdk_linux.Move.{set_position}
use msdk_linux.Curve.Step.{SameBut}
use msdk_linux.Curve.OnTheCurve.{OnWay}
use msdk_linux.Curve.Rounds.{stored_again}

distance : (p : ℤ) (t : ℕ) → p +ℤ (pos t -ℤ p) ≡ pos t
distance p t = omega int_laws

no_distance : (p : ℤ) (t : ℕ) → pos t -ℤ p ≡ pos 0 → p ≡ pos t
no_distance p t e =
    eq_of_parts p (pos t) (omega (arith, -ℤ_parts (pos t) p, ap pos_part e, ap neg_part e))

nothing_longer : (x y : ℤ) → abs y ≤ abs x → x ≡ pos 0 → y ≡ pos 0
nothing_longer x y p e =
    eq_of_parts y (pos 0) (omega (arith, one_part x, one_part y, ap pos_part e, ap neg_part e))

pub SameBut-refl : (u : Udev) → SameBut u u
SameBut-refl u = record {
  h_dev = refl;
  kb = refl;
  mouse = refl;
  flag = refl;
  width = refl;
  height = refl;
}

pub start_way-OnWay :
    (swapped : Bool) (ta tb : ℕ) (u : Udev)
    → pos 0 ≤ℤ (place_of swapped u).0
    → pos 0 ≤ℤ (place_of swapped u).1
    → abs (pos tb -ℤ (place_of swapped u).1) ≤ abs (pos ta -ℤ (place_of swapped u).0)
    → OnWay swapped ta tb u u
        (start_way (pos ta -ℤ (place_of swapped u).0) (pos tb -ℤ (place_of swapped u).1))
start_way-OnWay swapped ta tb u p q longer =
    let (a_pos, b_pos) = place_of swapped u in
    record {
      same = SameBut-refl u;
      even = refl;
      at_a = distance a_pos ta;
      a_nonneg = p;
      b_nonneg = q;
      settled = λ e.
          ap (λ a. (a, b_pos)) (no_distance a_pos ta e)
          ∙ ap (λ b. (pos ta, b))
              (no_distance b_pos tb (nothing_longer (pos ta -ℤ a_pos) (pos tb -ℤ b_pos) longer e));
    }

pub stored_at :
    (x y : ℕ) (u : Udev)
    → u.mouse_1st_movto ≡ 1
    → u.curr_mouse_abs_pos_x ≡ pos x
    → u.curr_mouse_abs_pos_y ≡ pos y
    → u ≡ set_position (pos x) (pos y) (record u { mouse_1st_movto = 1 })
stored_at x y u e p q =
    let known = record u { mouse_1st_movto = 1 } in
    sym (stored_again u e)
    ∙ ap (λ a. set_position a u.curr_mouse_abs_pos_y known) p
    ∙ ap (λ b. set_position (pos x) b known) q

pub stored-SameBut :
    (a b : ℤ) (u0 u : Udev)
    → u0.mouse_1st_movto ≡ 1
    → SameBut u0 u
    → SameBut u0 (set_position a b (record u { mouse_1st_movto = 1 }))
stored-SameBut a b u0 u known s = record {
  h_dev = s.h_dev;
  kb = s.kb;
  mouse = s.mouse;
  flag = sym known;
  width = s.width;
  height = s.height;
}
