-- ===== src/Move/Step.antt =====
-- One axis of a relative movement: what one step leaves of the distance.
use msdk_linux.Base.{
  ℕ, ℤ, pos, ◌≡◌, ◌≤◌, ◌<◌, ◌+◌, ◌⊎◌, abs, ◌-ℤ◌, signed_char, arith, ◌∷◌, set, byte_of, -ℤ_parts,
  pos_part, neg_part, negsuc, ◌≤ℤ◌, inl, inr,
}
use msdk_linux.Move.{move_axis, axis_byte}
use msdk_linux.Machine.{Host, World, done, rand, ◌>>=◌}
use msdk_linux.Mouse.{set_mouse_op}
use msdk_linux.Common.Range.{m_rand_dom_nbr_bounds}

-- A step ends the movement, or brings it closer by 100 at least.
abbrev pub Closer : ℤ → ℤ → Type 0
Closer x x' = (x' ≡ pos 0) ⊎ (abs x' + 100 ≤ abs x)

-- The step `s` goes the way of `x`, and not further.
abbrev pub Within : ℤ → ℤ → Type 0
Within x s = ((pos 0 ≤ℤ s) × (s ≤ℤ x)) ⊎ ((x ≤ℤ s) × (s ≤ℤ pos 0))

-- What is left after the byte `b`.
abbrev pub distance_after : ℤ → ℕ → ℤ
distance_after x b = x -ℤ signed_char b

zero_of_parts : (x : ℤ) → pos_part x ≡ neg_part x → x ≡ pos 0
zero_of_parts x e = ground arith

pub axis_byte-Closer :
    (rnd : ℕ) (x : ℤ) → 100 ≤ rnd → rnd < 127 → Closer x (distance_after x (axis_byte rnd x))
unfolding axis_byte
axis_byte-Closer rnd (pos n) low high = grind (arith, -ℤ_parts, zero_of_parts)
axis_byte-Closer rnd (negsuc n) low high = grind (arith, -ℤ_parts, zero_of_parts)

pub axis_byte-Within :
    (rnd : ℕ) (x : ℤ) → 100 ≤ rnd → rnd < 127 → Within x (signed_char (axis_byte rnd x))
unfolding axis_byte
axis_byte-Within rnd (pos n) low high = inl (ground arith)
axis_byte-Within rnd (negsuc n) low high = inr (ground arith)

pub move_axis_lem :
    (h : Host) (place : ℕ) (x : ℤ) (w : World)
    → (b : ℕ) × (move_axis h place x w
        ≡ done (distance_after x b) (record w {
          calls = rand ∷ w.calls;
          udev = set_mouse_op (λ op. set op place b) w.udev;
        }))
      × Closer x (distance_after x b)
      × Within x (signed_char b)
unfolding move_axis
move_axis_lem h place x w =
    let (r, e, low, high) =
      m_rand_dom_nbr_bounds h (pos 100) (pos 127) w (omega arith) (omega arith) (omega arith) in
    (
      axis_byte (byte_of r) x,
      rw (e, ◌>>=◌),
      axis_byte-Closer (byte_of r) x (ground arith) (ground arith),
      axis_byte-Within (byte_of r) x (ground arith) (ground arith),
    )
