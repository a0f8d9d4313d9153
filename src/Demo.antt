-- ===== src/Demo.antt =====
-- msdk/demo.c: one session with the box.
pub mod Typing
pub mod Moves
pub mod Whole
use msdk_linux.Base.{ℕ, ℤ, suc, pos, ◌%◌, ◌+◌, zero, minus_one}
use msdk_linux.Machine.{null, Host, Prog, ◌>>◌, return, ◌>>=◌, call, rand, live, silent, usleep}
use msdk_linux.Curve.{Floats, m_move_to3}
use msdk_linux.Session.{m_open, m_close}
use msdk_linux.Common.{m_delay, m_delay_random}
use msdk_linux.Move.{m_move_r, m_move_to}
use msdk_linux.Keyboard.{m_key_press}
use msdk_linux.Absolute.{m_resolution_used}

-- The loop `for (int i = 0; i < 4096; i ++)`, with `n` rounds left. The result of M_KeyPress is not
-- looked at.
unfoldable pub type_keys : Host → ℕ → Prog (Unit {0})
type_keys h zero = return tt
type_keys h (suc n) = do
  r ← call rand h.random
  m_key_press h live (pos (r % 35 + 4)) (pos 1)
  type_keys h n

-- What follows `M_Open`. The messages are left out, and `srand`: `random` answers as it will.
unfoldable pub session : Host → Floats → Prog ℤ
unfolding type_keys
session h fl = do
  m_delay (pos 5000)
  m_move_r h live (pos 100) (pos 100)
  silent (usleep 500000)
  m_move_to h live (pos 500) (pos 500)
  m_delay_random h (pos 2000) (pos 3000)
  type_keys h 4096
  silent (usleep 500000)
  m_resolution_used live (pos 1920) (pos 1080)
  m_move_to3 h fl live (pos 800) (pos 168)
  m_close live
  return (pos 0)

-- `main`
unfoldable pub demo : Host → Floats → Prog ℤ
unfolding session
demo h fl = do
  m_hdl ← m_open h (pos 1)
  elim m_hdl [ null ↦ return minus_one | live ↦ session h fl ]
