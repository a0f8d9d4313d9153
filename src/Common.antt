-- ===== src/Common.antt =====
-- msdk/msdk.c, the functions on random numbers and delays.
pub mod Range
pub mod Quiet
use msdk_linux.Base.{
  ℕ, ℤ, if◌then◌else◌, pos, ◌-ℤ◌, leb, ◌%◌, ◌==◌, ltb_ℤ, ◌*◌, ◌^◌, negsuc, ◌-◌, ◌+◌, ◌+ℤ◌,
}
use msdk_linux.Machine.{Host, Prog, ◌>>◌, ◌>>=◌, silent, rand, usleep, undefined_here, return, call}

-- `RAND_MAX` of the C library.
abbrev pub rand_max : ℕ
rand_max = 2147483647

-- `(unsigned int)x`
abbrev pub u32_of : ℤ → ℕ
u32_of (pos n) = n % 2 ^ 32
u32_of (negsuc n) = 2 ^ 32 - 1 - n % 2 ^ 32

abbrev pub rand_range : ℤ → ℤ → ℕ
rand_range min_v max_v =
    let temp = u32_of (max_v -ℤ min_v) in if leb rand_max temp then rand_max - 1 else temp

abbrev pub low_end : ℤ → ℤ → ℤ
low_end min_v max_v = if ltb_ℤ max_v min_v then pos 0 else min_v

-- `M_RandDomNbr`. A remainder by 0 is undefined. The sum is the C one: it fits an `int`.
unfoldable pub m_rand_dom_nbr : Host → ℤ → ℤ → Prog ℤ
m_rand_dom_nbr h min_v max_v =
    let low = low_end min_v max_v in
    let temp = rand_range low max_v in
    if temp == 0
    then (silent rand >> undefined_here)
    else do r ← call rand h.random; return (pos (r % temp) +ℤ low)

abbrev pub times_1000 : ℤ → ℤ
times_1000 (pos n) = pos (n * 1000)
times_1000 (negsuc n) = negsuc (n * 1000 + 999)

-- `M_Delay`
unfoldable pub m_delay : ℤ → Prog ℤ
m_delay time = do silent (usleep (u32_of (times_1000 time))); return (pos 0)

-- `M_DelayRandom`
unfoldable pub m_delay_random : Host → ℤ → ℤ → Prog ℤ
unfolding m_rand_dom_nbr
m_delay_random h min_time max_time = do
  t ← m_rand_dom_nbr h min_time max_time
  silent (usleep (u32_of (times_1000 t)))
  return (pos 0)
