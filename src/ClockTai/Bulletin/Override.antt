-- ===== src/ClockTai/Bulletin/Override.antt =====
-- An offset that is set by hand.
use odr_source_companion.Base.{ℕ, ◌+◌, ◌*◌, ◌^◌, ◌<◌, ltb, ◌≡◌, arith}
use odr_source_companion.Base.Int.{ℤ}
use odr_source_companion.ClockTai.Bulletin.{usable, expires_in, state, create_with_fixed_offset}

-- An offset that is set by hand at a time before 2106 less ten years is usable just if the time ten
-- years later is below 2 ^ 31: one that is set later, from January 2028 on, counts as expired at
-- once.
pub usable-create :
    (now : ℕ) (offset : ℤ)
    → now + 10 * 365 * 24 * 3600 < 2 ^ 32
    → usable now (state now (create_with_fixed_offset now offset))
      ≡ ltb (now + 10 * 365 * 24 * 3600) (2 ^ 31)
unfolding usable expires_in state create_with_fixed_offset
usable-create now offset h = ground arith
