-- ===== src/TimeStamp.antt =====
-- TimeStamp (src/peerboot/timestamp.cpp). The clock of the system, in seconds since 1970, is an
-- argument; the results are `uint32_t`.
use peerboot_cpp.Prelude.{ℕ, ◌+◌, ◌-◌, ◌%◌, ◌^◌, ◌<◌, ◌≡◌, arith}

abbrev pub epoch : ℕ
epoch = 1546300800

unfoldable pub now : ℕ → ℕ
now seconds = (seconds + 2 ^ 32 - epoch) % 2 ^ 32

unfoldable pub age : ℕ → ℕ → ℕ
unfolding now
age seconds time = (now seconds + 2 ^ 32 - time) % 2 ^ 32

-- A timestamp that was taken `d` seconds ago has the age `d`, for every `d` below 2 ^ 32, also
-- where the 32-bit counter has wrapped round in between.
pub age-now : (seconds d : ℕ) → d < 2 ^ 32 → age (seconds + d) (now seconds) ≡ d
unfolding age
age-now seconds d h = omega arith
