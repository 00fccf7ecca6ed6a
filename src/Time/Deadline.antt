-- ===== src/Time/Deadline.antt =====
-- The deadline that `timeraddMS` of include/easyipc_daemon.h sets.
use easyipc.Base.{ℕ, ◌+◌, ◌*◌, ◌/◌, ◌%◌, ◌^◌, ◌<◌, ◌≡◌, arith, leb, inl, inr, Bool-cases}
use easyipc.Time.{Timeval, timeradd_ms}

-- The microseconds of a time.
abbrev pub total : Timeval → ℕ
total a = a.sec * 1000000 + a.usec

-- For a time with less than 10^6 microseconds, `timeraddMS` gives a time with less than 10^6
-- microseconds again. It lies the given milliseconds later, less 2^32 microseconds for each 2^32
-- that the product of the milliseconds and 1000 contains.
pub timeradd_ms-total :
    (a : Timeval) (ms : ℕ)
    → a.usec < 1000000
    → ((timeradd_ms a ms).usec < 1000000)
      × (total (timeradd_ms a ms) + 2 ^ 32 * ((ms * 1000) / 2 ^ 32) ≡ total a + ms * 1000)
unfolding timeradd_ms
timeradd_ms-total a ms h = elim (Bool-cases (leb 1000000 (a.usec + (ms * 1000) % 2 ^ 32))) [
  | inl e ↦ rw e (omega arith, omega arith)
  | inr e ↦ rw e (ground (arith, e), omega arith)
]
