-- ===== src/Time.antt =====
-- `struct timespec` and its sum and difference, from include/easyipc_daemon.h.
pub mod Laws
pub mod Deadline
use easyipc.Base.{ℕ, ◌+◌, ◌*◌, ◌/◌, ◌%◌, ◌^◌, leb, if◌then◌else◌}
use easyipc.Base.Int.{ℤ, pos, ◌+ℤ◌, ◌-ℤ◌, ltb_ℤ}

pub record Timespec : Type 0 where
  pub tv_sec : ℤ
  pub tv_nsec : ℤ

abbrev pub second : ℕ
second = 1000000000

-- `timespec_diff`
unfoldable pub diff : Timespec → Timespec → Timespec
diff start end =
    if ltb_ℤ (end.tv_nsec -ℤ start.tv_nsec) (pos 0)
    then record {
      tv_sec = end.tv_sec -ℤ start.tv_sec -ℤ pos 1;
      tv_nsec = pos second +ℤ end.tv_nsec -ℤ start.tv_nsec;
    }
    else record { tv_sec = end.tv_sec -ℤ start.tv_sec; tv_nsec = end.tv_nsec -ℤ start.tv_nsec }

-- `timespec_sum`
unfoldable pub sum : Timespec → Timespec → Timespec
sum src dest =
    let sec = src.tv_sec +ℤ dest.tv_sec in
    let nsec = src.tv_nsec +ℤ dest.tv_nsec in
    if ltb_ℤ nsec (pos second)
    then record { tv_sec = sec; tv_nsec = nsec }
    else record { tv_sec = sec +ℤ pos 1; tv_nsec = nsec -ℤ pos second }

-- `struct timeval`
pub record Timeval : Type 0 where
  pub sec : ℕ
  pub usec : ℕ

-- `timeraddMS`, whose product is an `unsigned int`
unfoldable pub timeradd_ms : Timeval → ℕ → Timeval
timeradd_ms a ms =
    let u : ℕ = a.usec + (ms * 1000) % 2 ^ 32 in
    if leb 1000000 u
    then record { sec = a.sec + u / 1000000; usec = u % 1000000 }
    else record { sec = a.sec; usec = u }
