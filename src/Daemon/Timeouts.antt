-- ===== src/Daemon/Timeouts.antt =====
-- The clocks of src/easyipc_daemon.c over any number of rounds: when a waiting call expires, and when
-- a silent process is suspended.
use easyipc.Base.{
  ℕ, zero, suc, ◌+◌, ◌-◌, ◌*◌, ◌<◌, ◌≤◌, false, ◌||◌, ◌&&◌, not, List, [], ◌∷◌, ◌++◌, ◌≡◌, refl, ap,
  ◌∙◌, sym, arith, ltb, leb, ◌==◌, All, if◌then◌else◌, map,
}
use easyipc.Base.Int.{pos, ◌-ℤ◌, pos_part}
use easyipc.Wire.{Api, Effect, logged, progress, err, api_expired, process_miss, ack_timeout}
use easyipc.Registry.{Member}
use easyipc.Daemon.{Daemon, answer, plain_ack}
use easyipc.Daemon.Sweep.{
  api_timeout_max, live_timeout_num, count_down, ack_sweep, api_timeout_check, live_sweep,
  live_check,
}

-- A call with a proper time: positive, and at most the mark of an endless one.
abbrev pub IsTimed : Api → Type 0
IsTimed a = (t : ℕ) × (a.daemon_count_number ≡ pos t) × (0 < t) × (t ≤ api_timeout_max)

-- The calls that are left after a number of rounds, with the time that is left to each.
unfoldable pub survivors : ℕ → List Api → List Api
survivors n [] = []
survivors n (a ∷ as') =
    let rest = survivors n as' in
    let t = pos_part a.daemon_count_number in
    if t == api_timeout_max
    then a ∷ rest
    else (if ltb (100 * n) t
        then record a { daemon_count_number = pos (t - 100 * n) } ∷ rest
        else rest)

-- The answers and records of the calls that expire in the round after that number of rounds.
unfoldable pub expiries : ℕ → List Member → List Api → List Effect
expiries n ms [] = []
expiries n ms (a ∷ as') =
    let rest = expiries n ms as' in
    let t = pos_part a.daemon_count_number in
    if not (t == api_timeout_max) && ltb (100 * n) t && leb t (100 * n + 100)
    then answer a.send_pid (plain_ack a ack_timeout) ms
      ++ logged progress err a.send_pid (api_expired a.api_name a.pname) ∷ rest
    else rest

survivors-start : (as' : List Api) → All IsTimed as' → survivors 0 as' ≡ as'
unfolding survivors
survivors-start [] h = refl
survivors-start (a ∷ as') h = let (t, e, p, q) = h.0 in ground (arith, survivors-start as' h.1)

sweep-survivors :
    (n : ℕ) (ms : List Member) (as' : List Api)
    → All IsTimed as'
    → ack_sweep ms (survivors n as') ≡ (survivors (suc n) as', expiries n ms as')
unfolding survivors ack_sweep expiries count_down ◌-ℤ◌
sweep-survivors n ms [] h = refl
sweep-survivors n ms (a ∷ as') h =
    let (t, e, p, q) = h.0 in ground (arith, sweep-survivors n ms as' h.1)

-- The state after a number of rounds without any packet.
unfoldable pub timeout_rounds : ℕ → Daemon → Daemon
timeout_rounds zero d = d
timeout_rounds (suc n) d = (api_timeout_check (timeout_rounds n d)).0

-- The state after a number of rounds, told from the start.
abbrev pub after_rounds : ℕ → Daemon → Daemon
after_rounds n d = record d { recv_acklist = survivors n d.recv_acklist }

api_timeout_check-after :
    (n : ℕ) (d : Daemon)
    → All IsTimed d.recv_acklist
    → api_timeout_check (after_rounds n d)
      ≡ (after_rounds (suc n) d, expiries n d.mlist d.recv_acklist)
unfolding api_timeout_check
api_timeout_check-after n d h =
    ap (λ r. (record d { recv_acklist = r.0 }, r.1)) (sweep-survivors n d.mlist d.recv_acklist h)

timeout_rounds_lem :
    (n : ℕ) (d : Daemon) → All IsTimed d.recv_acklist → timeout_rounds n d ≡ after_rounds n d
unfolding timeout_rounds
timeout_rounds_lem zero d h =
    ap (λ as'. record d { recv_acklist = as' }) (sym (survivors-start d.recv_acklist h))
timeout_rounds_lem (suc n) d h =
    ap (λ e. (api_timeout_check e).0) (timeout_rounds_lem n d h)
    ∙ ap (λ r. r.0) (api_timeout_check-after n d h)

-- Let each waiting call have `t` milliseconds left, where `t` is positive and at most 0xffffff.
-- After `n` rounds of the timeout check a call is still waiting if `100 * n < t`, with `t - 100
-- * n` left, or if `t` is 0xffffff. In the next round exactly the calls expire whose `t` is
-- reached then: each caller that is in the table is sent the answer that its call has timed out,
-- and a record is logged. Nothing else of the state changes.
pub api_timeout_check_lem :
    (n : ℕ) (d : Daemon)
    → All IsTimed d.recv_acklist
    → api_timeout_check (timeout_rounds n d)
      ≡ (after_rounds (suc n) d, expiries n d.mlist d.recv_acklist)
api_timeout_check_lem n d h =
    ap api_timeout_check (timeout_rounds_lem n d h) ∙ api_timeout_check-after n d h

-- A live member has been silent for 15 rounds at most.
abbrev pub IsFresh : Member → Type 0
IsFresh m = (m.suspended ≡ false) → m.live_cnt ≤ live_timeout_num + 1

-- The member after a number of rounds without a sign of life.
unfoldable pub silent : ℕ → Member → Member
silent n m = record m {
  live_cnt = m.live_cnt + n;
  suspended = m.suspended || ltb (live_timeout_num + 1) (m.live_cnt + n);
}

-- The records of the members that are suspended in the round after that number of rounds.
unfoldable pub misses : ℕ → List Member → List Effect
misses n [] = []
misses n (m ∷ ms) =
    if not m.suspended && (m.live_cnt + n == live_timeout_num + 1)
    then logged progress err m.pid (process_miss m.pname) ∷ misses n ms
    else misses n ms

silent-start : (ms : List Member) → All IsFresh ms → map (silent 0) ms ≡ ms
unfolding silent
silent-start [] h = refl
silent-start (m ∷ ms) h = ground (arith, silent-start ms h.1, h.0)

live_sweep-silent :
    (n : ℕ) (ms : List Member)
    → All IsFresh ms
    → live_sweep (map (silent n) ms) ≡ (map (silent (suc n)) ms, misses n ms)
unfolding live_sweep silent misses
live_sweep-silent n [] h = refl
live_sweep-silent n (m ∷ ms) h = ground (arith, live_sweep-silent n ms h.1, h.0)

-- The state after a number of rounds without any packet.
unfoldable pub live_rounds : ℕ → Daemon → Daemon
live_rounds zero d = d
live_rounds (suc n) d = (live_check (live_rounds n d)).0

abbrev pub after_silence : ℕ → Daemon → Daemon
after_silence n d = record d { mlist = map (silent n) d.mlist }

live_check-after :
    (n : ℕ) (d : Daemon)
    → All IsFresh d.mlist
    → live_check (after_silence n d) ≡ (after_silence (suc n) d, misses n d.mlist)
unfolding live_check
live_check-after n d h = ap (λ r. (record d { mlist = r.0 }, r.1)) (live_sweep-silent n d.mlist h)

live_rounds_lem : (n : ℕ) (d : Daemon) → All IsFresh d.mlist → live_rounds n d ≡ after_silence n d
unfolding live_rounds
live_rounds_lem zero d h = ap (λ ms. record d { mlist = ms }) (sym (silent-start d.mlist h))
live_rounds_lem (suc n) d h =
    ap (λ e. (live_check e).0) (live_rounds_lem n d h) ∙ ap (λ r. r.0) (live_check-after n d h)

-- Where every live member has counted 15 rounds at most, a member that has counted `c` is
-- suspended after `n` more rounds without a sign of life if it was before or if `c + n` is more
-- than 15. Each is logged in one round, that which suspends it. Nothing else of the state
-- changes.
pub live_check_lem :
    (n : ℕ) (d : Daemon)
    → All IsFresh d.mlist
    → live_check (live_rounds n d) ≡ (after_silence (suc n) d, misses n d.mlist)
live_check_lem n d h = ap live_check (live_rounds_lem n d h) ∙ live_check-after n d h
