-- ===== src/Daemon/Sweep.antt =====
-- The two clock threads of src/easyipc_daemon.c, one round of each: `ipc_api_timeout_check_thread`
-- every 100 ms, and `ipc_live_thread` every 300 ms.
use easyipc.Base.{
  ℕ, ◌+◌, Bool, true, false, ◌&&◌, not, List, [], ◌∷◌, ◌++◌, ltb, ◌==◌, if◌then◌else◌,
}
use easyipc.Base.Int.{ℤ, pos, negsuc, ◌-ℤ◌, ltb_ℤ}
use easyipc.Wire.{Api, Effect, logged, progress, err, api_expired, process_miss, ack_timeout}
use easyipc.Registry.{Member}
use easyipc.Daemon.{Daemon, answer, plain_ack}

-- `API_TIMEOUT_MAX`
abbrev pub api_timeout_max : ℕ
api_timeout_max = 0xffffff

-- `IPC_LIVE_TIMEOUT_NUM`
abbrev pub live_timeout_num : ℕ
live_timeout_num = 14

abbrev pub is_endless : ℤ → Bool
is_endless (pos n) = n == api_timeout_max
is_endless (negsuc n) = false

-- What a round leaves of a call's time.
unfoldable pub count_down : ℤ → ℤ
unfolding ◌-ℤ◌
count_down c = if is_endless c then c else c -ℤ pos 100

-- The loop over `recv_acklist`: the calls that stay, and what is done about the others.
unfoldable pub ack_sweep : List Member → List Api → List Api × List Effect
ack_sweep ms [] = ([], [])
ack_sweep ms (a ∷ as') =
    let (rest, es) = ack_sweep ms as' in
    let c = count_down a.daemon_count_number in
    if ltb_ℤ (pos 0) c then (record a { daemon_count_number = c } ∷ rest, es) else (
      rest,
      answer a.send_pid (plain_ack a ack_timeout) ms
          ++ logged progress err a.send_pid (api_expired a.api_name a.pname) ∷ es,
    )

-- A round of `ipc_api_timeout_check_thread`.
unfoldable pub api_timeout_check : Daemon → Daemon × List Effect
unfolding ack_sweep
api_timeout_check d =
    let (rest, es) = ack_sweep d.mlist d.recv_acklist in (record d { recv_acklist = rest }, es)

-- The loop over the table: a member silent for too long is suspended, once.
unfoldable pub live_sweep : List Member → List Member × List Effect
live_sweep [] = ([], [])
live_sweep (m ∷ ms) =
    let (rest, es) = live_sweep ms in
    if ltb live_timeout_num m.live_cnt && not m.suspended
    then (
      record m { live_cnt = m.live_cnt + 1; suspended = true } ∷ rest,
      logged progress err m.pid (process_miss m.pname) ∷ es,
    )
    else (record m { live_cnt = m.live_cnt + 1 } ∷ rest, es)

-- A round of `ipc_live_thread`.
unfoldable pub live_check : Daemon → Daemon × List Effect
unfolding live_sweep
live_check d = let (ms, es) = live_sweep d.mlist in (record d { mlist = ms }, es)
