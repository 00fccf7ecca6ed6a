-- ===== src/Daemon/Order.antt =====
-- The threads of src/easyipc_daemon.c against one state, as a step relation: each round of a thread is
-- one step, since it holds `mlist_mutex`, but a call is pulled from its queue in a step of its own
-- before the round that distributes it.
pub mod Numbers
pub mod Handlers
pub mod Invariant
use easyipc.Base.{ℕ, suc, ◌+◌, ◌<◌, ◌≤◌, Bool, false, List, [], ◌∷◌, ◌++◌, ◌≡◌, All, length}
use easyipc.Wire.{Msg, Api, Packet, Request, process_join, Effect}
use easyipc.Registry.{process_name_max_size}
use easyipc.Registry.Unique.{IsTable}
use easyipc.Daemon.{Daemon, Pull, pulled, init, api_pull, msg_pull}
use easyipc.Daemon.Probe.{api_probe, msg_probe}
use easyipc.Daemon.Sweep.{api_timeout_check, live_check}
use easyipc.Daemon.Analysis.{Outcome, done, analysis_core}

-- The state with the call that the distributing thread has pulled and not yet distributed, as a list
-- of at most one.
pub record System : Type 0 where
  pub daemon : Daemon
  pub in_hand : List Api

-- What a packet may ask in a state. A join comes while every member is live, with a name that fits
-- its array.
abbrev pub Allowed : Request → Daemon → Type 0
Allowed (process_join j) d =
    All (λ m. m.suspended ≡ false) d.mlist × (length j.name < process_name_max_size)
Allowed _ d = Unit

pub data Step : System → List Effect → System → Type 0 where
  packet :
      {d e : Daemon} {as' : List Api} {es : List Effect} (host : ℕ) (p : Packet)
      → Allowed p.request d
      → analysis_core host p d ≡ done e es
      → Step (record { daemon = d; in_hand = as' }) es (record { daemon = e; in_hand = as' })
  pull_call :
      {d e : Daemon} {a : Api}
      → api_pull d ≡ pulled a e
      → Step (record { daemon = d; in_hand = [] }) [] (record { daemon = e; in_hand = a ∷ [] })
  distribute_call :
      {d : Daemon} (a : Api)
      → Step
          (record { daemon = d; in_hand = a ∷ [] })
          (api_probe a d).1
          (record { daemon = (api_probe a d).0; in_hand = [] })
  distribute_message :
      {d e : Daemon} {as' : List Api} (m : Msg)
      → msg_pull d ≡ pulled m e
      → Step
          (record { daemon = d; in_hand = as' })
          (msg_probe m e).1
          (record { daemon = (msg_probe m e).0; in_hand = as' })
  tick_calls :
      {d : Daemon} {as' : List Api}
      → Step
          (record { daemon = d; in_hand = as' })
          (api_timeout_check d).1
          (record { daemon = (api_timeout_check d).0; in_hand = as' })
  tick_members :
      {d : Daemon} {as' : List Api}
      → Step
          (record { daemon = d; in_hand = as' })
          (live_check d).1
          (record { daemon = (live_check d).0; in_hand = as' })

-- The states that the daemon reaches.
pub data Reach : System → Type 0 where
  started : Reach (record { daemon = init; in_hand = [] })
  stepped : {s t : System} {es : List Effect} → Reach s → Step s es t → Reach t
