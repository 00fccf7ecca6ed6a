-- ===== src/Daemon/Answers.antt =====
-- How the daemon of src/easyipc_daemon.c matches the answer of a provider with the call that waits
-- for it: by the magic number that it gave the call.
use easyipc.Base.{
  ℕ, true, false, none, some, List, [], ◌∷◌, ◌++◌, ◌≡◌, ◌≢◌, refl, ap, ◌∙◌, arith, All,
  if◌then◌else◌, Bool-cases, inl, inr,
}
use easyipc.Base.Text.{Text}
use easyipc.Time.{Timespec}
use easyipc.Registry.{Entry, Member, has_name, get_mlist_via_pid, update_via_pid}
use easyipc.Wire.{
  Api, Ack, Packet, Runtime, Effect, api_runtime, api_finish_miss, logged, progress, err, warn,
  info, api_finish, api_finish_slow, api_finish_late,
}
use easyipc.Daemon.{Daemon, answer, api_ack_relay_to}
use easyipc.Daemon.Analysis.{
  done, take_call, result_ack, finish_api, is_slow, add_run, counted_api, analysis_core,
  on_api_runtime, finish_api_miss,
}

-- No call of the list has this magic number.
abbrev pub Fresh : ℕ → List Api → Type 0
Fresh magic = All (λ a. a.daemon_magic_number ≢ magic)

take_call-at :
    (us : List Api) (a : Api) (vs : List Api)
    → Fresh a.daemon_magic_number us
    → take_call a.daemon_magic_number (us ++ a ∷ vs) ≡ some (a, us ++ vs)
unfolding take_call
take_call-at [] a vs h = ground arith
take_call-at (u ∷ us) a vs h = ground (arith, take_call-at us a vs h.1)

take_call-Fresh : (magic : ℕ) (as' : List Api) → Fresh magic as' → take_call magic as' ≡ none
unfolding take_call
take_call-Fresh magic [] h = refl
take_call-Fresh magic (a ∷ as') h = ground (arith, take_call-Fresh magic as' h.1)

abbrev pub finish_note : ℕ → Runtime → Effect
finish_note sender r =
    if is_slow r.ptime
    then logged progress warn sender (api_finish_slow r.msg_name)
    else logged progress info sender (api_finish r.msg_name)

finish_api-some :
    (sender : ℕ) (r : Runtime) (d : Daemon) (a : Api) (rest : List Api)
    → take_call r.daemon_magic_number d.recv_acklist ≡ some (a, rest)
    → finish_api sender r d
      ≡ done
          (record d { recv_acklist = rest })
          (answer a.send_pid (result_ack r) d.mlist ++ finish_note sender r ∷ [])
unfolding finish_api
finish_api-some sender r d a rest h = rw (finish_api, h)

-- A result that carries the magic number of a waiting call, the first in the list to carry it.
pub finish_api_lem :
    (sender : ℕ) (r : Runtime) (us : List Api) (a : Api) (vs : List Api) (d : Daemon)
    → d.recv_acklist ≡ us ++ a ∷ vs
    → r.daemon_magic_number ≡ a.daemon_magic_number
    → Fresh a.daemon_magic_number us
    → finish_api sender r d
      ≡ done
          (record d { recv_acklist = us ++ vs })
          (answer a.send_pid (result_ack r) d.mlist ++ finish_note sender r ∷ [])
finish_api_lem sender r us a vs d h e f =
    finish_api-some sender r d a (us ++ vs) (rw (h, e) (take_call-at us a vs f))

-- A result whose magic number no waiting call carries changes nothing and sends nothing: it is
-- logged as too late.
pub finish_api-late :
    (sender : ℕ) (r : Runtime) (d : Daemon)
    → Fresh r.daemon_magic_number d.recv_acklist
    → finish_api sender r d ≡ done d (logged progress err sender (api_finish_late r.msg_name) ∷ [])
unfolding finish_api
finish_api-late sender r d f =
    rw (finish_api, take_call-Fresh r.daemon_magic_number d.recv_acklist f)

pub has_name-add_run :
    (name n : Text) (t : Timespec) (es : List Entry)
    → has_name name (add_run n t es) ≡ has_name name es
unfolding has_name add_run
has_name-add_run name n t [] = refl
has_name-add_run name n t (e ∷ es) = ground (arith, has_name-add_run name n t es)

-- The member that a report is counted for.
pub get-counted_api :
    (pid : ℕ) (r : Runtime) (ms : List Member) (m : Member)
    → get_mlist_via_pid pid ms ≡ some m
    → get_mlist_via_pid pid (update_via_pid pid (counted_api r) ms) ≡ some (counted_api r m)
unfolding get_mlist_via_pid update_via_pid
get-counted_api pid r [] m h = ground (arith, h)
get-counted_api pid r (n ∷ ms) m h = ground (arith, h, get-counted_api pid r ms m)

-- The packet of a process that reports on a call.
abbrev pub report : ℕ → Runtime → Packet
report sender r = record { send_pid = sender; request = api_runtime r }

-- The table once the report is counted for its sender.
abbrev pub reported : ℕ → Runtime → Daemon → Daemon
reported sender r d = record d { mlist = update_via_pid sender (counted_api r) d.mlist }

pub analysis_core-finish_api :
    (host sender : ℕ) (r : Runtime) (d : Daemon) (m : Member)
    → r.flag ≡ true
    → get_mlist_via_pid sender d.mlist ≡ some m
    → has_name r.msg_name m.api_list ≡ true
    → analysis_core host (report sender r) d ≡ finish_api sender r (reported sender r d)
unfolding analysis_core on_api_runtime
analysis_core-finish_api host sender r d m flag from has = rw (flag, from, has) refl

pub answer-some :
    (pid : ℕ) (a : Ack) (ms : List Member) (m : Member)
    → get_mlist_via_pid pid ms ≡ some m
    → answer pid a ms ≡ api_ack_relay_to m a ∷ []
unfolding answer
answer-some pid a ms m e = rw (answer, e)

analysis_core-finish_api_miss :
    (host sender : ℕ) (r : Runtime) (d : Daemon) (m : Member)
    → r.flag ≡ true
    → get_mlist_via_pid sender d.mlist ≡ some m
    → has_name r.msg_name m.api_list ≡ false
    → analysis_core host (report sender r) d ≡ finish_api_miss sender r (reported sender r d)
unfolding analysis_core on_api_runtime
analysis_core-finish_api_miss host sender r d m flag from lacks = rw (flag, from, lacks) refl

finish_api_miss-some :
    (sender : ℕ) (r : Runtime) (d : Daemon) (m : Member)
    → get_mlist_via_pid sender d.mlist ≡ some m
    → finish_api_miss sender r d
      ≡ done d (
          api_ack_relay_to m (result_ack r)
          ∷ logged progress err sender (api_finish_miss r.msg_name)
          ∷ [])
unfolding finish_api_miss
finish_api_miss-some sender r d m from =
    rw (finish_api_miss, from, answer-some sender (result_ack r) d.mlist m from) refl

-- The answer to a waiting call with the result of a report.
abbrev pub ack_for : Api → Runtime → Ack
ack_for a r = record { ack_id = a.ack_id; ack_result = r.ret; ack_data = r.ret_data }

-- A process that has the API reports on a waiting call.
pub analysis_core-answer :
    (host sender : ℕ) (r : Runtime) (us : List Api) (a : Api) (vs : List Api) (d : Daemon)
    (m : Member)
    → r.flag ≡ true
    → get_mlist_via_pid sender d.mlist ≡ some m
    → has_name r.msg_name m.api_list ≡ true
    → d.recv_acklist ≡ us ++ a ∷ vs
    → r.daemon_magic_number ≡ a.daemon_magic_number
    → r.caller_magic_number ≡ a.ack_id
    → Fresh a.daemon_magic_number us
    → analysis_core host (report sender r) d
      ≡ done
          (record (reported sender r d) { recv_acklist = us ++ vs })
          (answer a.send_pid (ack_for a r) (reported sender r d).mlist ++ finish_note sender r ∷ [])
analysis_core-answer host sender r us a vs d m flag from has wait same known fresh =
    let e = reported sender r d in
    let ack : ℕ → Ack = λ id. record { ack_id = id; ack_result = r.ret; ack_data = r.ret_data } in
    analysis_core-finish_api host sender r d m flag from has
    ∙ finish_api_lem sender r us a vs e wait same fresh
    ∙ ap
        (λ id.
          done (record e { recv_acklist = us ++ vs })
            (answer a.send_pid (ack id) e.mlist ++ finish_note sender r ∷ []))
        known

-- Let a process in the table report the result of a waiting call, the first in the list to carry
-- its magic number, with the id by which the caller knows the call. If the process has the API,
-- the result is sent under this id to the process that made the call, if that is in the table,
-- and the call is removed from the waiting calls, of which the others stay in their order. If it
-- does not have the API, the result is sent to the reporting process itself, a miss is logged,
-- and the call waits as before. Either way the report is counted for its sender.
pub analysis_core-api_runtime :
    (host sender : ℕ) (r : Runtime) (us : List Api) (a : Api) (vs : List Api) (d : Daemon)
    (m : Member)
    → r.flag ≡ true
    → get_mlist_via_pid sender d.mlist ≡ some m
    → d.recv_acklist ≡ us ++ a ∷ vs
    → r.daemon_magic_number ≡ a.daemon_magic_number
    → r.caller_magic_number ≡ a.ack_id
    → Fresh a.daemon_magic_number us
    → analysis_core host (report sender r) d ≡ (
        if has_name r.msg_name m.api_list
        then done
            (record (reported sender r d) { recv_acklist = us ++ vs })
            (answer a.send_pid (ack_for a r) (reported sender r d).mlist
              ++ finish_note sender r ∷ [])
        else done (reported sender r d) (
            api_ack_relay_to (counted_api r m) (ack_for a r)
            ∷ logged progress err sender (api_finish_miss r.msg_name)
            ∷ []))
analysis_core-api_runtime host sender r us a vs d m flag from wait same known fresh =
    let e = reported sender r d in
    let ack : ℕ → Ack = λ id. record { ack_id = id; ack_result = r.ret; ack_data = r.ret_data } in
    elim (Bool-cases (has_name r.msg_name m.api_list)) [
      | inl has ↦
          rw has
            (analysis_core-answer host sender r us a vs d m flag from has wait same known fresh)
      | inr lacks ↦ rw lacks (
          analysis_core-finish_api_miss host sender r d m flag from lacks
          ∙ finish_api_miss-some sender r e (counted_api r m)
              (get-counted_api sender r d.mlist m from)
          ∙ ap
              (λ id. done e (
                api_ack_relay_to (counted_api r m) (ack id)
                ∷ logged progress err sender (api_finish_miss r.msg_name)
                ∷ []))
              known)
    ]
