-- ===== src/Daemon/Order/Invariant.antt =====
-- What holds in every state that src/easyipc_daemon.c reaches.
use easyipc.Base.{
  ℕ, ◌≢◌, All-append, Option, none, some, List, [], ◌∷◌, ◌++◌, ◌≡◌, ◌∙◌, true, refl, sym, subst,
  arith, inl, inr, append_assoc, Bool-cases,
}
use easyipc.Wire.{Msg, Api, Effect, Runtime, logged, progress, err, api_finish_late}
use easyipc.Registry.{Member, has_name, get_mlist_via_pid}
use easyipc.Registry.Unique.{SameIds, IsTable-SameIds}
use easyipc.Daemon.{Daemon, answer, pulled, api_ack_list_push}
use easyipc.Daemon.Queues.{
  PullsApi, one_api, PullsMsg, one_msg, api_pull-PullsApi, msg_pull-PullsMsg,
}
use easyipc.Daemon.Probe.{msg_probe}
use easyipc.Daemon.Sweep.{api_timeout_check, live_check, live_sweep}
use easyipc.Daemon.Analysis.{analysis_core, done, counted_api}
use easyipc.Daemon.Order.{
  System, Step, Reach, packet, pull_call, distribute_call, distribute_message, tick_calls,
  tick_members, started, stepped,
}
use easyipc.Daemon.Routing.{routed, find_live, api_probe_lem}
use easyipc.Daemon.Order.Numbers.{Rises, Rises-own, Rises-drop, Rises-sweep}
use easyipc.Daemon.Answers.{
  Fresh, finish_note, finish_api-late, report, reported, ack_for, get-counted_api, has_name-add_run,
  analysis_core-finish_api, analysis_core-answer,
}
use easyipc.Daemon.Order.Handlers.{WellFormed, Leaves, with_table, with_acks, handle-Leaves}

routed-WellFormed :
    (a : Api) (d : Daemon) (o : Option Member)
    → WellFormed (a ∷ []) d
    → WellFormed [] (routed a d o).0
unfolding api_ack_list_push
routed-WellFormed a d none w = record {
  table = w.table;
  balanced = w.balanced;
  numbered = Rises-drop 0 d.api_public_magic_number d.recv_acklist a d.recv_alist w.numbered;
}
routed-WellFormed a d (some m) w = elim (Bool-cases (has_name a.api_name m.api_list)) [
  | inl e ↦ rw e (record {
    table = w.table;
    balanced = record { msgs = w.balanced.msgs; apis = w.balanced.apis };
    numbered = rw (append_assoc d.recv_acklist (a ∷ []) d.recv_alist) w.numbered;
  })
  | inr e ↦ rw e (record {
    table = w.table;
    balanced = w.balanced;
    numbered = Rises-drop 0 d.api_public_magic_number d.recv_acklist a d.recv_alist w.numbered;
  })
]

live_sweep-SameIds : (ms : List Member) → SameIds ms (live_sweep ms).0
unfolding live_sweep
live_sweep-SameIds [] = tt
live_sweep-SameIds (m ∷ ms) = ground (arith, live_sweep-SameIds ms)

pulled_call-WellFormed :
    {as' : List Api} {d e : Daemon} {a : Api}
    → PullsApi d as' (pulled a e)
    → as' ≡ d.recv_alist
    → WellFormed [] d
    → WellFormed (a ∷ []) e
pulled_call-WellFormed (one_api b t m k n) h w = record {
  table = rw t w.table;
  balanced = b;
  numbered = rw (n, k, h) w.numbered;
}

pulled_msg-WellFormed :
    {hand : List Api} {ms : List Msg} {d e : Daemon} {m : Msg}
    → PullsMsg d ms (pulled m e)
    → WellFormed hand d
    → WellFormed hand e
pulled_msg-WellFormed (one_msg b t m k n) w = record {
  table = rw t w.table;
  balanced = b;
  numbered = rw (n, k, m) w.numbered;
}

abbrev Holds : System → Type 0
Holds s = WellFormed s.in_hand s.daemon

Step-Holds : {s t : System} {es : List Effect} → Step s es t → Holds s → Holds t
unfolding analysis_core msg_probe api_timeout_check live_check
Step-Holds (packet {d} {as'} host p ok h) w =
    subst (Leaves (WellFormed as')) h (handle-Leaves as' host p.send_pid p.request d w ok)
Step-Holds (pull_call {d} h) w =
    pulled_call-WellFormed (subst (PullsApi d d.recv_alist) h (api_pull-PullsApi d w.balanced)) refl
      w
Step-Holds (distribute_call {d} a) w =
    subst (λ r. WellFormed [] r.0) (sym (api_probe_lem a d w.table))
      (routed-WellFormed a d (find_live a.pname d.mlist) w)
Step-Holds (distribute_message {d} m h) w =
    pulled_msg-WellFormed (subst (PullsMsg d d.recv_mlist) h (msg_pull-PullsMsg d w.balanced)) w
Step-Holds (tick_calls {d} {as'}) w = with_acks _ w (
    Rises-sweep 0 d.api_public_magic_number d.mlist d.recv_acklist (as' ++ d.recv_alist) w.numbered)
Step-Holds (tick_members {d}) w =
    with_table _ w (IsTable-SameIds d.mlist _ (live_sweep-SameIds d.mlist) w.table)

-- In every state that the daemon reaches from its start, by packets, pulls, distributions and
-- clock rounds in any order, no two processes share a pid or a name, each semaphore counts its
-- queue, and the magic numbers rise strictly along the waiting calls, the call in hand and the
-- queued calls, below the next number. Joins come only while every process is live, and with a
-- name shorter than its array.
pub Reach-WellFormed : {s : System} → Reach s → WellFormed s.in_hand s.daemon
Reach-WellFormed started = record {
  table = tt;
  balanced = record { msgs = refl; apis = refl };
  numbered = omega arith;
}
Reach-WellFormed (stepped r st) = Step-Holds st (Reach-WellFormed r)

-- In every state that the daemon reaches, where joins come only while every process is live and
-- with a name shorter than its array, let a process in the table that has the API report the
-- result of a waiting call, whichever it is, under its magic number and the id by which its
-- caller knows it. Then the result is sent under this id to the process that made the call, if
-- that is in the table, the call alone is removed from the waiting calls, and the report is
-- counted for its sender. The same report a second time finds no waiting call: it is counted for
-- its sender and logged as too late, and it sends nothing and changes nothing else.
pub Reach-finish_api :
    {s : System} (us : List Api) (a : Api) (vs : List Api) (host sender : ℕ) (r : Runtime)
    (m : Member)
    → Reach s
    → r.flag ≡ true
    → get_mlist_via_pid sender s.daemon.mlist ≡ some m
    → has_name r.msg_name m.api_list ≡ true
    → s.daemon.recv_acklist ≡ us ++ a ∷ vs
    → r.daemon_magic_number ≡ a.daemon_magic_number
    → r.caller_magic_number ≡ a.ack_id
    → (analysis_core host (report sender r) s.daemon
        ≡ done
            (record (reported sender r s.daemon) { recv_acklist = us ++ vs })
            (answer a.send_pid (ack_for a r) (reported sender r s.daemon).mlist
              ++ finish_note sender r ∷ []))
      × (analysis_core host
            (report sender r)
            (record (reported sender r s.daemon) { recv_acklist = us ++ vs })
          ≡ done
              (reported sender r (record (reported sender r s.daemon) { recv_acklist = us ++ vs }))
              (logged progress err sender (api_finish_late r.msg_name) ∷ []))
Reach-finish_api {s} us a vs host sender r m reach flag from has wait same known =
    let d = s.daemon in
    let own = Rises-own 0 d.api_public_magic_number us a vs (s.in_hand ++ d.recv_alist) (
      subst (λ as'. Rises 0 d.api_public_magic_number (as' ++ (s.in_hand ++ d.recv_alist))) wait
        (Reach-WellFormed reach).numbered) in
    let e = record (reported sender r d) { recv_acklist = us ++ vs } in
    let from' = get-counted_api sender r d.mlist m from in
    let has' = has_name-add_run r.msg_name r.msg_name r.ptime m.api_list ∙ has in
    (
      analysis_core-answer host sender r us a vs d m flag from has wait same known own.0,
      analysis_core-finish_api host sender r e (counted_api r m) flag from' has'
          ∙ finish_api-late sender r (reported sender r e) (
              subst (λ n. Fresh n (us ++ vs)) (sym same)
                (All-append (λ b. b.daemon_magic_number ≢ a.daemon_magic_number) us vs own.0
                  own.1)),
    )
