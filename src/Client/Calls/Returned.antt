-- ===== src/Client/Calls/Returned.antt =====
-- A call from end to end: from `ipc_call_api` of src/easyipc_support.c through the daemon of
-- src/easyipc_daemon.c to the provider's function, and its result back to the caller.
use easyipc.Base.{
  ℕ, ◌+◌, ◌<◌, true, false, none, some, List, [], ◌∷◌, ◌++◌, ◌≡◌, refl, ap, sym, subst, ◌∙◌, arith,
  any, if◌then◌else◌,
}
use easyipc.Base.Int.{ℤ}
use easyipc.Base.Text.{Text, str_eq, snprintf, snprintf-of_lt, length-snprintf}
use easyipc.Time.{Timespec}
use easyipc.Wire.{
  Api, Ack, ApiRet, Runtime, Packet, Request, Effect, logged, progress, info, api_called,
  api_ack_relay, api_call, api_runtime,
}
use easyipc.Registry.{
  Member, has_name, get_mlist_via_pid, get_pname_via_pid, update_via_pid, msg_max_size,
}
use easyipc.Registry.Unique.{IsTable}
use easyipc.Daemon.{Daemon, answer, api_ack_relay_to, api_push, relay_api, api_ack_list_push}
use easyipc.Daemon.Probe.{api_probe}
use easyipc.Daemon.Routing.{find_live, routed, api_probe_lem}
use easyipc.Daemon.Analysis.{done, analysis_core, on_api_call, count_sent, counted_api}
use easyipc.Daemon.Answers.{Fresh, finish_note, report, reported, analysis_core-answer}
use easyipc.Client.{Client, ApiHandler, Struct, data_to_daemon, request_size, ipc_packet}
use easyipc.Client.Receive.{Action, sends, runs_api, recv_analysis, reply, runtime_start, callreal}
use easyipc.Client.Calls.{
  api_of, call_api, call_result, is_answer, ack_of, IsBelow, recv_analysis-call_api,
}

-- The packet of a call.
abbrev pub call_packet : Client → Api → Packet
call_packet c a = record { send_pid = c.pid; request = api_call a }

-- The call under the daemon's next magic number.
abbrev pub queued : Daemon → Api → Api
queued d a = record a { daemon_magic_number = d.api_public_magic_number }

-- The daemon once a call of a process is counted.
abbrev pub called : ℕ → Daemon → Daemon
called pid d = record d {
  mlist = update_via_pid pid count_sent d.mlist;
  api_public_magic_number = d.api_public_magic_number + 1;
}

abbrev pub call_note : ℕ → Api → Daemon → Effect
call_note pid a d =
    logged progress info pid (api_called (get_pname_via_pid a.send_pid d.mlist) a.pname a.api_name)

-- The first entry of that name is the one given.
pub record Offers (name : Text) (hs : List ApiHandler) (h : ApiHandler) : Type 0 where
  pub before : List ApiHandler
  pub behind : List ApiHandler
  pub split : hs ≡ before ++ h ∷ behind
  pub others : any (λ g. str_eq g.msg_name name) before ≡ false
  pub hit : str_eq h.msg_name name ≡ true

-- A report is counted without a change to where answers go.
answer-reported :
    (pid : ℕ) (k : Ack) (sender : ℕ) (r : Runtime) (ms : List Member) (m : Member)
    → get_mlist_via_pid pid ms ≡ some m
    → answer pid k (update_via_pid sender (counted_api r) ms) ≡ api_ack_relay_to m k ∷ []
unfolding answer get_mlist_via_pid update_via_pid api_ack_relay_to
answer-reported pid k sender r [] m h = ground (arith, h)
answer-reported pid k sender r (n ∷ ms) m h = ground (arith, h, answer-reported pid k sender r ms m)

snprintf-snprintf : (n : ℕ) (s : Text) → 0 < n → snprintf n (snprintf n s) ≡ snprintf n s
snprintf-snprintf n s h = snprintf-of_lt n (snprintf n s) (length-snprintf n s h)

routed-served :
    (a : Api) (e : Daemon) (m : Member)
    → find_live a.pname e.mlist ≡ some m
    → has_name a.api_name m.api_list ≡ true
    → routed a e (find_live a.pname e.mlist)
      ≡ (record e { recv_acklist = e.recv_acklist ++ a ∷ [] }, relay_api m a ∷ [])
unfolding api_ack_list_push
routed-served a e m found has = rw (found, has) refl

analysis_core-api_call :
    (host : ℕ) (c : Client) (b : Api) (d : Daemon) (i : Member)
    → get_mlist_via_pid c.pid d.mlist ≡ some i
    → analysis_core host (call_packet c b) d
      ≡ done
          (api_push (queued d b) (called c.pid d))
          (call_note c.pid (queued d b) (called c.pid d) ∷ [])
unfolding analysis_core on_api_call
analysis_core-api_call host c b d i known = rw (on_api_call, known) refl

-- The caller, the name and the number of a call.
api_of_ids :
    (pname name : Text) (data' : List ℕ) (timeout : ℤ) (c : Client) (d : Daemon) (a : Api)
    → a ≡ queued d (api_of pname name data' timeout c)
    → (a.ack_id ≡ c.api_ack_magic_num)
      × (a.send_pid ≡ c.pid)
      × (snprintf msg_max_size a.api_name ≡ a.api_name)
unfolding api_of
api_of_ids pname name data' timeout c d a is = (
  ap (λ b. b.ack_id) is,
  ap (λ b. b.send_pid) is,
  subst (λ b. snprintf msg_max_size b.api_name ≡ b.api_name) (sym is)
      (snprintf-snprintf msg_max_size name (omega arith)),
)

-- The daemon answers a waiting call on the report of a process that has the API.
analysis_core-reply :
    (host sender : ℕ) (start end : Timespec) (r : ApiRet) (out : List ℕ) (us : List Api) (a : Api)
    (vs : List Api) (f : Daemon) (m n : Member)
    → f.recv_acklist ≡ us ++ a ∷ vs
    → Fresh a.daemon_magic_number us
    → get_mlist_via_pid a.send_pid f.mlist ≡ some m
    → get_mlist_via_pid sender f.mlist ≡ some n
    → has_name (snprintf msg_max_size a.api_name) n.api_list ≡ true
    → analysis_core host (report sender (reply a start end r out)) f
      ≡ done
          (record (reported sender (reply a start end r out) f) { recv_acklist = us ++ vs })
          (api_ack_relay_to m (ack_of a r out) ∷ finish_note sender (reply a start end r out) ∷ [])
analysis_core-reply host sender start end r out us a vs f m n wait fresh caller provider has =
    let t = reply a start end r out in
    analysis_core-answer host sender t us a vs f n refl provider has wait refl refl fresh
    ∙ ap
        (λ es.
          done (record (reported sender t f) { recv_acklist = us ++ vs })
            (es ++ finish_note sender t ∷ []))
        (answer-reported a.send_pid (ack_of a r out) sender t f.mlist m caller)

module _ (sizeof : Struct → ℕ) (packet_max : ℕ) where
  data_to_daemon-fits :
      (c : Client) (q : Request)
      → sizeof ipc_packet + request_size sizeof q < packet_max
      → data_to_daemon sizeof packet_max c q ≡ record { send_pid = c.pid; request = q } ∷ []
  unfolding data_to_daemon
  data_to_daemon-fits c q h = ground arith

  module _ (clock : Timespec × Timespec) (apply : ℕ → Text → List ℕ → ℤ → ApiRet × List ℕ) where
    -- What the provider's thread does on a call, with a result that its packet can carry.
    abbrev pub answering : Client → Api → ApiHandler → ApiRet → List ℕ → List Action
    answering q a h r out =
        sends (data_to_daemon sizeof packet_max q (api_runtime (runtime_start a.api_name clock.0)))
        ∷ runs_api h.fun a.api_name a.payload a.daemon_count_number
        ∷ sends (report q.pid (reply a clock.0 clock.1 r out) ∷ [])
        ∷ []

    callreal-answering :
        (q : Client) (a : Api) (before : List ApiHandler) (h : ApiHandler)
        (behind : List ApiHandler) (r : ApiRet) (out : List ℕ)
        → any (λ g. str_eq g.msg_name a.api_name) before ≡ false
        → str_eq h.msg_name a.api_name ≡ true
        → apply h.fun a.api_name a.payload a.daemon_count_number ≡ (r, out)
        → sizeof ipc_packet + request_size sizeof (api_runtime (reply a clock.0 clock.1 r out))
          < packet_max
        → callreal sizeof packet_max clock apply q a (before ++ h ∷ behind) ≡ answering q a h r out
    unfolding callreal
    callreal-answering q a [] h behind r out others hit returns fits =
        rw (hit, returns, data_to_daemon-fits q (api_runtime (reply a clock.0 clock.1 r out)) fits)
          refl
    callreal-answering q a (g ∷ before) h behind r out others hit returns fits =
        let miss : str_eq g.msg_name a.api_name ≡ false = ground (arith, others) in
        rw miss
          (callreal-answering q a before h behind r out (ground (arith, others)) hit returns fits)

    -- A call from end to end. A client whose waiting ids are below its counter and whose call
    -- fits the packet limit sends one packet. The daemon, with the client in its table, queues
    -- the call that this packet carries, under its next magic number. When the call is
    -- distributed, in a table with distinct pids and names where the wanted program is live and
    -- has the API, it is relayed to that program and waits. The provider runs the first function
    -- it has of that name, with the call's data and time, between two reports, of which the
    -- second, within the packet limit, carries what the function returned. When that report
    -- arrives, with the client and the provider in the table, the provider still having the API,
    -- and the call waiting under a magic number that no call before it in the list has, the
    -- daemon sends the result to the client and keeps the call no longer. The answer to the
    -- client that has just made the call wakes this call alone, and `ipc_call_api`, for a caller
    -- that asks for data, returns what the function returned, with its data if the result is
    -- success or failure and without it otherwise.
    pub call_api-callreal :
        (pname name : Text) (data' : List ℕ) (timeout : ℤ) (c : Client) (d : Daemon) (i : Member)
        → IsBelow c
        → sizeof ipc_packet + request_size sizeof (api_call (api_of pname name data' timeout c))
          < packet_max
        → get_mlist_via_pid c.pid d.mlist ≡ some i
        → (a : Api) → a ≡ queued d (api_of pname name data' timeout c)
        → (e : Daemon) (p : Member) → IsTable e.mlist
        → find_live a.pname e.mlist ≡ some p
        → has_name a.api_name p.api_list ≡ true
        → (q : Client) (h : ApiHandler) → Offers a.api_name q.api_list h
        → (r : ApiRet) (out : List ℕ)
        → apply h.fun a.api_name a.payload a.daemon_count_number ≡ (r, out)
        → sizeof ipc_packet + request_size sizeof (api_runtime (reply a clock.0 clock.1 r out))
          < packet_max
        → (f : Daemon) (us vs : List Api) (m n : Member) → f.recv_acklist ≡ us ++ a ∷ vs
        → Fresh a.daemon_magic_number us
        → get_mlist_via_pid c.pid f.mlist ≡ some m
        → get_mlist_via_pid q.pid f.mlist ≡ some n
        → has_name a.api_name n.api_list ≡ true
        → (host : ℕ)
        → ((call_api sizeof packet_max pname name data' timeout c).1
            ≡ call_packet c (api_of pname name data' timeout c) ∷ [])
          × (analysis_core host (call_packet c (api_of pname name data' timeout c)) d
              ≡ done (api_push a (called c.pid d)) (call_note c.pid a (called c.pid d) ∷ []))
          × (api_probe a e
              ≡ (record e { recv_acklist = e.recv_acklist ++ a ∷ [] }, relay_api p a ∷ []))
          × (callreal sizeof packet_max clock apply q a q.api_list ≡ answering q a h r out)
          × (analysis_core host (report q.pid (reply a clock.0 clock.1 r out)) f
              ≡ done
                  (record (reported q.pid (reply a clock.0 clock.1 r out) f) {
                    recv_acklist = us ++ vs;
                  })
                  (api_ack_relay_to m (ack_of a r out)
                    ∷ finish_note q.pid (reply a clock.0 clock.1 r out)
                    ∷ []))
          × (recv_analysis
                (api_ack_relay (ack_of a r out))
                (call_api sizeof packet_max pname name data' timeout c).0
              ≡ record c {
                api_ack_magic_num = c.api_ack_magic_num + 1;
                woken = c.woken ++ ack_of a r out ∷ [];
              })
          × (call_result true (ack_of a r out) ≡ (r, if is_answer r then some out else none))
    unfolding call_api call_result
    call_api-callreal pname name data' timeout c d i below fits known a is e p table found offers q
          h o r out returns fits' f us vs m n wait fresh caller provider has host =
        let ids = api_of_ids pname name data' timeout c d a is in
        (
          data_to_daemon-fits c (api_call (api_of pname name data' timeout c)) fits,
          subst
              (λ b.
                analysis_core host (call_packet c (api_of pname name data' timeout c)) d
                ≡ done (api_push b (called c.pid d)) (call_note c.pid b (called c.pid d) ∷ []))
              (sym is)
              (analysis_core-api_call host c (api_of pname name data' timeout c) d i known),
          api_probe_lem a e table ∙ routed-served a e p found offers,
          ap (callreal sizeof packet_max clock apply q a) o.split
              ∙ callreal-answering q a o.before h o.behind r out o.others o.hit returns fits',
          analysis_core-reply host q.pid clock.0 clock.1 r out us a vs f m n wait fresh
              (ap (λ pid. get_mlist_via_pid pid f.mlist) ids.1 ∙ caller) provider
              (ap (λ s. has_name s n.api_list) ids.2 ∙ has),
          recv_analysis-call_api sizeof packet_max pname name data' timeout c (ack_of a r out) below
              ids.0,
          ground arith,
        )
