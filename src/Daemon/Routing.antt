-- ===== src/Daemon/Routing.antt =====
-- What the distributing threads of src/easyipc_daemon.c do with a call or a message, told from the
-- table: a call goes to the process of the wanted name if that is live and has the API, a message to
-- each live process that has registered for it.
use easyipc.Base.{
  Bool, true, false, ◌&&◌, ◌||◌, not, Option, none, some, List, [], ◌∷◌, ◌++◌, ◌≡◌, refl, sym, ◌∙◌,
  ap, arith, any, if◌then◌else◌, append-nil,
}
use easyipc.Base.Text.{Text, str_eq, str_eq_iff, codes}
use easyipc.Wire.{
  Msg, Api, Effect, logged, progress, err, warn, info, program_miss, provider_miss, msg_sent_to,
  msg_receiver_miss, cantfind_program, cantfind_api,
}
use easyipc.Registry.Unique.{IsTable, has_pname}
use easyipc.Registry.{Entry, Member, get_pname_via_pid, has_name}
use easyipc.Daemon.{Daemon, api_ack_list_push, relay_api, relay_msg, answer, plain_ack}
use easyipc.Daemon.Probe.{ApiScan, serve, api_scan, api_probe, takes_msg, msg_scan, msg_probe}

-- The member of a name, if it is live.
unfoldable pub find_live : Text → List Member → Option Member
find_live name [] = none
find_live name (m ∷ ms) =
    if str_eq m.pname name then (if m.suspended then none else some m) else find_live name ms

abbrev nothing : ApiScan
nothing = record { program = false; provider = false; effects = []; waits = [] }

abbrev pub served : Api → Option Member → ApiScan
served p none = nothing
served p (some m) = serve p m nothing

api_scan-nothing :
    (p : Api) (skip : Bool) (ms : List Member)
    → has_pname p.pname ms ≡ false
    → api_scan p skip ms ≡ nothing
unfolding api_scan
api_scan-nothing p skip [] h = refl
api_scan-nothing p skip (m ∷ ms) h = ground (arith, api_scan-nothing p false ms)

has_pname-same :
    (a b : Text) (ms : List Member) → str_eq a b ≡ true → has_pname b ms ≡ has_pname a ms
has_pname-same a b ms h = ap (λ n. has_pname n ms) (sym ((str_eq_iff a b).0 h))

-- The loop serves the live member of the wanted name and nobody else.
api_scan-served :
    (p : Api) (ms : List Member)
    → IsTable ms
    → api_scan p false ms ≡ served p (find_live p.pname ms)
unfolding api_scan find_live
api_scan-served p [] t = refl
api_scan-served p (m ∷ ms) t = ground (
  arith,
  has_pname-same m.pname p.pname ms,
  api_scan-nothing p true ms,
  api_scan-nothing p false ms,
  api_scan-served p ms t.2,
)

-- The caller's answer and the log record of a call that finds no program.
abbrev pub no_program : Api → Daemon → List Effect
no_program p d =
    answer p.send_pid (plain_ack p cantfind_program) d.mlist
    ++ logged progress err p.send_pid (program_miss (get_pname_via_pid p.send_pid d.mlist) p.pname)
      ∷ []

-- The caller's answer and the log record of a call that finds its program without the API.
abbrev pub no_provider : Api → Daemon → List Effect
no_provider p d =
    answer p.send_pid (plain_ack p cantfind_api) d.mlist
    ++ logged progress err p.send_pid
        (provider_miss (get_pname_via_pid p.send_pid d.mlist) p.api_name)
      ∷ []

abbrev pub routed : Api → Daemon → Option Member → Daemon × List Effect
routed p d none = (d, no_program p d)
routed p d (some m) =
    if has_name p.api_name m.api_list
    then (api_ack_list_push p d, relay_api m p ∷ [])
    else (d, no_provider p d)

abbrev unscanned : Api → Daemon → ApiScan → Daemon × List Effect
unscanned p d r = (
  record d { recv_acklist = d.recv_acklist ++ r.waits },
  r.effects
      ++ (if not r.program
          then no_program p d
          else (if not r.provider then no_provider p d else [])),
)

api_probe-unscanned :
    (p : Api) (d : Daemon) → api_probe p d ≡ unscanned p d (api_scan p false d.mlist)
unfolding api_probe
api_probe-unscanned p d = refl

unscanned-routed :
    (p : Api) (d : Daemon) (o : Option Member) → unscanned p d (served p o) ≡ routed p d o
unfolding api_ack_list_push
unscanned-routed p d none = rw (append-nil d.recv_acklist)
unscanned-routed p d (some m) = ground (arith, append-nil d.recv_acklist)

-- Where pids and names are distinct, a call is relayed to the live process of the wanted name if
-- it has the API, and to nobody else, and then waits for its answer. If there is no such
-- process, or it lacks the API, the caller, if it is in the table, is told which of the two, a
-- record is logged, and the state is as it was.
pub api_probe_lem :
    (p : Api) (d : Daemon)
    → IsTable d.mlist
    → api_probe p d ≡ routed p d (find_live p.pname d.mlist)
api_probe_lem p d t =
    api_probe-unscanned p d
    ∙ ap (unscanned p d) (api_scan-served p d.mlist t)
    ∙ unscanned-routed p d (find_live p.pname d.mlist)

-- The live members that have registered for the message, or for every message.
unfoldable pub receivers : Msg → List Member → List Member
receivers p [] = []
receivers p (m ∷ ms) =
    if not m.suspended
      && any (λ e. str_eq p.msg_name e.msg_name || str_eq e.msg_name (codes "*")) m.pmsg_list
    then m ∷ receivers p ms
    else receivers p ms

-- The datagram to one receiver, with its log record.
abbrev pub deliveries : Msg → List Member → List Effect
deliveries p [] = []
deliveries p (m ∷ ms) =
    relay_msg m p
    ∷ logged progress info p.send_pid (msg_sent_to p.msg_name m.pname)
    ∷ deliveries p ms

abbrev pub is_empty : List Member → Bool
is_empty [] = true
is_empty (m ∷ ms) = false

takes_msg-any :
    (name : Text) (es : List Entry)
    → takes_msg name es ≡ any (λ e. str_eq name e.msg_name || str_eq e.msg_name (codes "*")) es
unfolding takes_msg
takes_msg-any name [] = refl
takes_msg-any name (e ∷ es) = ground (arith, takes_msg-any name es)

msg_scan-deliveries :
    (p : Msg) (ms : List Member)
    → msg_scan p ms ≡ (not (is_empty (receivers p ms)), deliveries p (receivers p ms))
unfolding msg_scan receivers
msg_scan-deliveries p [] = refl
msg_scan-deliveries p (m ∷ ms) =
    ground (arith, msg_scan-deliveries p ms, takes_msg-any p.msg_name m.pmsg_list)

abbrev pub miss : Msg → List Effect
miss p = logged progress warn p.send_pid (msg_receiver_miss p.msg_name) ∷ []

abbrev flagged : Msg → Bool × List Effect → List Effect
flagged p (flag, es) = if flag then es else es ++ miss p

flagged-deliveries :
    (p : Msg) (rs : List Member)
    → flagged p (not (is_empty rs), deliveries p rs)
      ≡ (if is_empty rs then miss p else deliveries p rs)
flagged-deliveries p [] = refl
flagged-deliveries p (m ∷ ms) = refl

msg_probe-flagged : (p : Msg) (d : Daemon) → msg_probe p d ≡ (d, flagged p (msg_scan p d.mlist))
unfolding msg_probe
msg_probe-flagged p d = refl

-- A message is relayed to every live process that has registered for its name or for "*", once
-- to each and in the order of the table, and to nobody else, with a record for each. If there is
-- none, one record says so. The state does not change.
pub msg_probe_lem :
    (p : Msg) (d : Daemon)
    → msg_probe p d
      ≡ (d, if is_empty (receivers p d.mlist) then miss p else deliveries p (receivers p d.mlist))
msg_probe_lem p d =
    msg_probe-flagged p d
    ∙ ap (λ r. (d, flagged p r)) (msg_scan-deliveries p d.mlist)
    ∙ ap (λ es. (d, es)) (flagged-deliveries p (receivers p d.mlist))
