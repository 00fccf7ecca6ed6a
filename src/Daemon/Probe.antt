-- ===== src/Daemon/Probe.antt =====
-- The two distributing threads of src/easyipc_daemon.c, `_ipcd_api_probe` and `_ipcd_msg_probe`: what
-- each does with one item that it has pulled.
use easyipc.Base.{Bool, true, false, ◌||◌, ◌&&◌, not, List, [], ◌∷◌, ◌++◌, if◌then◌else◌}
use easyipc.Base.Text.{Text, str_eq, codes}
use easyipc.Wire.{
  Msg, Api, Effect, logged, progress, err, warn, info, program_miss, provider_miss, msg_sent_to,
  msg_receiver_miss, cantfind_program, cantfind_api,
}
use easyipc.Registry.{Entry, Member, get_pname_via_pid, has_name}
use easyipc.Daemon.{Daemon, relay_api, relay_msg, answer, plain_ack}

-- What the loop over the table finds and does: `relay_prg_flag`, `relay_fun_flag`, the datagrams, and
-- the calls that it enters in `recv_acklist`.
pub record ApiScan : Type 0 where
  pub program : Bool
  pub provider : Bool
  pub effects : List Effect
  pub waits : List Api

-- One member that has the wanted name and is live.
abbrev pub serve : Api → Member → ApiScan → ApiScan
serve p m r =
    if has_name p.api_name m.api_list
    then record {
      program = true;
      provider = true;
      effects = relay_api m p ∷ r.effects;
      waits = p ∷ r.waits;
    }
    else record r { program = true }

-- The loop of `_ipcd_api_probe`. At a suspended member of the wanted name its index moves by two:
-- `skip` says that the present member is passed over.
unfoldable pub api_scan : Api → Bool → List Member → ApiScan
api_scan p skip [] = record { program = false; provider = false; effects = []; waits = [] }
api_scan p skip (m ∷ ms) =
    let named = not skip && str_eq m.pname p.pname in
    let r = api_scan p (named && m.suspended) ms in
    if named && not m.suspended then serve p m r else r

-- `_ipcd_api_probe`, the body of its loop after the pull.
unfoldable pub api_probe : Api → Daemon → Daemon × List Effect
unfolding api_scan
api_probe p d =
    let r = api_scan p false d.mlist in
    let caller = get_pname_via_pid p.send_pid d.mlist in
    let tail =
      if not r.program
      then answer p.send_pid (plain_ack p cantfind_program) d.mlist
        ++ logged progress err p.send_pid (program_miss caller p.pname) ∷ []
      else (if not r.provider
          then answer p.send_pid (plain_ack p cantfind_api) d.mlist
            ++ logged progress err p.send_pid (provider_miss caller p.api_name) ∷ []
          else []) in
    (record d { recv_acklist = d.recv_acklist ++ r.waits }, r.effects ++ tail)

-- A member takes a message under its name or under "*".
unfoldable pub takes_msg : Text → List Entry → Bool
takes_msg name [] = false
takes_msg name (e ∷ es) =
    if str_eq name e.msg_name || str_eq e.msg_name (codes "*") then true else takes_msg name es

-- The loop of `_ipcd_msg_probe`, with `relay_flag`.
unfoldable pub msg_scan : Msg → List Member → Bool × List Effect
msg_scan p [] = (false, [])
msg_scan p (m ∷ ms) =
    let (flag, es) = msg_scan p ms in
    if not m.suspended && takes_msg p.msg_name m.pmsg_list
    then (
      true,
      relay_msg m p ∷ logged progress info p.send_pid (msg_sent_to p.msg_name m.pname) ∷ es,
    )
    else (flag, es)

-- `_ipcd_msg_probe`, the body of its loop after the pull.
unfoldable pub msg_probe : Msg → Daemon → Daemon × List Effect
unfolding msg_scan
msg_probe p d =
    let (flag, es) = msg_scan p d.mlist in
    (
      d,
      if flag
          then es
          else es ++ logged progress warn p.send_pid (msg_receiver_miss p.msg_name) ∷ [],
    )
