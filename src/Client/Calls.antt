-- ===== src/Client/Calls.antt =====
-- A call of a client, `ipc_call_api` of src/easyipc_support.c, from its entry in the waiting list to
-- what it returns.
pub mod Returned
use easyipc.Base.{
  ℕ, zero, suc, ◌+◌, ◌<◌, ◌≤◌, Bool, true, false, ◌&&◌, not, Option, none, some, List, [], ◌∷◌,
  ◌++◌, ◌≡◌, ◌≢◌, refl, ap, ◌∙◌, arith, All, if◌then◌else◌, length,
}
use easyipc.Base.Int.{ℤ, pos, negsuc}
use easyipc.Base.Text.{Text, snprintf, nonempty}
use easyipc.Wire.{
  Api, Ack, ApiRet, ack_ok, ack_fail, in_param_error, Packet, api_ack_relay, api_call,
}
use easyipc.Registry.{msg_max_size, process_name_max_size}
use easyipc.Daemon.Sweep.{api_timeout_max}
use easyipc.Time.{Timespec}
use easyipc.Registry.{Member, get_mlist_via_pid}
use easyipc.Daemon.Analysis.{done, finish_api}
use easyipc.Daemon.Answers.{Fresh, finish_api_lem, finish_note}
use easyipc.Client.{Client, Struct, data_to_daemon, ipc_packet, ipc_api}
use easyipc.Client.Receive.{take_wait, take_ack, recv_analysis, reply}

-- A timeout of 0 is an endless one.
unfoldable pub count_number : ℤ → ℤ
count_number (pos zero) = pos api_timeout_max
count_number (pos (suc t)) = pos (suc t)
count_number (negsuc t) = negsuc t

-- The call that a client sends.
unfoldable pub api_of : Text → Text → List ℕ → ℤ → Client → Api
unfolding count_number
api_of pname name data' timeout c = record {
  pname = snprintf process_name_max_size pname;
  api_name = snprintf msg_max_size name;
  ack_id = c.api_ack_magic_num;
  daemon_magic_number = 0;
  daemon_count_number = count_number timeout;
  send_pid = c.pid;
  payload = data';
}

module _ (sizeof : Struct → ℕ) (packet_max : ℕ) where
  -- `ipc_call_api`, up to its wait for the answer
  unfoldable pub call_api : Text → Text → List ℕ → ℤ → Client → Client × List Packet
  unfolding data_to_daemon api_of
  call_api pname name data' timeout c = (
    record c {
      api_ack_magic_num = c.api_ack_magic_num + 1;
      api_ack_wait_list = c.api_ack_wait_list ++ c.api_ack_magic_num ∷ [];
    },
    data_to_daemon sizeof packet_max c (api_call (api_of pname name data' timeout c)),
  )

-- The results that come with data.
unfoldable pub is_answer : ApiRet → Bool
is_answer ack_ok = true
is_answer ack_fail = true
is_answer _ = false

-- `ipc_call_api`, past its wait: the result, and the data if the caller asked for it and was given it.
unfoldable pub call_result : Bool → Ack → ApiRet × Option (List ℕ)
unfolding is_answer
call_result wants a =
    if nonempty a.ack_data && not wants
    then (in_param_error, none)
    else (if not (is_answer a.ack_result)
        then (a.ack_result, none)
        else (a.ack_result, if wants then some a.ack_data else none))

-- The answer to a call.
abbrev pub ack_of : Api → ApiRet → List ℕ → Ack
ack_of a r out = record { ack_id = a.ack_id; ack_result = r; ack_data = out }

-- The ids of the waiting calls are below the next one.
abbrev pub IsBelow : Client → Type 0
IsBelow c = All (λ id. id < c.api_ack_magic_num) c.api_ack_wait_list

take_wait-last :
    (id : ℕ) (ws : List ℕ) → All (λ w. w < id) ws → take_wait id (ws ++ id ∷ []) ≡ some ws
unfolding take_wait
take_wait-last id [] h = ground arith
take_wait-last id (w ∷ ws) h = ground (arith, take_wait-last id ws h.1, h.0)

take_wait-absent : (id : ℕ) (ws : List ℕ) → All (λ w. w ≢ id) ws → take_wait id ws ≡ none
unfolding take_wait
take_wait-absent id [] h = refl
take_wait-absent id (w ∷ ws) h = ground (arith, take_wait-absent id ws h.1, h.0)

take_ack-some :
    (a : Ack) (c : Client) (ws : List ℕ)
    → take_wait a.ack_id c.api_ack_wait_list ≡ some ws
    → recv_analysis (api_ack_relay a) c
      ≡ record c { api_ack_wait_list = ws; woken = c.woken ++ a ∷ [] }
unfolding recv_analysis take_ack
take_ack-some a c ws e = rw (take_ack, e)

-- An answer whose id no waiting call of the client has changes nothing.
pub recv_analysis-late :
    (a : Ack) (c : Client)
    → All (λ w. w ≢ a.ack_id) c.api_ack_wait_list
    → recv_analysis (api_ack_relay a) c ≡ c
unfolding recv_analysis take_ack
recv_analysis-late a c h = rw (take_ack, take_wait-absent a.ack_id c.api_ack_wait_list h)

module _ (sizeof : Struct → ℕ) (packet_max : ℕ) where
  -- At a client whose waiting ids are below its counter, the answer to the call that it has just
  -- made wakes this call, with the answer's content, and leaves the calls that waited before it
  -- waiting.
  pub recv_analysis-call_api :
      (pname name : Text) (data' : List ℕ) (timeout : ℤ) (c : Client) (a : Ack)
      → IsBelow c
      → a.ack_id ≡ c.api_ack_magic_num
      → recv_analysis (api_ack_relay a) (call_api sizeof packet_max pname name data' timeout c).0
        ≡ record c { api_ack_magic_num = c.api_ack_magic_num + 1; woken = c.woken ++ a ∷ [] }
  unfolding call_api
  recv_analysis-call_api pname name data' timeout c a h e =
      take_ack-some a _ c.api_ack_wait_list
        (rw e (take_wait-last c.api_ack_magic_num c.api_ack_wait_list h))

  -- A call whose packet is not smaller than the configured maximum is not sent, and enters the
  -- waiting list all the same, whatever its timeout.
  pub call_api-too_large :
      (pname name : Text) (data' : List ℕ) (timeout : ℤ) (c : Client)
      → packet_max ≤ sizeof ipc_packet + (sizeof ipc_api + length data')
      → call_api sizeof packet_max pname name data' timeout c ≡ (
        record c {
          api_ack_magic_num = c.api_ack_magic_num + 1;
          api_ack_wait_list = c.api_ack_wait_list ++ c.api_ack_magic_num ∷ [];
        },
        [],
      )
  unfolding call_api data_to_daemon api_of
  call_api-too_large pname name data' timeout c h = ground arith
