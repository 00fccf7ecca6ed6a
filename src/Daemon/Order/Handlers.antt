-- ===== src/Daemon/Order/Handlers.antt =====
-- The packet handlers of src/easyipc_daemon.c keep its state in order: the table, the semaphores and the
-- magic numbers.
use easyipc.Base.{
  ℕ, ◌+◌, List, [], ◌∷◌, ◌++◌, ◌≡◌, refl, inl, inr, append_assoc, Option-cases, Bool-cases,
}
use easyipc.Wire.{
  JoinInfo, Msg, Api, Runtime, Request, api_register, msg_register, api_unregister, msg_unregister,
  process_join, process_exit, process_live, process_hangup, daemon_syscmd, api_call, msg_send,
  api_runtime, msg_runtime, process_log, unknown,
}
use easyipc.Registry.{
  Member, JoinResult, join_refused, join_accepted, join_undefined, join, exit, update_via_pid,
  has_name, get_mlist_via_pid,
}
use easyipc.Registry.Unique.{
  IsTable, register_api-IsTable, register_msg-IsTable, unregister_api-IsTable,
  unregister_msg-IsTable, update_via_pid-IsTable, remove-IsTable,
}
use easyipc.Registry.Join.{join-IsTable}
use easyipc.Daemon.{Daemon, api_push, msg_push}
use easyipc.Daemon.Queues.{IsBalanced, api_push-IsBalanced, msg_push-IsBalanced}
use easyipc.Daemon.Analysis.{
  Outcome, done, undefined, joined_outcome, on_join, on_exit, on_live, on_hangup, on_daemon_syscmd,
  on_api_call, on_msg_send, on_api_runtime, on_msg_runtime, finish_api, finish_api_miss, take_call,
  counted_api, counted_msg, count_sent, revive, handle,
}
use easyipc.Daemon.Order.{Allowed}
use easyipc.Daemon.Order.Numbers.{Rises, Rises-snoc, Rises-take}

-- The daemon's state beside the calls in hand.
pub record WellFormed (hand : List Api) (d : Daemon) : Type 0 where
  pub table : IsTable d.mlist
  pub balanced : IsBalanced d
  pub numbered : Rises 0 d.api_public_magic_number (d.recv_acklist ++ (hand ++ d.recv_alist))

-- The condition on the state after a handler, if it leaves one.
abbrev pub Leaves : (Daemon → Type 0) → Outcome → Type 0
Leaves P (done e es) = P e
Leaves P undefined = Unit

pub with_table :
    {hand : List Api} {d : Daemon} (ms : List Member)
    → WellFormed hand d
    → IsTable ms
    → WellFormed hand (record d { mlist = ms })
with_table ms w t = record {
  table = t;
  balanced = record { msgs = w.balanced.msgs; apis = w.balanced.apis };
  numbered = w.numbered;
}

pub with_acks :
    {hand : List Api} {d : Daemon} (as' : List Api)
    → WellFormed hand d
    → Rises 0 d.api_public_magic_number (as' ++ (hand ++ d.recv_alist))
    → WellFormed hand (record d { recv_acklist = as' })
with_acks as' w r = record {
  table = w.table;
  balanced = record { msgs = w.balanced.msgs; apis = w.balanced.apis };
  numbered = r;
}

with_member :
    {hand : List Api} {d : Daemon} (pid : ℕ) (f : Member → Member)
    → ((m : Member) → (m.pid ≡ (f m).pid) × (m.pname ≡ (f m).pname))
    → WellFormed hand d
    → WellFormed hand (record d { mlist = update_via_pid pid f d.mlist })
with_member {hand} {d} pid f same w =
    with_table _ w (update_via_pid-IsTable pid f same d.mlist w.table)

joined-Leaves :
    (hand : List Api) (j : JoinInfo) (host : ℕ) (d : Daemon)
    → WellFormed hand d
    → Allowed (process_join j) d
    → (r : JoinResult) → join j host d.mlist ≡ r
    → Leaves (WellFormed hand) (joined_outcome j host d r)
unfolding joined_outcome
joined-Leaves hand j host d w ok (join_refused e) h = w
joined-Leaves hand j host d w ok (join_accepted ms e) h =
    with_table ms w (join-IsTable j host d.mlist ok.0 ok.1 w.table ms e h).0
joined-Leaves hand j host d w ok join_undefined h = tt

finish_api-Leaves :
    (hand : List Api) (sender : ℕ) (r : Runtime) (d : Daemon)
    → WellFormed hand d
    → Leaves (WellFormed hand) (finish_api sender r d)
unfolding finish_api
finish_api-Leaves hand sender r d w =
    elim (Option-cases (take_call r.daemon_magic_number d.recv_acklist)) [
      | inl e ↦ rw (finish_api, e) w
      | inr (q, e) ↦
          rw (finish_api, e)
            (with_acks q.1 w (
              Rises-take r.daemon_magic_number 0 d.api_public_magic_number d.recv_acklist
                (hand ++ d.recv_alist) q.0 q.1 e w.numbered))
    ]

finish_api_miss-Leaves :
    (hand : List Api) (sender : ℕ) (r : Runtime) (d : Daemon)
    → WellFormed hand d
    → Leaves (WellFormed hand) (finish_api_miss sender r d)
unfolding finish_api_miss
finish_api_miss-Leaves hand sender r d w = elim (Option-cases (get_mlist_via_pid sender d.mlist)) [
  | inl e ↦ rw (finish_api_miss, e) w
  | inr (m, e) ↦ rw (finish_api_miss, e) w
]

on_api_runtime-Leaves :
    (hand : List Api) (sender : ℕ) (r : Runtime) (d : Daemon)
    → WellFormed hand d
    → Leaves (WellFormed hand) (on_api_runtime sender r d)
unfolding on_api_runtime
on_api_runtime-Leaves hand sender r d w =
    let counted = with_member sender (counted_api r) (λ m. (refl, refl)) w in
    elim (Bool-cases r.flag) [
      | inr e ↦ rw (on_api_runtime, e) w
      | inl f ↦ elim (Option-cases (get_mlist_via_pid sender d.mlist)) [
        | inl e ↦ rw (on_api_runtime, f, e) (finish_api_miss-Leaves hand sender r d w)
        | inr (m, e) ↦ elim (Bool-cases (has_name r.msg_name m.api_list)) [
          | inl b ↦ rw (on_api_runtime, f, e, b) (finish_api-Leaves hand sender r _ counted)
          | inr b ↦ rw (on_api_runtime, f, e, b) (finish_api_miss-Leaves hand sender r _ counted)
        ]
      ]
    ]

on_msg_runtime-Leaves :
    (hand : List Api) (sender : ℕ) (r : Runtime) (d : Daemon)
    → WellFormed hand d
    → Leaves (WellFormed hand) (on_msg_runtime sender r d)
unfolding on_msg_runtime
on_msg_runtime-Leaves hand sender r d w = elim (Bool-cases r.flag) [
  | inr e ↦ rw (on_msg_runtime, e) w
  | inl f ↦ elim (Option-cases (get_mlist_via_pid sender d.mlist)) [
    | inl e ↦ rw (on_msg_runtime, f, e) w
    | inr (m, e) ↦
        rw (on_msg_runtime, f, e) (with_member sender (counted_msg r) (λ m. (refl, refl)) w)
  ]
]

with_call :
    {hand : List Api} {d : Daemon} (a : Api)
    → WellFormed hand d
    → a.daemon_magic_number ≡ d.api_public_magic_number
    → WellFormed hand
        (api_push a (record d { api_public_magic_number = d.api_public_magic_number + 1 }))
unfolding api_push
with_call {hand} {d} a w h = record {
  table = w.table;
  balanced = api_push-IsBalanced a (record { msgs = w.balanced.msgs; apis = w.balanced.apis });
  numbered =
      rw⁻¹
        (
          append_assoc hand d.recv_alist (a ∷ []),
          append_assoc d.recv_acklist (hand ++ d.recv_alist) (a ∷ []),
        )
        (Rises-snoc 0 d.api_public_magic_number (d.recv_acklist ++ (hand ++ d.recv_alist)) a
          w.numbered h);
}

on_api_call-Leaves :
    (hand : List Api) (sender : ℕ) (a : Api) (d : Daemon)
    → WellFormed hand d
    → Leaves (WellFormed hand) (on_api_call sender a d)
unfolding on_api_call
on_api_call-Leaves hand sender a d w = elim (Option-cases (get_mlist_via_pid sender d.mlist)) [
  | inl e ↦ rw (on_api_call, e) w
  | inr (m, e) ↦
      rw (on_api_call, e) (with_call _ (with_member sender count_sent (λ m. (refl, refl)) w) refl)
]

on_msg_send-Leaves :
    (hand : List Api) (sender : ℕ) (m : Msg) (d : Daemon)
    → WellFormed hand d
    → Leaves (WellFormed hand) (on_msg_send sender m d)
unfolding on_msg_send msg_push
on_msg_send-Leaves hand sender m d w =
    let v = with_member sender count_sent (λ m. (refl, refl)) w in
    elim (Option-cases (get_mlist_via_pid sender d.mlist)) [
      | inl e ↦ rw (on_msg_send, e) w
      | inr (n, e) ↦
          rw (on_msg_send, e)
            (record {
              table = v.table;
              balanced = msg_push-IsBalanced m v.balanced;
              numbered = v.numbered;
            })
    ]

pub handle-Leaves :
    (hand : List Api) (host sender : ℕ) (q : Request) (d : Daemon)
    → WellFormed hand d
    → Allowed q d
    → Leaves (WellFormed hand) (handle host sender q d)
unfolding on_join on_exit on_live on_hangup on_daemon_syscmd exit
handle-Leaves hand host sender (api_register r) d w ok =
    with_table _ w (register_api-IsTable r d.mlist w.table)
handle-Leaves hand host sender (msg_register r) d w ok =
    with_table _ w (register_msg-IsTable r d.mlist w.table)
handle-Leaves hand host sender (api_unregister r) d w ok =
    with_table _ w (unregister_api-IsTable r d.mlist w.table)
handle-Leaves hand host sender (msg_unregister r) d w ok =
    with_table _ w (unregister_msg-IsTable r d.mlist w.table)
handle-Leaves hand host sender (process_join j) d w ok =
    joined-Leaves hand j host d w ok (join j host d.mlist) refl
handle-Leaves hand host sender (process_exit j) d w ok =
    with_table _ w (remove-IsTable j.pid d.mlist w.table)
handle-Leaves hand host sender (process_live j) d w ok =
    with_member j.pid revive (λ m. (refl, refl)) w
handle-Leaves hand host sender (process_hangup j) d w ok =
    with_table _ w (remove-IsTable j.pid d.mlist w.table)
handle-Leaves hand host sender (daemon_syscmd i) d w ok = with_member i.pid _ (λ m. (refl, refl)) w
handle-Leaves hand host sender (api_call a) d w ok = on_api_call-Leaves hand sender a d w
handle-Leaves hand host sender (msg_send m) d w ok = on_msg_send-Leaves hand sender m d w
handle-Leaves hand host sender (api_runtime r) d w ok = on_api_runtime-Leaves hand sender r d w
handle-Leaves hand host sender (msg_runtime r) d w ok = on_msg_runtime-Leaves hand sender r d w
handle-Leaves hand host sender (process_log level text) d w ok = w
handle-Leaves hand host sender unknown d w ok = w
