-- ===== src/Daemon/Queues.antt =====
-- The queues between the threads of src/easyipc_daemon.c: each semaphore counts its list, so that a
-- pull never goes on without an item, and items leave in the order in which they came.
use easyipc.Base.{ℕ, zero, suc, List, [], ◌∷◌, ◌≡◌, refl, arith, length, length-append}
use easyipc.Wire.{Msg, Api}
use easyipc.Daemon.{
  Daemon, Pull, waiting, pulled, msg_push, api_push, msg_take, msg_pull, api_take, api_pull,
}

pub record IsBalanced (d : Daemon) : Type 0 where
  pub msgs : d.msg_sem ≡ length d.recv_mlist
  pub apis : d.api_sem ≡ length d.recv_alist

pub msg_push-IsBalanced : (m : Msg) {d : Daemon} → IsBalanced d → IsBalanced (msg_push m d)
unfolding msg_push
msg_push-IsBalanced m {d} b = ground (arith, length-append d.recv_mlist (m ∷ []))

pub api_push-IsBalanced : (a : Api) {d : Daemon} → IsBalanced d → IsBalanced (api_push a d)
unfolding api_push
api_push-IsBalanced a {d} b = ground (arith, length-append d.recv_alist (a ∷ []))

-- What a pull of the first entry of the message queue gives: all else is as it was.
pub data PullsMsg (d : Daemon) : List Msg → Pull Msg → Type 0 where
  no_msg : PullsMsg d [] waiting
  one_msg :
      {m : Msg} {e : Daemon}
      → IsBalanced e
      → e.mlist ≡ d.mlist
      → e.recv_alist ≡ d.recv_alist
      → e.recv_acklist ≡ d.recv_acklist
      → e.api_public_magic_number ≡ d.api_public_magic_number
      → PullsMsg d (m ∷ e.recv_mlist) (pulled m e)

pub data PullsApi (d : Daemon) : List Api → Pull Api → Type 0 where
  no_api : PullsApi d [] waiting
  one_api :
      {a : Api} {e : Daemon}
      → IsBalanced e
      → e.mlist ≡ d.mlist
      → e.recv_mlist ≡ d.recv_mlist
      → e.recv_acklist ≡ d.recv_acklist
      → e.api_public_magic_number ≡ d.api_public_magic_number
      → PullsApi d (a ∷ e.recv_alist) (pulled a e)

msg_take-PullsMsg :
    (s : ℕ) (ms : List Msg) (d : Daemon)
    → s ≡ length ms
    → d.api_sem ≡ length d.recv_alist
    → PullsMsg d ms (msg_take s ms d)
unfolding msg_take
msg_take-PullsMsg zero [] d h b = no_msg
msg_take-PullsMsg zero (m ∷ ms) d h b = absurd (omega arith)
msg_take-PullsMsg (suc s) [] d h b = absurd (omega arith)
msg_take-PullsMsg (suc s) (m ∷ ms) d h b =
    one_msg (record { msgs = omega arith; apis = b }) refl refl refl refl

-- On a state whose semaphores count their queues, a pull of the message queue waits if the queue
-- is empty. Otherwise it takes the oldest message and leaves the rest of the queue and of the
-- state as it was, with semaphores that count their queues. It never returns an uninitialised
-- message.
pub msg_pull-PullsMsg : (d : Daemon) → IsBalanced d → PullsMsg d d.recv_mlist (msg_pull d)
unfolding msg_pull
msg_pull-PullsMsg d b = msg_take-PullsMsg d.msg_sem d.recv_mlist d b.msgs b.apis

api_take-PullsApi :
    (s : ℕ) (as' : List Api) (d : Daemon)
    → s ≡ length as'
    → d.msg_sem ≡ length d.recv_mlist
    → PullsApi d as' (api_take s as' d)
unfolding api_take
api_take-PullsApi zero [] d h b = no_api
api_take-PullsApi zero (a ∷ as') d h b = absurd (omega arith)
api_take-PullsApi (suc s) [] d h b = absurd (omega arith)
api_take-PullsApi (suc s) (a ∷ as') d h b =
    one_api (record { msgs = b; apis = omega arith }) refl refl refl refl

-- On a state whose semaphores count their queues, a pull of the call queue waits if the queue is
-- empty. Otherwise it takes the oldest call and leaves the rest of the queue and of the state as
-- it was, with semaphores that count their queues. It never returns an uninitialised call.
pub api_pull-PullsApi : (d : Daemon) → IsBalanced d → PullsApi d d.recv_alist (api_pull d)
unfolding api_pull
api_pull-PullsApi d b = api_take-PullsApi d.api_sem d.recv_alist d b.apis b.msgs
