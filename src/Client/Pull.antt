-- ===== src/Client/Pull.antt =====
-- The pulls of the two probing threads of a client, src/easyipc_support.c: `ipc_msg_recv_probe` and
-- `ipc_api_recv_probe`, from the semaphore to the item.
use easyipc.Base.{
  ℕ, zero, suc, List, [], ◌∷◌, ◌≡◌, refl, ap, sym, subst, ◌∙◌, arith, length, length-append,
}
use easyipc.Wire.{Msg, Api, Body, msg_relay, api_relay, api_ack_relay, join_ack, join_ack_fail}
use easyipc.Base.Text.{Text}
use easyipc.Client.{Client}
use easyipc.Client.Create.{new_client}
use easyipc.Client.Receive.{recv_analysis, msg_push, api_push, take_ack}

-- A thread waits at its semaphore, finds no item and goes on, has an item, or goes on without
-- unlocking the mutex, for which it and the receiving thread then wait for ever.
pub data Pull (A : Type 0) : Type 0 where
  waiting locked : Pull A
  missed : Client → Pull A
  pulled : A → Client → Pull A

msg_take : ℕ → List Msg → Client → Pull Msg
msg_take zero ms c = waiting
msg_take (suc s) [] c = missed (record c { msg_recv_sem = s })
msg_take (suc s) (m ∷ ms) c = pulled m (record c { msg_recv_sem = s; msg_recv_list = ms })

-- `ipc_msg_recv_probe`, up to the item
unfoldable pub msg_pull : Client → Pull Msg
unfolding msg_take
msg_pull c = msg_take c.msg_recv_sem c.msg_recv_list c

api_take : ℕ → List Api → Client → Pull Api
api_take zero as' c = waiting
api_take (suc s) [] c = locked
api_take (suc s) (a ∷ as') c = pulled a (record c { api_recv_sem = s; api_recv_list = as' })

-- `ipc_api_recv_probe`, up to the item
unfoldable pub api_pull : Client → Pull Api
unfolding api_take
api_pull c = api_take c.api_recv_sem c.api_recv_list c

-- The steps of a client's receiving and probing threads.
pub data Step : Client → Client → Type 0 where
  receives : (b : Body) (c : Client) → Step c (recv_analysis b c)
  pulls_msg : (m : Msg) (c d : Client) → msg_pull c ≡ pulled m d → Step c d
  pulls_api : (a : Api) (c d : Client) → api_pull c ≡ pulled a d → Step c d

-- A client comes from another by steps.
pub data Steps : Client → Client → Type 0 where
  begin : (c : Client) → Steps c c
  after : (c d e : Client) → Steps c d → Step d e → Steps c e

-- Each semaphore counts its queue.
pub record IsBalanced (c : Client) : Type 0 where
  pub msgs : c.msg_recv_sem ≡ length c.msg_recv_list
  pub apis : c.api_recv_sem ≡ length c.api_recv_list

recv_analysis-IsBalanced : (b : Body) (c : Client) → IsBalanced c → IsBalanced (recv_analysis b c)
unfolding recv_analysis msg_push api_push take_ack
recv_analysis-IsBalanced (msg_relay m) c is = record {
  msgs = omega (arith, is.msgs, length-append c.msg_recv_list (m ∷ []));
  apis = is.apis;
}
recv_analysis-IsBalanced (api_relay a) c is = record {
  msgs = is.msgs;
  apis = omega (arith, is.apis, length-append c.api_recv_list (a ∷ []));
}
recv_analysis-IsBalanced (api_ack_relay a) c is = record {
  msgs = ground (arith, is.msgs);
  apis = ground (arith, is.apis);
}
recv_analysis-IsBalanced join_ack c is = record { msgs = is.msgs; apis = is.apis }
recv_analysis-IsBalanced join_ack_fail c is = is

-- What a pull finds in a client whose semaphores count their queues.
abbrev pub next_msg : List Msg → Client → Pull Msg
next_msg [] c = waiting
next_msg (m ∷ ms) c = pulled m (record c { msg_recv_sem = length ms; msg_recv_list = ms })

abbrev pub next_api : List Api → Client → Pull Api
next_api [] c = waiting
next_api (a ∷ as') c = pulled a (record c { api_recv_sem = length as'; api_recv_list = as' })

msg_take-next : (ms : List Msg) (c : Client) → msg_take (length ms) ms c ≡ next_msg ms c
unfolding msg_take
msg_take-next [] c = refl
msg_take-next (m ∷ ms) c = refl

api_take-next : (as' : List Api) (c : Client) → api_take (length as') as' c ≡ next_api as' c
unfolding api_take
api_take-next [] c = refl
api_take-next (a ∷ as') c = refl

msg_pull-next : (c : Client) → IsBalanced c → msg_pull c ≡ next_msg c.msg_recv_list c
unfolding msg_pull
msg_pull-next c is =
    ap (λ s. msg_take s c.msg_recv_list c) is.msgs ∙ msg_take-next c.msg_recv_list c

api_pull-next : (c : Client) → IsBalanced c → api_pull c ≡ next_api c.api_recv_list c
unfolding api_pull
api_pull-next c is =
    ap (λ s. api_take s c.api_recv_list c) is.apis ∙ api_take-next c.api_recv_list c

-- The state behind a pull.
abbrev Behind : {A : Type 0} → Pull A → Type 0
Behind waiting = Unit
Behind locked = Unit
Behind (missed c) = Unit
Behind (pulled a c) = IsBalanced c

next_msg-Behind : (ms : List Msg) (c : Client) → IsBalanced c → Behind (next_msg ms c)
next_msg-Behind [] c is = tt
next_msg-Behind (m ∷ ms) c is = record { msgs = refl; apis = is.apis }

next_api-Behind : (as' : List Api) (c : Client) → IsBalanced c → Behind (next_api as' c)
next_api-Behind [] c is = tt
next_api-Behind (a ∷ as') c is = record { msgs = is.msgs; apis = refl }

Step-IsBalanced : {c d : Client} → Step c d → IsBalanced c → IsBalanced d
Step-IsBalanced (receives b c) is = recv_analysis-IsBalanced b c is
Step-IsBalanced (pulls_msg m c d e) is =
    subst Behind (sym (msg_pull-next c is) ∙ e) (next_msg-Behind c.msg_recv_list c is)
Step-IsBalanced (pulls_api a c d e) is =
    subst Behind (sym (api_pull-next c is) ∙ e) (next_api-Behind c.api_recv_list c is)

Steps-IsBalanced : {c d : Client} → Steps c d → IsBalanced c → IsBalanced d
Steps-IsBalanced (begin c) is = is
Steps-IsBalanced (after c d e ss s) is = Step-IsBalanced s (Steps-IsBalanced ss is)

new_client-IsBalanced : (pname : Text) (pid q r : ℕ) → IsBalanced (new_client pname pid q r)
unfolding new_client
new_client-IsBalanced pname pid q r = record { msgs = refl; apis = refl }

-- In every state that a new client reaches, by packets that it receives and pulls of its two
-- probing threads in any order, a probing thread waits if its queue is empty and otherwise takes
-- the first item of the queue; it never finds its queue empty behind its semaphore, where
-- `ipc_api_recv_probe` would keep its mutex.
pub Steps-pull :
    (pname : Text) (pid q r : ℕ) (c : Client)
    → Steps (new_client pname pid q r) c
    → (msg_pull c ≡ next_msg c.msg_recv_list c) × (api_pull c ≡ next_api c.api_recv_list c)
Steps-pull pname pid q r c ss =
    let is = Steps-IsBalanced ss (new_client-IsBalanced pname pid q r) in
    (msg_pull-next c is, api_pull-next c is)
