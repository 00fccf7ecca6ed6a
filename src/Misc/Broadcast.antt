-- ===== src/Misc/Broadcast.antt =====
-- `ipcd_console_local_broadcast` of src/easyipc_misc.c, which sends what the daemon prints to the
-- console programs.
use easyipc.Base.{
  ℕ, zero, suc, inl, inr, Bool-cases, ◌*◌, Bool, true, false, List, [], ◌∷◌, ◌++◌, ◌≡◌, refl, arith,
  ◌==◌, if◌then◌else◌,
}
use easyipc.Base.Int.{ℤ, pos, negsuc, ltb_ℤ}
use easyipc.Base.Text.{Text, snprintf}
use easyipc.Log.{print_max_size}

-- The static sockets, `sock` and `sock_rpc`.
pub record Sockets : Type 0 where
  pub sock : ℤ
  pub sock_rpc : ℤ

-- Their values at the start.
abbrev pub no_sockets : Sockets
no_sockets = record { sock = negsuc 0; sock_rpc = negsuc 0 }

-- `sendto` of a text to a port of this machine, and the line about a socket that is not made.
pub data Sent : Type 0 where
  datagram : ℕ → Text → Sent
  socket_fail : Sent

abbrev pub rpc_port : ℕ
rpc_port = 50393

-- `IPC_CONSOLE_BROADCAST_PORT`
abbrev pub broadcast_port : ℕ
broadcast_port = 50392

abbrev is_fail : ℤ → Bool
is_fail (negsuc zero) = true
is_fail n = false

-- A socket that is there, or the one that `socket` gives: none if it gives -1, which the code
-- stores all the same.
unfoldable pub opened : ℤ → ℤ → ℤ
opened made sock = if ltb_ℤ (pos 0) sock then sock else made

-- The text, as far as it fits the buffer, on a socket above 0.
unfoldable pub sent_on : ℤ → ℕ → Text → List Sent
sent_on sock port text =
    if ltb_ℤ (pos 0) sock then datagram port (snprintf (print_max_size * 4) text) ∷ [] else []

-- The second half, for the listener of `eipcc_print_console_display`.
unfoldable pub on_console : ℕ → Text → ℤ → Sockets → List Sent × Sockets
unfolding opened sent_on
on_console printf_broadcast_flag text made s =
    let sock = opened made s.sock in
    let s1 : Sockets = record s { sock = sock } in
    if printf_broadcast_flag == 0
    then ([], s)
    else if is_fail sock
    then (socket_fail ∷ [], s1)
    else (sent_on sock broadcast_port text, s1)

-- The first socket that is not made ends the function. The text is formatted already; `made_rpc` and
-- `made` are what `socket` gives if it is called.
unfoldable pub local_broadcast : ℕ → ℕ → Text → ℤ → ℤ → Sockets → List Sent × Sockets
unfolding on_console opened sent_on
local_broadcast printf_rpc_flag printf_broadcast_flag text made_rpc made s =
    let sock_rpc = opened made_rpc s.sock_rpc in
    let s1 : Sockets = record s { sock_rpc = sock_rpc } in
    let (out, s2) = on_console printf_broadcast_flag text made s1 in
    if printf_rpc_flag == 0
    then on_console printf_broadcast_flag text made s
    else if is_fail sock_rpc
    then (socket_fail ∷ [], s1)
    else (sent_on sock_rpc rpc_port text ++ out, s2)

opened_usable :
    (made sock : ℤ) → ltb_ℤ (pos 0) made ≡ true → ltb_ℤ (pos 0) (opened made sock) ≡ true
unfolding opened
opened_usable made sock h = ground arith

is_fail_usable : (sock : ℤ) → ltb_ℤ (pos 0) sock ≡ true → is_fail sock ≡ false
is_fail_usable (pos n) h = refl
is_fail_usable (negsuc zero) h = absurd (ground (arith, h))
is_fail_usable (negsuc (suc n)) h = refl

sent_on_usable :
    (sock : ℤ) (port : ℕ) (t : Text)
    → ltb_ℤ (pos 0) sock ≡ true
    → sent_on sock port t ≡ datagram port (snprintf (print_max_size * 4) t) ∷ []
unfolding sent_on
sent_on_usable sock port t h = rw h refl

on_console_lem :
    (b : ℕ) (t : Text) (made : ℤ) (s : Sockets)
    → ltb_ℤ (pos 0) made ≡ true
    → (on_console b t made s).0
      ≡ (if b == 0 then [] else datagram broadcast_port (snprintf (print_max_size * 4) t) ∷ [])
unfolding on_console
on_console_lem b t made s h =
    let usable = opened_usable made s.sock h in
    elim (Bool-cases (b == 0)) [
      | inl e ↦ rw (e) refl
      | inr e ↦
          rw (e, is_fail_usable (opened made s.sock) usable)
            (sent_on_usable (opened made s.sock) broadcast_port t usable)
    ]

local_broadcast_lem :
    (r b : ℕ) (t : Text) (made_rpc made : ℤ) (s : Sockets)
    → ltb_ℤ (pos 0) made_rpc ≡ true
    → ltb_ℤ (pos 0) made ≡ true
    → (local_broadcast r b t made_rpc made s).0
      ≡ (if r == 0 then [] else datagram rpc_port (snprintf (print_max_size * 4) t) ∷ [])
        ++ (if b == 0 then [] else datagram broadcast_port (snprintf (print_max_size * 4) t) ∷ [])
unfolding local_broadcast
local_broadcast_lem r b t made_rpc made s h g =
    let sock = opened made_rpc s.sock_rpc in
    let usable = opened_usable made_rpc s.sock_rpc h in
    elim (Bool-cases (r == 0)) [
      | inl e ↦ rw (e) (on_console_lem b t made s g)
      | inr e ↦
          rw
            (
              e,
              is_fail_usable sock usable,
              sent_on_usable sock rpc_port t usable,
              on_console_lem b t made (record s { sock_rpc = sock }) g,
            )
            refl
    ]

-- The texts, sent in turn; `socket` gives the same two numbers whenever it is called.
unfoldable pub broadcast_all : ℕ → ℕ → List Text → ℤ → ℤ → Sockets → List Sent
unfolding local_broadcast
broadcast_all r b [] made_rpc made s = []
broadcast_all r b (t ∷ ts) made_rpc made s =
    let (out, s1) = local_broadcast r b t made_rpc made s in
    out ++ broadcast_all r b ts made_rpc made s1

-- What the listeners of the two ports are to receive.
abbrev pub wanted : ℕ → ℕ → List Text → List Sent
wanted r b [] = []
wanted r b (t ∷ ts) =
    let text = snprintf (print_max_size * 4) t in
    (if r == 0 then [] else datagram rpc_port text ∷ [])
    ++ (if b == 0 then [] else datagram broadcast_port text ∷ [])
    ++ wanted r b ts

-- Where `socket` gives numbers above 0, `ipcd_console_local_broadcast` of any texts in turn,
-- from any sockets, sends each text, as far as it fits the buffer, to port 50393 if the flag for
-- calls is set and then to port 50392 if the flag for the consoles is set, and nothing else.
pub broadcast_all-wanted :
    (r b : ℕ) (ts : List Text) (made_rpc made : ℤ) (s : Sockets)
    → ltb_ℤ (pos 0) made_rpc ≡ true
    → ltb_ℤ (pos 0) made ≡ true
    → broadcast_all r b ts made_rpc made s ≡ wanted r b ts
unfolding broadcast_all
broadcast_all-wanted r b [] made_rpc made s h g = refl
broadcast_all-wanted r b (t ∷ ts) made_rpc made s h g =
    rw
      (
        local_broadcast_lem r b t made_rpc made s h g,
        broadcast_all-wanted r b ts made_rpc made (local_broadcast r b t made_rpc made s).1 h g,
      )
      refl
