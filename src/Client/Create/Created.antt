-- ===== src/Client/Create/Created.antt =====
-- What `ipc_creat` of src/easyipc_support.c returns, and what it keeps of the process's handles.
use easyipc.Base.{
  ℕ, zero, suc, ◌+◌, ◌-◌, ◌*◌, ◌%◌, ◌^◌, ◌≤◌, ◌<◌, Bool, true, false, ◌||◌, some, List, [], ◌∷◌,
  ◌++◌, ◌≡◌, ◌≢◌, ◌⊎◌, refl, sym, ap, subst, ◌∙◌, arith, any, length, All, All-append, ◌==◌,
  Bool-cases, inl, inr,
}
use easyipc.Base.Text.{Text, str_eq, str_eq_sym, snprintf, snprintf-of_lt, nonempty}
use easyipc.Wire.{Packet}
use easyipc.Registry.{process_name_max_size}
use easyipc.Client.{Client, Struct}
use easyipc.Client.Create.{
  cli_port_base, Process, free_but, bind_port, new_client, created, attempts, Machine, connect,
  creat,
}

-- The first port from another on that `bind` takes.
pub record FirstFree (free : ℕ → Bool) (port q : ℕ) : Type 0 where
  pub from : port ≤ q
  pub taken : free (q % 2 ^ 16) ≡ true
  pub first : (r : ℕ) → port ≤ r → r < q → free (r % 2 ^ 16) ≡ false

Nat-cases : (a b : ℕ) → a ≤ b → (a ≡ b) ⊎ (a + 1 ≤ b)
Nat-cases a b h = elim (Bool-cases (a == b)) [
  | inl e ↦ inl (ground (arith, e))
  | inr e ↦ inr (ground (arith, e))
]

eq_of_test : (a b : ℕ) → (a == b) ≡ true → a ≡ b
eq_of_test a b h = ground (arith, h)

here : (free : ℕ → Bool) (port : ℕ) → free (port % 2 ^ 16) ≡ true → FirstFree free port port
here free port e = record { from = omega arith; taken = e; first = λ r a b. absurd (omega arith) }

later :
    (free : ℕ → Bool) (port q : ℕ)
    → free (port % 2 ^ 16) ≡ false
    → FirstFree free (port + 1) q
    → FirstFree free port q
later free port q e f = record {
  from = omega (arith, f.from);
  taken = f.taken;
  first = λ r a b. elim (Nat-cases port r a) [
    | inl same ↦ subst (λ n. free (n % 2 ^ 16) ≡ false) same e
    | inr less ↦ f.first r less b
  ];
}

-- The search ends at the first free port, if the fuel reaches some free port.
bind_port-FirstFree :
    (free : ℕ → Bool) (fuel port d : ℕ)
    → free ((port + d) % 2 ^ 16) ≡ true
    → d < fuel
    → (q : ℕ) × (bind_port free fuel port ≡ some q) × FirstFree free port q × (q ≤ port + d)
unfolding bind_port
bind_port-FirstFree free zero port d h lt = absurd (omega arith)
bind_port-FirstFree free (suc fuel) port zero h lt =
    let e : free (port % 2 ^ 16) ≡ true = subst (λ n. free (n % 2 ^ 16) ≡ true) (omega arith) h in
    (port, rw (bind_port, e), here free port e, omega arith)
bind_port-FirstFree free (suc fuel) port (suc d) h lt =
    let h' : free ((port + 1 + d) % 2 ^ 16) ≡ true =
      subst (λ n. free (n % 2 ^ 16) ≡ true) (omega arith) h in
    let (q, e, f, le) = bind_port-FirstFree free fuel (port + 1) d h' (omega arith) in
    elim (Bool-cases (free (port % 2 ^ 16))) [
      | inl t ↦ (port, rw (bind_port, t), here free port t, omega arith)
      | inr t ↦ (q, rw (bind_port, t, e), later free port q t f, omega (arith, le))
    ]

-- Two handles share a pid or a name.
abbrev pub clash : Client → Client → Bool
clash c d = (d.pid == c.pid) || str_eq d.alias_name c.alias_name

abbrev pub AllApart : List Client → Type 0
AllApart [] = Unit
AllApart (c ∷ cs) = (any (clash c) cs ≡ false) × AllApart cs

-- No two handles of the process share a pid or a name, and the pids are below the next one.
pub record IsProcess (getpid : ℕ) (p : Process) : Type 0 where
  pub apart : AllApart p.ipc_list
  pub below : All (λ c. c.pid < getpid + p.pid_magic_number * 1000000) p.ipc_list

any-append :
    (f : Client → Bool) (cs : List Client) (c : Client) → any f (cs ++ c ∷ []) ≡ (any f cs || f c)
any-append f [] c = ground arith
any-append f (d ∷ cs) c = ground (arith, any-append f cs c)

AllApart-append :
    (cs : List Client) (c : Client) (n : ℕ)
    → AllApart cs
    → All (λ d. d.pid < n) cs
    → n ≤ c.pid
    → any (λ d. str_eq d.alias_name c.alias_name) cs ≡ false
    → AllApart (cs ++ c ∷ [])
AllApart-append [] c n apart below h new = (refl, tt)
AllApart-append (d ∷ cs) c n apart below h new =
    let rest = AllApart-append cs c n apart.1 below.1 h (ground (arith, new)) in
    let e = any-append (clash d) cs c in
    (ground (arith, e, apart.0, below.0, h, new, str_eq_sym c.alias_name d.alias_name), rest)

below_mono :
    (a b : ℕ) (cs : List Client) → All (λ c. c.pid < a) cs → a ≤ b → All (λ c. c.pid < b) cs
below_mono a b [] h le = tt
below_mono a b (c ∷ cs) h le = (omega (arith, h.0), below_mono a b cs h.1 le)

module _ (sizeof : Struct → ℕ) (packet_max : ℕ) (h : Machine) (fuel : ℕ) (pname : Text)
    (p : Process) where
  -- The process with a new handle.
  abbrev pub joined : ℕ → ℕ → Process
  joined msg_port api_port =
      let c = new_client pname (h.getpid + p.pid_magic_number * 1000000) msg_port api_port in
      record {
        ipc_list = p.ipc_list ++ c ∷ [];
        pid_magic_number = p.pid_magic_number + 1;
        default_ipc = some c;
      }

  joined-IsProcess :
      (msg_port api_port : ℕ)
      → IsProcess h.getpid p
      → length pname < process_name_max_size
      → any (λ c. str_eq c.alias_name pname) p.ipc_list ≡ false
      → IsProcess h.getpid (joined msg_port api_port)
  unfolding new_client
  joined-IsProcess msg_port api_port is short new =
      let n : ℕ = h.getpid + p.pid_magic_number * 1000000 in
      let c = new_client pname n msg_port api_port in
      let name : snprintf process_name_max_size pname ≡ pname =
        snprintf-of_lt process_name_max_size pname short in
      let new' : any (λ d. str_eq d.alias_name c.alias_name) p.ipc_list ≡ false =
        ap (λ s. any (λ d. str_eq d.alias_name s) p.ipc_list) name ∙ new in
      record {
        apart = AllApart-append p.ipc_list c n is.apart is.below (omega arith) new';
        below =
            All-append (λ d. d.pid < h.getpid + (p.pid_magic_number + 1) * 1000000) p.ipc_list
              (c ∷ [])
              (below_mono n (h.getpid + (p.pid_magic_number + 1) * 1000000) p.ipc_list is.below
                (omega arith))
              (omega arith, tt);
      }

  -- A port behind the first is bound for calls.
  second_port :
      (i j q : ℕ)
      → h.free ((cli_port_base + i) % 2 ^ 16) ≡ true
      → h.free ((cli_port_base + j) % 2 ^ 16) ≡ true
      → i < j
      → ((cli_port_base + i) % 2 ^ 16) ≢ ((cli_port_base + j) % 2 ^ 16)
      → j < fuel
      → cli_port_base ≤ q
      → q ≤ cli_port_base + i
      → (r : ℕ) × (bind_port (free_but h.free (q % 2 ^ 16)) fuel (q + 1) ≡ some r)
        × FirstFree (free_but h.free (q % 2 ^ 16)) (q + 1) r
  second_port i j q free_i free_j lt apart room low high =
      let free = free_but h.free (q % 2 ^ 16) in
      elim (Bool-cases (((cli_port_base + j) % 2 ^ 16) == (q % 2 ^ 16))) [
        | inr other ↦
            let ok : free ((cli_port_base + j) % 2 ^ 16) ≡ true = rw (free_j, other) refl in
            let d : ℕ = cli_port_base + j - (q + 1) in
            let ok' : free ((q + 1 + d) % 2 ^ 16) ≡ true =
              subst (λ n. free (n % 2 ^ 16) ≡ true) (omega arith) ok in
            let (r, e, f, le) = bind_port-FirstFree free fuel (q + 1) d ok' (omega arith) in
            (r, e, f)
        | inl same ↦
            let j_q : ((cli_port_base + j) % 2 ^ 16) ≡ (q % 2 ^ 16) = eq_of_test _ _ same in
            let below : q < cli_port_base + i = elim (Nat-cases q (cli_port_base + i) high) [
              | inl at ↦ absurd (apart (ap (λ n. n % 2 ^ 16) (sym at) ∙ sym j_q))
              | inr less ↦ omega arith
            ] in
            let other : (((cli_port_base + i) % 2 ^ 16) == (q % 2 ^ 16)) ≡ false =
              elim (Bool-cases (((cli_port_base + i) % 2 ^ 16) == (q % 2 ^ 16))) [
                | inl hit ↦ absurd (apart (eq_of_test _ _ hit ∙ sym j_q))
                | inr miss ↦ miss
              ] in
            let ok : free ((cli_port_base + i) % 2 ^ 16) ≡ true = rw (free_i, other) refl in
            let d : ℕ = cli_port_base + i - (q + 1) in
            let ok' : free ((q + 1 + d) % 2 ^ 16) ≡ true =
              subst (λ n. free (n % 2 ^ 16) ≡ true) (omega arith) ok in
            let (r, e, f, le) = bind_port-FirstFree free fuel (q + 1) d ok' (omega arith) in
            (r, e, f)
      ]

  -- Let no two handles of the process share a pid or a name and the pids be below the next one;
  -- let the name be new, not empty and shorter than its array, let two different ports at or
  -- above the base be free that the fuel reaches, and let the daemon answer after some attempts
  -- and the thread be created. Then `ipc_creat` ends with a handle that has the first free port
  -- from the base on for messages and the first other free port behind that for calls; the
  -- handle is the last of the process and its default, the number for pids has risen by one, and
  -- again no two handles share a pid or a name and the pids are below the next one.
  pub creat_lem :
      (i j : ℕ)
      → IsProcess h.getpid p
      → nonempty pname ≡ true
      → length pname < process_name_max_size
      → any (λ c. str_eq c.alias_name pname) p.ipc_list ≡ false
      → h.thread ≡ true
      → h.free ((cli_port_base + i) % 2 ^ 16) ≡ true
      → h.free ((cli_port_base + j) % 2 ^ 16) ≡ true
      → i < j
      → ((cli_port_base + i) % 2 ^ 16) ≢ ((cli_port_base + j) % 2 ^ 16)
      → j < fuel
      → (msg_port api_port : ℕ) × (sent : List Packet) × (creat sizeof packet_max h fuel pname p
          ≡ created
              (new_client pname (h.getpid + p.pid_magic_number * 1000000) msg_port api_port)
              (joined msg_port api_port)
              sent)
        × FirstFree h.free cli_port_base msg_port
        × FirstFree (free_but h.free (msg_port % 2 ^ 16)) (msg_port + 1) api_port
        × IsProcess h.getpid (joined msg_port api_port)
  unfolding creat connect
  creat_lem i j is named short new thread free_i free_j lt apart room =
      let (q, e, f, le) = bind_port-FirstFree h.free fuel cli_port_base i free_i (omega arith) in
      let (r, e', f') = second_port i j q free_i free_j lt apart room f.from le in
      let c = new_client pname (h.getpid + p.pid_magic_number * 1000000) q r in
      let run : creat sizeof packet_max h fuel pname p
          ≡ created c (joined q r) (attempts sizeof packet_max c (suc h.unanswered)) =
        rw (creat, named, new, e, e', connect, thread) in
      (
        q,
        r,
        attempts sizeof packet_max c (suc h.unanswered),
        run,
        f,
        f',
        joined-IsProcess q r is short new,
      )
