-- ===== src/Registry/Join.antt =====
-- `ipcd_join` of src/easyipc_daemon.c where no process has timed out: it admits exactly the newcomers
-- with a pid and a name of their own.
use easyipc.Base.{
  ℕ, zero, suc, ◌+◌, ◌<◌, ◌≤◌, Bool, true, false, ◌||◌, Option, none, some, List, [], ◌∷◌, ◌++◌,
  ◌≡◌, refl, sym, ap, ◌∙◌, subst, arith, ◌==◌, if◌then◌else◌, get_elem?, get_elem?-length,
  get_elem?-past, length, length-append, any, append_assoc, append-nil, Bool-cases, Option-cases,
  inl, inr, All,
}
use easyipc.Base.Text.{str_eq, snprintf-of_lt}
use easyipc.Wire.{
  JoinInfo, Effect, logged, progress, warn, info, join_pid_repeat, join_name_repeat, joined,
}
use easyipc.Registry.{
  Member, refused, clear, freed_read, earlier, remove_via_pid, join_loop, JoinResult, join_refused,
  join_accepted, admit, join, new_member, process_name_max_size,
}
use easyipc.Registry.Unique.{IsTable, has_pid, has_pname, append-IsTable}

-- A member with the newcomer's pid or name.
abbrev pub clash : JoinInfo → Member → Bool
clash j m = (m.pid == j.pid) || str_eq m.pname j.name

abbrev pub find_clash : JoinInfo → List Member → Option Member
find_clash j [] = none
find_clash j (m ∷ ms) = if clash j m then some m else find_clash j ms

-- What a refusal logs.
abbrev pub refusal : JoinInfo → Member → Effect
refusal j m =
    logged progress warn m.pid
      (if m.pid == j.pid then join_pid_repeat j.name j.pid else join_name_repeat j.name j.pid)

abbrev pub admission : JoinInfo → Effect
admission j = logged progress info j.pid (joined j.name j.pid)

join_loop-none :
    (j : JoinInfo) (k i : ℕ) (ms : List Member)
    → get_elem? ms i ≡ none
    → join_loop j (suc k) i ms ≡ join_loop j k (i + 1) ms
unfolding join_loop
join_loop-none j k i ms e = rw (e, join_loop)

-- The round at a member, as the loop's body reads.
pub join_loop-some :
    (j : JoinInfo) (k i : ℕ) (ms : List Member) (m : Member)
    → get_elem? ms i ≡ some m
    → join_loop j (suc k) i ms ≡ (
        if m.pid == j.pid
        then (if m.suspended
            then (if earlier m.pid i ms
                then (if str_eq m.pname j.name
                    then join_loop j k (i + 1) (remove_via_pid m.pid (remove_via_pid m.pid ms))
                    else join_loop j k (i + 1) (remove_via_pid m.pid ms))
                else freed_read)
            else refused (logged progress warn m.pid (join_pid_repeat j.name j.pid)))
        else (if str_eq m.pname j.name
            then (if m.suspended
                then join_loop j k (i + 1) (remove_via_pid m.pid ms)
                else refused (logged progress warn m.pid (join_name_repeat j.name j.pid)))
            else join_loop j k (i + 1) ms))
unfolding join_loop
join_loop-some j k i ms m e = rw (e, join_loop)

-- An index past the end reads nothing.
pub join_loop-past :
    (j : JoinInfo) (k i : ℕ) (ms : List Member) → length ms ≤ i → join_loop j k i ms ≡ clear ms
unfolding join_loop
join_loop-past j zero i ms h = refl
join_loop-past j (suc k) i ms h =
    rw (join_loop-none j k i ms (get_elem?-past ms i h))
      (join_loop-past j k (i + 1) ms (omega arith))

-- A member that does not clash is passed.
pub join_loop-pass :
    (j : JoinInfo) (k : ℕ) (us : List Member) (m : Member) (vs : List Member)
    → clash j m ≡ false
    → join_loop j (suc k) (length us) (us ++ m ∷ vs)
      ≡ join_loop j k (length (us ++ m ∷ [])) ((us ++ m ∷ []) ++ vs)
join_loop-pass j k us m vs h =
    let no_pid : (m.pid == j.pid) ≡ false = ground arith in
    let no_name : str_eq m.pname j.name ≡ false = ground arith in
    let step : length us + 1 ≡ length (us ++ m ∷ []) = omega (arith, length-append us (m ∷ [])) in
    rw (
      join_loop-some j k (length us) (us ++ m ∷ vs) m (get_elem?-length us m vs),
      no_pid,
      no_name,
      step,
      append_assoc us (m ∷ []) vs,
    )

pub join_loop-skip :
    (j : JoinInfo) (k : ℕ) (us ws rest : List Member)
    → any (clash j) ws ≡ false
    → join_loop j (length ws + k) (length us) (us ++ (ws ++ rest))
      ≡ join_loop j k (length (us ++ ws)) ((us ++ ws) ++ rest)
join_loop-skip j k us [] rest h =
    let e : length {A = Member} [] + k ≡ k = omega arith in rw (e, append-nil us)
join_loop-skip j k us (m ∷ ws) rest h =
    let e : length (m ∷ ws) + k ≡ suc (length ws + k) = omega arith in
    rw e (
      join_loop-pass j (length ws + k) us m (ws ++ rest) (ground arith)
      ∙ join_loop-skip j k (us ++ m ∷ []) ws rest (ground arith)
      ∙ ap (λ ys. join_loop j k (length ys) (ys ++ rest)) (append_assoc us (m ∷ []) ws))

-- A table is taken apart at its first clash.
pub record Clash (j : JoinInfo) (ms : List Member) (m : Member) : Type 0 where
  pub ws : List Member
  pub vs : List Member
  pub split : ms ≡ ws ++ m ∷ vs
  pub free : any (clash j) ws ≡ false
  pub hit : clash j m ≡ true

pub find_clash-Clash :
    (j : JoinInfo) (ms : List Member) {m : Member} → find_clash j ms ≡ some m → Clash j ms m
find_clash-Clash j [] e = ground arith
find_clash-Clash j (n ∷ ms) {m} e = elim (Bool-cases (clash j n)) [
  | inl hit ↦
      let same : n ≡ m = ground arith in
      record { ws = []; vs = ms; split = ap (λ k. k ∷ ms) same; free = refl; hit = ground arith }
  | inr miss ↦
      let r = find_clash-Clash j ms {m = m} (ground arith) in
      record {
        ws = n ∷ r.ws;
        vs = r.vs;
        split = ap (◌∷◌ n) r.split;
        free = ground (arith, r.free);
        hit = r.hit;
      }
]

pub find_clash-none :
    (j : JoinInfo) (ms : List Member) → find_clash j ms ≡ none → any (clash j) ms ≡ false
find_clash-none j [] e = refl
find_clash-none j (n ∷ ms) e = ground (arith, find_clash-none j ms)

-- The loop up to the first clash.
pub join_loop-prefix :
    (j : JoinInfo) (ws : List Member) (m : Member) (vs : List Member)
    → any (clash j) ws ≡ false
    → join_loop j (length (ws ++ m ∷ vs)) 0 (ws ++ m ∷ vs)
      ≡ join_loop j (suc (length vs)) (length ws) (ws ++ m ∷ vs)
join_loop-prefix j ws m vs free =
    ap (λ k. join_loop j k 0 (ws ++ m ∷ vs)) (length-append ws (m ∷ vs))
    ∙ join_loop-skip j (suc (length vs)) [] ws (m ∷ vs) free

pub join_loop-clear :
    (j : JoinInfo) (ms : List Member)
    → any (clash j) ms ≡ false
    → join_loop j (length ms) 0 ms ≡ clear ms
unfolding join_loop
join_loop-clear j ms h =
    let e : length ms + 0 ≡ length ms = omega arith in
    let r = join_loop-skip j 0 [] ms [] h in
    rw (← e) (
      ap (λ ns. join_loop j (length ms + 0) 0 ns) (sym (append-nil ms))
      ∙ r
      ∙ ap clear (append-nil ms))

all_middle :
    (P : Member → Type 0) (ws : List Member) (m : Member) (vs : List Member)
    → All P (ws ++ m ∷ vs)
    → P m
all_middle P [] m vs h = h.0
all_middle P (w ∷ ws) m vs h = all_middle P ws m vs h.1

join-clash :
    (j : JoinInfo) (host : ℕ) (ws : List Member) (m : Member) (vs : List Member)
    → any (clash j) ws ≡ false
    → clash j m ≡ true
    → m.suspended ≡ false
    → join j host (ws ++ m ∷ vs) ≡ join_refused (refusal j m)
unfolding join admit
join-clash j host ws m vs free hit live =
    rw
      (
        join_loop-prefix j ws m vs free,
        join_loop-some j (length vs) (length ws) (ws ++ m ∷ vs) m (get_elem?-length ws m vs),
        live,
      )
      (elim (Bool-cases (m.pid == j.pid)) [
        | inl same ↦ rw same
        | inr other ↦ let named : str_eq m.pname j.name ≡ true = ground arith in rw (other, named)
      ])

-- What becomes of a newcomer whose first clash is with the given member.
abbrev pub verdict : JoinInfo → ℕ → List Member → Option Member → JoinResult
verdict j host ms none = join_accepted (ms ++ new_member j host ∷ []) (admission j)
verdict j host ms (some m) = join_refused (refusal j m)

-- Where every member is live, `ipcd_join` refuses a newcomer at the first member that has its
-- pid or its name, with a record of which, and otherwise puts it behind the others.
pub join_lem :
    (j : JoinInfo) (host : ℕ) (ms : List Member)
    → All (λ m. m.suspended ≡ false) ms
    → join j host ms ≡ verdict j host ms (find_clash j ms)
unfolding join admit
join_lem j host ms live = elim (Option-cases (find_clash j ms)) [
  | inl e ↦ rw (e, join_loop-clear j ms (find_clash-none j ms e))
  | inr (m, e) ↦
      let r = find_clash-Clash j ms e in
      let calm =
        all_middle (λ n. n.suspended ≡ false) r.ws m r.vs
          (subst (All (λ n. n.suspended ≡ false)) r.split live) in
      rw e (ap (join j host) r.split ∙ join-clash j host r.ws m r.vs r.free r.hit calm)
]

pub no_clash-ids :
    (j : JoinInfo) (ms : List Member)
    → any (clash j) ms ≡ false
    → (has_pid j.pid ms ≡ false) × (has_pname j.name ms ≡ false)
no_clash-ids j [] h = (refl, refl)
no_clash-ids j (m ∷ ms) h =
    let r = no_clash-ids j ms (ground arith) in (ground (arith, r.0), ground (arith, r.1))

pub new_member-IsTable :
    (j : JoinInfo) (host : ℕ) (ms : List Member)
    → length j.name < process_name_max_size
    → IsTable ms
    → any (clash j) ms ≡ false
    → IsTable (ms ++ new_member j host ∷ [])
unfolding new_member
new_member-IsTable j host ms short t free =
    let ids = no_clash-ids j ms free in
    append-IsTable ms (new_member j host) ids.0
      (rw (snprintf-of_lt process_name_max_size j.name short) ids.1) t

-- Where every member is live and pids and names are distinct, a newcomer that is admitted, with
-- a name shorter than its array, becomes the last member of the table, and pids and names are
-- distinct again.
pub join-IsTable :
    (j : JoinInfo) (host : ℕ) (ms : List Member)
    → All (λ m. m.suspended ≡ false) ms
    → length j.name < process_name_max_size
    → IsTable ms
    → (ns : List Member) (e : Effect) → join j host ms ≡ join_accepted ns e
    → IsTable ns × (ns ≡ ms ++ new_member j host ∷ [])
join-IsTable j host ms live short t ns e h = elim (Option-cases (find_clash j ms)) [
  | inl free ↦
      let took = sym (join_lem j host ms live) ∙ h in
      let same : ns ≡ ms ++ new_member j host ∷ [] = cc (took, free) in
      (
        subst IsTable (sym same) (new_member-IsTable j host ms short t (find_clash-none j ms free)),
        same,
      )
  | inr (m, hit) ↦ let refused' = sym (join_lem j host ms live) ∙ h in absurd (cc (refused', hit))
]
