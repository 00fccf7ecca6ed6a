-- ===== src/Registry/Rejoin.antt =====
-- `ipcd_join` of src/easyipc_daemon.c where a process has timed out: a suspended name is taken over,
-- but the member behind it is not looked at.
use easyipc.Base.{
  ℕ, suc, ◌+◌, ◌||◌, if◌then◌else◌, true, false, List, [], ◌∷◌, ◌++◌, ◌≡◌, ◌≢◌, refl, sym, ap, ◌∙◌,
  subst, arith, ◌==◌, get_elem?-length, length, length-append, drop, any, append_assoc, append-nil,
}
use easyipc.Base.Text.{Text, str_eq, str_eq_refl, str_eq_sym}
use easyipc.Wire.{JoinInfo}
use easyipc.Registry.{
  Member, clear, join_loop, join_accepted, admit, join, new_member, remove_via_pid,
}
use easyipc.Registry.Unique.{IsTable, has_pid, has_pname}
use easyipc.Registry.Join.{
  clash, admission, no_clash-ids, join_loop-prefix, join_loop-some, join_loop-skip, join_loop-past,
}

remove-middle :
    (ws : List Member) (m : Member) (vs : List Member)
    → has_pid m.pid ws ≡ false
    → remove_via_pid m.pid (ws ++ m ∷ vs) ≡ ws ++ vs
unfolding remove_via_pid
remove-middle [] m vs h = ground arith
remove-middle (w ∷ ws) m vs h = ground (arith, remove-middle ws m vs)

-- The members behind an index do not clash, and the rounds outnumber them.
calm :
    (j : JoinInfo) (us vs : List Member)
    → any (clash j) vs ≡ false
    → join_loop j (length vs + 1) (length us) (us ++ vs) ≡ clear (us ++ vs)
calm j us vs h =
    let r = join_loop-skip j 1 us vs [] h in
    let past = join_loop-past j 1 (length (us ++ vs)) (us ++ vs) (omega arith) in
    ap (λ ns. join_loop j (length vs + 1) (length us) (us ++ ns)) (sym (append-nil vs))
    ∙ r
    ∙ ap (join_loop j 1 (length (us ++ vs))) (append-nil (us ++ vs))
    ∙ past

-- The rest of the loop after a removal at `length ws`.
after_removal :
    (j : JoinInfo) (ws vs : List Member)
    → any (clash j) (drop 1 vs) ≡ false
    → join_loop j (length vs) (length ws + 1) (ws ++ vs) ≡ clear (ws ++ vs)
unfolding join_loop
after_removal j ws [] h = refl
after_removal j ws (y ∷ vs) h =
    let at : length ws + 1 ≡ length (ws ++ y ∷ []) = omega (arith, length-append ws (y ∷ [])) in
    let k : length (y ∷ vs) ≡ length vs + 1 = omega arith in
    let here = append_assoc ws (y ∷ []) vs in rw (at, k, ← here) (calm j (ws ++ y ∷ []) vs h)

-- Let a suspended member have the newcomer's name and another pid, where no member before it has
-- its pid or has the newcomer's pid or name, and none from the second behind it on has the
-- newcomer's pid or name. Then `ipcd_join` admits the newcomer as the last member, and the
-- suspended member is gone.
pub join_renews :
    (j : JoinInfo) (host : ℕ) (ws : List Member) (m : Member) (vs : List Member)
    → any (clash j) ws ≡ false
    → m.pid ≢ j.pid
    → str_eq m.pname j.name ≡ true
    → m.suspended ≡ true
    → has_pid m.pid ws ≡ false
    → any (clash j) (drop 1 vs) ≡ false
    → join j host (ws ++ m ∷ vs)
      ≡ join_accepted ((ws ++ vs) ++ new_member j host ∷ []) (admission j)
unfolding join admit
join_renews j host ws m vs free other named out lone rest =
    let miss : (m.pid == j.pid) ≡ false = ground arith in
    rw (
      join_loop-prefix j ws m vs free,
      join_loop-some j (length vs) (length ws) (ws ++ m ∷ vs) m (get_elem?-length ws m vs),
      miss,
      named,
      remove-middle ws m vs lone,
      out,
      after_removal j ws vs rest,
    )

-- How many members have a pid.
abbrev pub count_pid : ℕ → List Member → ℕ
count_pid pid [] = 0
count_pid pid (m ∷ ms) = if m.pid == pid then suc (count_pid pid ms) else count_pid pid ms

count_pid-append :
    (pid : ℕ) (ms ns : List Member) → count_pid pid (ms ++ ns) ≡ count_pid pid ms + count_pid pid ns
count_pid-append pid [] ns = omega arith
count_pid-append pid (m ∷ ms) ns = ground (arith, count_pid-append pid ms ns)

count_pid-absent : (pid : ℕ) (ms : List Member) → has_pid pid ms ≡ false → count_pid pid ms ≡ 0
count_pid-absent pid [] h = refl
count_pid-absent pid (m ∷ ms) h = ground (arith, h, count_pid-absent pid ms)

-- What two neighbours of a table say of the rest of it: the name of the first and the pid of the second
-- are not used elsewhere.
record Alone (j : JoinInfo) (ws : List Member) (m y : Member) (vs : List Member) : Type 0 where
  before : any (clash j) ws ≡ false
  behind : any (clash j) vs ≡ false
  lone : has_pid m.pid ws ≡ false
  apart : m.pid ≢ j.pid

none_clash :
    (j : JoinInfo) (ms : List Member)
    → has_pid j.pid ms ≡ false
    → has_pname j.name ms ≡ false
    → any (clash j) ms ≡ false
none_clash j [] p n = refl
none_clash j (m ∷ ms) p n = ground (arith, p, n, none_clash j ms)

has_pid_append :
    (q : ℕ) (ms ns : List Member) → has_pid q (ms ++ ns) ≡ (has_pid q ms || has_pid q ns)
has_pid_append q [] ns = refl
has_pid_append q (m ∷ ms) ns = ground (arith, has_pid_append q ms ns)

has_pname_append :
    (q : Text) (ms ns : List Member) → has_pname q (ms ++ ns) ≡ (has_pname q ms || has_pname q ns)
has_pname_append q [] ns = refl
has_pname_append q (m ∷ ms) ns = ground (arith, has_pname_append q ms ns)

Alone-of :
    (j : JoinInfo) (ws : List Member) (m y : Member) (vs : List Member)
    → IsTable (ws ++ m ∷ y ∷ vs)
    → m.pname ≡ j.name
    → y.pid ≡ j.pid
    → Alone j ws m y vs
Alone-of j [] m y vs t named same = record {
  before = refl;
  behind =
      none_clash j vs (subst (λ q. has_pid q vs ≡ false) same t.2.0)
        (subst (λ s. has_pname s vs ≡ false) named (ground (arith, t.1)));
  lone = refl;
  apart = λ e. absurd (ground (arith, e, same, t.0));
}
Alone-of j (w ∷ ws) m y vs t named same =
    let rest = Alone-of j ws m y vs t.2 named same in
    let pids = has_pid_append w.pid ws (m ∷ y ∷ vs) in
    let names = has_pname_append w.pname ws (m ∷ y ∷ vs) in
    let other : (w.pid == j.pid) ≡ false = ground (arith, pids, t.0, same) in
    let unnamed : str_eq m.pname w.pname ≡ false = ground (arith, names, t.1) in
    let unnamed' : str_eq w.pname j.name ≡ false =
      str_eq_sym w.pname j.name ∙ subst (λ s. str_eq s w.pname ≡ false) named unnamed in
    record {
      before = rw (other, unnamed') rest.before;
      behind = rest.behind;
      lone = ground (arith, pids, t.0, rest.lone);
      apart = rest.apart;
    }

-- In a table with distinct pids and names, let a suspended member have the newcomer's name and
-- the member right behind it the newcomer's pid. Then `ipcd_join` admits the newcomer, whose pid
-- one member had before, and two members have it afterwards.
pub join_skips :
    (j : JoinInfo) (host : ℕ) (ws : List Member) (m y : Member) (vs : List Member)
    → IsTable (ws ++ m ∷ y ∷ vs)
    → m.pname ≡ j.name
    → m.suspended ≡ true
    → y.pid ≡ j.pid
    → (ns : List Member) × (join j host (ws ++ m ∷ y ∷ vs) ≡ join_accepted ns (admission j))
      × (count_pid j.pid (ws ++ m ∷ y ∷ vs) ≡ 1)
      × (count_pid j.pid ns ≡ 2)
unfolding new_member
join_skips j host ws m y vs table named out same =
    let alone = Alone-of j ws m y vs table named same in
    let called : str_eq m.pname j.name ≡ true =
      subst (λ s. str_eq s j.name ≡ true) (sym named) (str_eq_refl j.name) in
    let before = count_pid-absent j.pid ws (no_clash-ids j ws alone.before).0 in
    let behind = count_pid-absent j.pid vs (no_clash-ids j vs alone.behind).0 in
    (
      (ws ++ y ∷ vs) ++ new_member j host ∷ [],
      join_renews j host ws m (y ∷ vs) alone.before alone.apart called out alone.lone alone.behind,
      ground (arith, count_pid-append j.pid ws (m ∷ y ∷ vs), before, behind, same, alone.apart),
      ground (
        arith,
        count_pid-append j.pid (ws ++ y ∷ vs) (new_member j host ∷ []),
        count_pid-append j.pid ws (y ∷ vs),
        before,
        behind,
        same,
      ),
    )
