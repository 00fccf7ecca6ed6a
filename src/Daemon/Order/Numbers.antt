-- ===== src/Daemon/Order/Numbers.antt =====
-- The magic numbers that src/easyipc_daemon.c gives to the calls: they rise along the waiting calls,
-- then the call in hand, then the queue, so no two calls share one.
use easyipc.Base.{
  ◌<◌, append_assoc, ℕ, suc, ◌+◌, ◌≤◌, some, List, [], ◌∷◌, ◌++◌, ◌≡◌, inl, inr, Option-cases,
  arith,
}
use easyipc.Wire.{Api}
use easyipc.Registry.{Member}
use easyipc.Daemon.Sweep.{ack_sweep}
use easyipc.Daemon.Analysis.{take_call}
use easyipc.Daemon.Answers.{Fresh}

-- The magic numbers rise strictly, from `b` on and below `c`.
abbrev pub Rises : ℕ → ℕ → List Api → Type 0
Rises b c [] = b ≤ c
Rises b c (a ∷ as') = (b ≤ a.daemon_magic_number) × Rises (suc a.daemon_magic_number) c as'

pub Rises-weaken : (b b' c : ℕ) (as' : List Api) → b' ≤ b → Rises b c as' → Rises b' c as'
Rises-weaken b b' c [] h r = omega arith
Rises-weaken b b' c (a ∷ as') h r = (omega arith, r.1)

pub Rises-snoc :
    (b c : ℕ) (as' : List Api) (a : Api)
    → Rises b c as'
    → a.daemon_magic_number ≡ c
    → Rises b (c + 1) (as' ++ a ∷ [])
Rises-snoc b c [] a r h = (omega arith, omega arith)
Rises-snoc b c (x ∷ xs) a r h = (r.0, Rises-snoc (suc x.daemon_magic_number) c xs a r.1 h)

-- A call may be missing.
pub Rises-drop :
    (b c : ℕ) (us : List Api) (a : Api) (vs : List Api)
    → Rises b c (us ++ a ∷ vs)
    → Rises b c (us ++ vs)
Rises-drop b c [] a vs r = Rises-weaken (suc a.daemon_magic_number) b c vs (omega arith) r.1
Rises-drop b c (u ∷ us) a vs r = (r.0, Rises-drop (suc u.daemon_magic_number) c us a vs r.1)

pub Rises-sweep :
    (b c : ℕ) (ms : List Member) (as' vs : List Api)
    → Rises b c (as' ++ vs)
    → Rises b c ((ack_sweep ms as').0 ++ vs)
unfolding ack_sweep
Rises-sweep b c ms [] vs r = r
Rises-sweep b c ms (a ∷ as') vs r =
    let inner = Rises-sweep (suc a.daemon_magic_number) c ms as' vs r.1 in
    ground (
      arith,
      r.0,
      inner,
      Rises-weaken (suc a.daemon_magic_number) b c ((ack_sweep ms as').0 ++ vs) (omega arith) inner,
    )

pub Rises-take :
    (magic b c : ℕ) (as' vs : List Api) (a : Api) (rest : List Api)
    → take_call magic as' ≡ some (a, rest)
    → Rises b c (as' ++ vs)
    → Rises b c (rest ++ vs)
unfolding take_call
Rises-take magic b c [] vs a rest e r = ground arith
Rises-take magic b c (x ∷ xs) vs a rest e r = elim (Option-cases (take_call magic xs)) [
  | inl n ↦ ground (arith, n, e, r.0, r.1, Rises-weaken (suc x.daemon_magic_number) b c (xs ++ vs))
  | inr (q, n) ↦
      let inner = Rises-take magic (suc x.daemon_magic_number) c xs vs q.0 q.1 n r.1 in
      ground (arith, n, e, r.0, r.1, inner, Rises-weaken (suc x.daemon_magic_number) b c (xs ++ vs))
]

Rises-bound :
    (b c : ℕ) (us : List Api) (a : Api) (vs : List Api)
    → Rises b c (us ++ a ∷ vs)
    → b ≤ a.daemon_magic_number
Rises-bound b c [] a vs r = r.0
Rises-bound b c (u ∷ us) a vs r =
    omega (arith, r.0, Rises-bound (suc u.daemon_magic_number) c us a vs r.1)

-- A call in the middle has a number that no earlier call has.
pub Fresh-of_Rises :
    (b c : ℕ) (us : List Api) (a : Api) (vs : List Api)
    → Rises b c (us ++ a ∷ vs)
    → Fresh a.daemon_magic_number us
Fresh-of_Rises b c [] a vs r = tt
Fresh-of_Rises b c (u ∷ us) a vs r = (
  λ e. omega (arith, Rises-bound (suc u.daemon_magic_number) c us a vs r.1),
  Fresh-of_Rises (suc u.daemon_magic_number) c us a vs r.1,
)

Rises-tail :
    (b c : ℕ) (us : List Api) (a : Api) (vs : List Api)
    → Rises b c (us ++ a ∷ vs)
    → Rises (suc a.daemon_magic_number) c vs
Rises-tail b c [] a vs r = r.1
Rises-tail b c (u ∷ us) a vs r = Rises-tail (suc u.daemon_magic_number) c us a vs r.1

Fresh-below : (magic b c : ℕ) (us vs : List Api) → magic < b → Rises b c (us ++ vs) → Fresh magic us
Fresh-below magic b c [] vs h r = tt
Fresh-below magic b c (u ∷ us) vs h r = (
  λ e. omega (arith, r.0),
  Fresh-below magic (suc u.daemon_magic_number) c us vs (omega (arith, r.0)) r.1,
)

-- A call's number is its own: no call before it, and none behind it, has it.
pub Rises-own :
    (b c : ℕ) (us : List Api) (a : Api) (vs ws : List Api)
    → Rises b c ((us ++ a ∷ vs) ++ ws)
    → Fresh a.daemon_magic_number us × Fresh a.daemon_magic_number vs
Rises-own b c us a vs ws r =
    let q : Rises b c (us ++ a ∷ (vs ++ ws)) = rw⁻¹ (append_assoc us (a ∷ vs) ws) r in
    (
      Fresh-of_Rises b c us a (vs ++ ws) q,
      Fresh-below a.daemon_magic_number (suc a.daemon_magic_number) c vs ws (omega arith)
          (Rises-tail b c us a (vs ++ ws) q),
    )
