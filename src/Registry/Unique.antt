-- ===== src/Registry/Unique.antt =====
-- What keeps src/easyipc_daemon.c's table in order: pids and names are each used once.
use easyipc.Base.{ℕ, Bool, false, ◌||◌, List, [], ◌∷◌, ◌++◌, ◌≡◌, refl, arith, ◌==◌}
use easyipc.Base.Text.{Text, str_eq, str_eq_sym}
use easyipc.Wire.{RegisterInfo}
use easyipc.Registry.{
  Member, update_via_pid, register_api, register_msg, unregister_api, unregister_msg,
  remove_via_pid,
}

abbrev pub has_pid : ℕ → List Member → Bool
has_pid pid [] = false
has_pid pid (m ∷ ms) = (m.pid == pid) || has_pid pid ms

abbrev pub has_pname : Text → List Member → Bool
has_pname name [] = false
has_pname name (m ∷ ms) = str_eq m.pname name || has_pname name ms

-- No two members share a pid or a name.
abbrev pub IsTable : List Member → Type 0
IsTable [] = Unit {0}
IsTable (m ∷ ms) = (has_pid m.pid ms ≡ false) × (has_pname m.pname ms ≡ false) × IsTable ms

-- Two tables with the same pids and names, in the same order.
abbrev pub SameIds : List Member → List Member → Type 0
SameIds [] [] = Unit {0}
SameIds [] (n ∷ ns) = ⊥
SameIds (m ∷ ms) [] = ⊥
SameIds (m ∷ ms) (n ∷ ns) = (m.pid ≡ n.pid) × (m.pname ≡ n.pname) × SameIds ms ns

SameIds-refl : (ms : List Member) → SameIds ms ms
SameIds-refl [] = tt
SameIds-refl (m ∷ ms) = (refl, refl, SameIds-refl ms)

has_pid-SameIds : (pid : ℕ) (ms ns : List Member) → SameIds ms ns → has_pid pid ns ≡ has_pid pid ms
has_pid-SameIds pid [] [] s = refl
has_pid-SameIds pid [] (n ∷ ns) s = absurd s
has_pid-SameIds pid (m ∷ ms) [] s = absurd s
has_pid-SameIds pid (m ∷ ms) (n ∷ ns) s = cc (has_pid-SameIds pid ms ns s.2, s.0)

has_pname-SameIds :
    (name : Text) (ms ns : List Member) → SameIds ms ns → has_pname name ns ≡ has_pname name ms
has_pname-SameIds name [] [] s = refl
has_pname-SameIds name [] (n ∷ ns) s = absurd s
has_pname-SameIds name (m ∷ ms) [] s = absurd s
has_pname-SameIds name (m ∷ ms) (n ∷ ns) s = cc (has_pname-SameIds name ms ns s.2, s.1)

pub IsTable-SameIds : (ms ns : List Member) → SameIds ms ns → IsTable ms → IsTable ns
IsTable-SameIds [] [] s t = tt
IsTable-SameIds [] (n ∷ ns) s t = absurd s
IsTable-SameIds (m ∷ ms) [] s t = absurd s
IsTable-SameIds (m ∷ ms) (n ∷ ns) s t = (
  cc (has_pid-SameIds m.pid ms ns s.2, t.0, s.0),
  cc (has_pname-SameIds m.pname ms ns s.2, t.1, s.1),
  IsTable-SameIds ms ns s.2 t.2,
)

register_api-SameIds : (r : RegisterInfo) (ms : List Member) → SameIds ms (register_api r ms).0
unfolding register_api
register_api-SameIds r [] = tt
register_api-SameIds r (m ∷ ms) = ground (arith, SameIds-refl ms, register_api-SameIds r ms)

register_msg-SameIds : (r : RegisterInfo) (ms : List Member) → SameIds ms (register_msg r ms).0
unfolding register_msg
register_msg-SameIds r [] = tt
register_msg-SameIds r (m ∷ ms) = ground (arith, SameIds-refl ms, register_msg-SameIds r ms)

unregister_api-SameIds : (r : RegisterInfo) (ms : List Member) → SameIds ms (unregister_api r ms).0
unfolding unregister_api
unregister_api-SameIds r [] = tt
unregister_api-SameIds r (m ∷ ms) = ground (arith, SameIds-refl ms, unregister_api-SameIds r ms)

unregister_msg-SameIds : (r : RegisterInfo) (ms : List Member) → SameIds ms (unregister_msg r ms).0
unfolding unregister_msg
unregister_msg-SameIds r [] = tt
unregister_msg-SameIds r (m ∷ ms) = ground (arith, SameIds-refl ms, unregister_msg-SameIds r ms)

update_via_pid-SameIds :
    (pid : ℕ) (f : Member → Member)
    → ((m : Member) → (m.pid ≡ (f m).pid) × (m.pname ≡ (f m).pname))
    → (ms : List Member) → SameIds ms (update_via_pid pid f ms)
unfolding update_via_pid
update_via_pid-SameIds pid f same [] = tt
update_via_pid-SameIds pid f same (m ∷ ms) =
    ground (arith, same m, SameIds-refl ms, update_via_pid-SameIds pid f same ms)

pub register_api-IsTable :
    (r : RegisterInfo) (ms : List Member) → IsTable ms → IsTable (register_api r ms).0
register_api-IsTable r ms = IsTable-SameIds ms _ (register_api-SameIds r ms)

pub register_msg-IsTable :
    (r : RegisterInfo) (ms : List Member) → IsTable ms → IsTable (register_msg r ms).0
register_msg-IsTable r ms = IsTable-SameIds ms _ (register_msg-SameIds r ms)

pub unregister_api-IsTable :
    (r : RegisterInfo) (ms : List Member) → IsTable ms → IsTable (unregister_api r ms).0
unregister_api-IsTable r ms = IsTable-SameIds ms _ (unregister_api-SameIds r ms)

pub unregister_msg-IsTable :
    (r : RegisterInfo) (ms : List Member) → IsTable ms → IsTable (unregister_msg r ms).0
unregister_msg-IsTable r ms = IsTable-SameIds ms _ (unregister_msg-SameIds r ms)

pub update_via_pid-IsTable :
    (pid : ℕ) (f : Member → Member)
    → ((m : Member) → (m.pid ≡ (f m).pid) × (m.pname ≡ (f m).pname))
    → (ms : List Member) → IsTable ms
    → IsTable (update_via_pid pid f ms)
update_via_pid-IsTable pid f same ms = IsTable-SameIds ms _ (update_via_pid-SameIds pid f same ms)

pub has_pid-remove :
    (q pid : ℕ) (ms : List Member)
    → has_pid q ms ≡ false
    → has_pid q (remove_via_pid pid ms) ≡ false
unfolding remove_via_pid
has_pid-remove q pid [] h = refl
has_pid-remove q pid (m ∷ ms) h = ground (arith, has_pid-remove q pid ms)

pub has_pname-remove :
    (name : Text) (pid : ℕ) (ms : List Member)
    → has_pname name ms ≡ false
    → has_pname name (remove_via_pid pid ms) ≡ false
unfolding remove_via_pid
has_pname-remove name pid [] h = refl
has_pname-remove name pid (m ∷ ms) h = ground (arith, has_pname-remove name pid ms)

pub remove-IsTable : (pid : ℕ) (ms : List Member) → IsTable ms → IsTable (remove_via_pid pid ms)
unfolding remove_via_pid
remove-IsTable pid [] t = tt
remove-IsTable pid (m ∷ ms) t =
    ground (
      arith,
      has_pid-remove m.pid pid ms,
      has_pname-remove m.pname pid ms,
      remove-IsTable pid ms t.2,
    )

-- Where pids and names are distinct, no member has the pid that `ipcd_mlist_remove_via_pid` was
-- called with.
pub has_pid-remove_self :
    (pid : ℕ) (ms : List Member) → IsTable ms → has_pid pid (remove_via_pid pid ms) ≡ false
unfolding remove_via_pid
has_pid-remove_self pid [] t = refl
has_pid-remove_self pid (m ∷ ms) t = ground (arith, has_pid-remove_self pid ms t.2)

pub has_pid-append :
    (q : ℕ) (ms : List Member) (n : Member)
    → has_pid q (ms ++ n ∷ []) ≡ (has_pid q ms || (n.pid == q))
has_pid-append q [] n = ground arith
has_pid-append q (m ∷ ms) n = ground (arith, has_pid-append q ms n)

pub has_pname-append :
    (name : Text) (ms : List Member) (n : Member)
    → has_pname name (ms ++ n ∷ []) ≡ (has_pname name ms || str_eq n.pname name)
has_pname-append name [] n = ground arith
has_pname-append name (m ∷ ms) n = ground (arith, has_pname-append name ms n)

-- A new member at the end, with a pid and a name of its own.
pub append-IsTable :
    (ms : List Member) (n : Member)
    → has_pid n.pid ms ≡ false
    → has_pname n.pname ms ≡ false
    → IsTable ms
    → IsTable (ms ++ n ∷ [])
append-IsTable [] n hp hn t = (refl, refl, tt)
append-IsTable (m ∷ ms) n hp hn t = (
  ground (arith, has_pid-append m.pid ms n),
  ground (arith, has_pname-append m.pname ms n, str_eq_sym m.pname n.pname),
  append-IsTable ms n (ground arith) (ground arith) t.2,
)
