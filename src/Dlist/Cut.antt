-- ===== src/Dlist/Cut.antt =====
-- A list of src/dlist.c cut at an index: the two neighbours between which an entry goes.
use easyipc.Base.{
  ℕ, zero, suc, ◌<◌, ◌≤◌, ◌≡◌, refl, ap, false, none, some, [], ◌∷◌, ◌++◌, arith, length, drop,
  get_elem?, insert_idx, erase_idx, All,
}
use easyipc.Memory.{Ptr, null, Memory}
use easyipc.Dlist.Chain.{Cells, first, has, Seg}

-- Address of the node behind which an entry at index `i` stands.
abbrev pub before_idx : Ptr → Cells → ℕ → Ptr
before_idx h xs zero = h
before_idx h xs (suc i) = first (drop i xs) null

-- The nodes `a` and `b` on both sides of index `i`.
pub record Cut (h : Ptr × Ptr) (t : Ptr) (xs : Cells) (i : ℕ) : Type 0 where
  pub us : Cells
  pub a : Ptr
  pub da : Ptr
  pub b : Ptr
  pub db : Ptr
  pub vs : Cells
  pub split : (h ∷ (xs ++ (t, null) ∷ [])) ≡ us ++ (a, da) ∷ (b, db) ∷ vs
  pub inserted :
      (c : Ptr × Ptr)
      → (h ∷ (insert_idx xs i c ++ (t, null) ∷ [])) ≡ us ++ (a, da) ∷ c ∷ (b, db) ∷ vs
  pub left : a ≡ before_idx h.0 xs i
  pub right : b ≡ first (drop i xs) t

pub cut : (h : Ptr × Ptr) (t : Ptr) (xs : Cells) (i : ℕ) → i ≤ length xs → Cut h t xs i
cut (h, hd) t [] zero le = record {
  us = [];
  a = h;
  da = hd;
  b = t;
  db = null;
  vs = [];
  split = refl;
  inserted = λ c. refl;
  left = refl;
  right = refl;
}
cut (h, hd) t ((y, d) ∷ ys) zero le = record {
  us = [];
  a = h;
  da = hd;
  b = y;
  db = d;
  vs = ys ++ (t, null) ∷ [];
  split = refl;
  inserted = λ c. refl;
  left = refl;
  right = refl;
}
cut h t [] (suc i) le = absurd (omega arith)
cut h t (y ∷ ys) (suc i) le = step i (cut y t ys i (omega arith))
  where
    step : (i : ℕ) → Cut y t ys i → Cut h t (y ∷ ys) (suc i)
    step zero r = record {
      us = h ∷ r.us;
      a = r.a;
      da = r.da;
      b = r.b;
      db = r.db;
      vs = r.vs;
      split = ap (◌∷◌ h) r.split;
      inserted = λ c. ap (◌∷◌ h) (r.inserted c);
      left = r.left;
      right = r.right;
    }
    step (suc i) r = record {
      us = h ∷ r.us;
      a = r.a;
      da = r.da;
      b = r.b;
      db = r.db;
      vs = r.vs;
      split = ap (◌∷◌ h) r.split;
      inserted = λ c. ap (◌∷◌ h) (r.inserted c);
      left = r.left;
      right = r.right;
    }

pub insert-erase :
    (xs : Cells) (i : ℕ) {c : Ptr × Ptr}
    → get_elem? xs i ≡ some c
    → insert_idx (erase_idx xs i) i c ≡ xs
insert-erase [] i e = ground arith
insert-erase (x ∷ xs) zero e = ground arith
insert-erase (x ∷ xs) (suc i) e = ap (◌∷◌ x) (insert-erase xs i e)

pub length-erase :
    (xs : Cells) (i : ℕ) {c : Ptr × Ptr}
    → get_elem? xs i ≡ some c
    → length xs ≡ suc (length (erase_idx xs i))
length-erase [] i e = ground arith
length-erase (x ∷ xs) zero e = refl
length-erase (x ∷ xs) (suc i) e = omega (arith, length-erase xs i e)

pub lt-get : (xs : Cells) (i : ℕ) {c : Ptr × Ptr} → get_elem? xs i ≡ some c → i < length xs
lt-get [] i e = ground arith
lt-get (x ∷ xs) zero e = omega arith
lt-get (x ∷ xs) (suc i) e = omega (arith, lt-get xs i e)

-- The address that `dlist_get` finds.
pub first-drop_get :
    (xs : Cells) (i : ℕ) {a d : Ptr} (stop : Ptr)
    → get_elem? xs i ≡ some (a, d)
    → first (drop i xs) stop ≡ a
first-drop_get [] i stop e = ground arith
first-drop_get ((x, y) ∷ xs) zero stop e = ground arith
first-drop_get (x ∷ xs) (suc i) stop e = first-drop_get xs i stop e

module _ (P : Ptr × Ptr → Type 0) where
  pub All-insert : (xs : Cells) (i : ℕ) (c : Ptr × Ptr) → All P xs → P c → All P (insert_idx xs i c)
  All-insert xs zero c h p = (p, h)
  All-insert [] (suc i) c h p = (p, tt)
  All-insert (x ∷ xs) (suc i) c h p = (h.0, All-insert xs i c h.1 p)

  pub All-erase : (xs : Cells) (i : ℕ) → All P xs → All P (erase_idx xs i)
  All-erase [] i h = tt
  All-erase (x ∷ xs) zero h = h.1
  All-erase (x ∷ xs) (suc i) h = (h.0, All-erase xs i h.1)

-- An address that holds no node is in no chain.
pub not-mem_of_none :
    (m : Memory) (before : Ptr) (xs : Cells) (stop p : Ptr)
    → Seg m before xs stop
    → m.cell p ≡ none
    → has p xs ≡ false
not-mem_of_none m before [] stop p h e = refl
not-mem_of_none m before ((a, d) ∷ xs) stop p h e =
    ground (arith, h.0.holds, not-mem_of_none m a xs stop p h.1)
