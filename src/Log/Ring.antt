-- ===== src/Log/Ring.antt =====
-- What the ring of src/easyipc_debug.c keeps, and what a walk over it returns.
use easyipc.Base.{
  ℕ, zero, suc, ◌+◌, ◌-◌, ◌≤◌, ◌<◌, true, false, Option, none, some, List, [], Bool-cases, inl, inr,
  ◌∷◌, ◌++◌, ◌≡◌, refl, sym, ap, ◌∙◌, arith, ltb, length, drop, get_elem?, get_elem?-length,
  erase_idx, drop-append, length-drop, length-append, append_assoc, append-nil, map,
}
use easyipc.Base.Text.{Text, snprintf}
use easyipc.Log.{Log, kept, memory_push, memory_pull}

-- The last entries of a list.
abbrev pub last : ℕ → List Text → List Text
last n ts = drop (length ts - n) ts

-- The records of a list of texts, saved in turn.
unfoldable pub push_all : ℕ → ℕ → List Text → Log → Log
push_all size maxsize [] l = l
push_all size maxsize (t ∷ ts) l = push_all size maxsize ts (memory_push size t maxsize l)

-- The texts of a number of pulls, and the state after them.
unfoldable pub pull_all : ℕ → ℕ → Log → List (Option Text) × Log
pull_all maxsize zero l = ([], l)
pull_all maxsize (suc n) l =
    let (o, m) = memory_pull maxsize l in let (os, k) = pull_all maxsize n m in (o ∷ os, k)

-- The ring counts its entries, which are one more than its size at most.
pub record IsRing (size : ℕ) (l : Log) : Type 0 where
  pub counted : l.log_size ≡ length l.log_list
  pub bounded : l.log_size ≤ suc size

abbrev no_text : List Text
no_text = []

drop-nil : (k : ℕ) → drop k no_text ≡ no_text
drop-nil zero = refl
drop-nil (suc k) = refl

drop-drop : (a b : ℕ) (ts : List Text) → drop a (drop b ts) ≡ drop (b + a) ts
drop-drop a zero ts = ap (λ k. drop k ts) (omega arith)
drop-drop a (suc b) [] = drop-nil a ∙ sym (drop-nil (suc b + a))
drop-drop a (suc b) (t ∷ ts) =
    let e : suc (b + a) ≡ suc b + a = omega arith in drop-drop a b ts ∙ ap (λ k. drop k (t ∷ ts)) e

last-of_le : (n : ℕ) (ts : List Text) → length ts ≤ n → last n ts ≡ ts
last-of_le n ts h = let e : length ts - n ≡ 0 = omega arith in ap (λ k. drop k ts) e

last-append : (n : ℕ) (ts us : List Text) → last n (last n ts ++ us) ≡ last n (ts ++ us)
last-append n ts us =
    let k : ℕ = length ts - n in
    let m : ℕ = length (drop k ts ++ us) - n in
    let e : k + m ≡ length (ts ++ us) - n =
      omega (arith, length-append (drop k ts) us, length-append ts us, length-drop k ts) in
    ap (drop m) (sym (drop-append k ts us (omega arith)))
    ∙ drop-drop m k (ts ++ us)
    ∙ ap (λ i. drop i (ts ++ us)) e

-- The full ring without its oldest text, which is all but the last of the ring and the new text.
full-last :
    (n : ℕ) (ts : List Text) (t : Text)
    → length ts ≡ suc n
    → erase_idx ts 0 ++ t ∷ [] ≡ last (suc n) (ts ++ t ∷ [])
full-last n [] t h = absurd (omega arith)
full-last n (u ∷ us) t h =
    let e : 1 ≡ length (u ∷ us ++ t ∷ []) - suc n = omega (arith, length-append us (t ∷ [])) in
    ap (λ k. drop k (u ∷ us ++ t ∷ [])) e

-- A push keeps the last texts of the ring and the new one.
memory_push-last :
    (size : ℕ) (t : Text) (maxsize : ℕ) (l : Log)
    → IsRing size l
    → (memory_push size t maxsize l).log_list ≡ last (suc size) (l.log_list ++ kept t maxsize ∷ [])
unfolding memory_push
memory_push-last size t maxsize l r = elim (Bool-cases (ltb size l.log_size)) [
  | inl e ↦ rw e (full-last size l.log_list (kept t maxsize) (ground (arith, r.counted, r.bounded)))
  | inr e ↦ rw e (
      sym (
        last-of_le (suc size) (l.log_list ++ kept t maxsize ∷ [])
          (ground (arith, r.counted, length-append l.log_list (kept t maxsize ∷ [])))))
]

length-erase : (ts : List Text) → 0 < length ts → length (erase_idx ts 0) + 1 ≡ length ts
length-erase [] h = absurd (omega arith)
length-erase (t ∷ ts) h = omega arith

pub memory_push-IsRing :
    (size : ℕ) (t : Text) (maxsize : ℕ) (l : Log)
    → IsRing size l
    → IsRing size (memory_push size t maxsize l)
unfolding memory_push
memory_push-IsRing size t maxsize l r = record {
  counted = ground (
    arith,
    r.counted,
    length-erase l.log_list,
    length-append l.log_list (kept t maxsize ∷ []),
    length-append (erase_idx l.log_list 0) (kept t maxsize ∷ []),
  );
  bounded = ground (arith, r.bounded);
}

-- A log that counts its entries, at most one more than its size, holds after any further texts
-- the last of its entries and of these texts, each cut to the limit of a record: all of them, or
-- one more than its size.
pub push_all_lem :
    (size maxsize : ℕ) (ts : List Text) (l : Log)
    → IsRing size l
    → (push_all size maxsize ts l).log_list
      ≡ last (suc size) (l.log_list ++ map (λ t. kept t maxsize) ts)
unfolding push_all
push_all_lem size maxsize [] l r = sym (
    last-of_le (suc size) (l.log_list ++ [])
      (omega (arith, r.counted, r.bounded, length-append l.log_list []))
    ∙ append-nil l.log_list)
push_all_lem size maxsize (t ∷ ts) l r =
    let kepts = map (λ u. kept u maxsize) ts in
    push_all_lem size maxsize ts (memory_push size t maxsize l)
      (memory_push-IsRing size t maxsize l r)
    ∙ ap (λ us. last (suc size) (us ++ kepts)) (memory_push-last size t maxsize l r)
    ∙ last-append (suc size) (l.log_list ++ kept t maxsize ∷ []) kepts
    ∙ ap (last (suc size)) (append_assoc l.log_list (kept t maxsize ∷ []) kepts)

abbrev pub empty_log : Log
empty_log = record { log_list = []; log_size = 0; index = 0 }

memory_pull-end :
    (maxsize : ℕ) (l : Log)
    → ltb l.index l.log_size ≡ false
    → memory_pull maxsize l ≡ (none, record l { index = 0 })
unfolding memory_pull
memory_pull-end maxsize l h = rw h

memory_pull-some :
    (maxsize : ℕ) (l : Log) (t : Text)
    → ltb l.index l.log_size ≡ true
    → get_elem? l.log_list l.index ≡ some t
    → memory_pull maxsize l ≡ (some (snprintf maxsize t), record l { index = l.index + 1 })
unfolding memory_pull
memory_pull-some maxsize l t h e = rw (memory_pull, h, e)

pull_all-step :
    (maxsize n : ℕ) (l k : Log) (o : Option Text)
    → memory_pull maxsize l ≡ (o, k)
    → pull_all maxsize (suc n) l ≡ (o ∷ (pull_all maxsize n k).0, (pull_all maxsize n k).1)
unfolding pull_all
pull_all-step maxsize n l k o e =
    ap (λ r. (r.0 ∷ (pull_all maxsize n r.1).0, (pull_all maxsize n r.1).1)) e

-- In a log that counts its entries, from the walk's index on, as many pulls as there are texts
-- left return each in turn, cut to the reader's limit, and the next pull returns nothing and
-- puts the walk back to its start.
pub pull_all_lem :
    (size maxsize : ℕ) (us vs : List Text) (l : Log)
    → IsRing size l
    → l.log_list ≡ us ++ vs
    → l.index ≡ length us
    → pull_all maxsize (suc (length vs)) l
      ≡ (map (λ t. some (snprintf maxsize t)) vs ++ none ∷ [], record l { index = 0 })
unfolding pull_all
pull_all_lem size maxsize us [] l r e i =
    pull_all-step maxsize 0 l _ none
      (memory_pull-end maxsize l (ground (arith, i, r.counted, ap length e, length-append us [])))
pull_all_lem size maxsize us (v ∷ vs) l r e i =
    let next : Log = record l { index = l.index + 1 } in
    let found : get_elem? l.log_list l.index ≡ some v = rw (e, i) (get_elem?-length us v vs) in
    let inside : ltb l.index l.log_size ≡ true =
      ground (arith, i, r.counted, ap length e, length-append us (v ∷ vs)) in
    let rest =
      pull_all_lem size maxsize (us ++ v ∷ []) vs next
        (record { counted = r.counted; bounded = r.bounded })
        (e ∙ sym (append_assoc us (v ∷ []) vs)) (omega (arith, i, length-append us (v ∷ []))) in
    pull_all-step maxsize (suc (length vs)) l next (some (snprintf maxsize v))
      (memory_pull-some maxsize l v inside found)
    ∙ ap (λ p. (some (snprintf maxsize v) ∷ p.0, p.1)) rest
