-- ===== src/Dlist/Walk.antt =====
-- What a list of src/dlist.c stands for, and the two walks, `dlist_len` and `dlist_get`.
use easyipc.Base.{
  ℕ, zero, suc, ◌+◌, ◌<◌, ◌≤◌, ◌≡◌, refl, ◌≢◌, ◌∙◌, ap, inl, inr, false, some, [], ◌∷◌, ◌++◌, arith,
  ◌==◌, ltb, Bool-cases, length, drop, All,
}
use easyipc.Base.Int.{pos}
use easyipc.Memory.{Ptr, null, Memory, ok}
use easyipc.Dlist.{Dlist, len_loop, len, get_loop, get}
use easyipc.Dlist.Chain.{Cells, first, Distinct, Seg, load-Holds, Seg-split, first-append}

abbrev pub whole : Dlist → Cells → Cells
whole l xs = (l.head, null) ∷ (xs ++ (l.tail, null) ∷ [])

-- The list `l` holds the entries `xs`, between its sentinels, which alone have no payload.
pub record IsDlist (m : Memory) (l : Dlist) (xs : Cells) : Type 0 where
  pub chain : Seg m null (whole l xs) null
  pub apart : Distinct (whole l xs)
  pub filled : All (λ c. c.1 ≢ null) xs

len_loop-Seg :
    (m : Memory) (fuel n before tail : ℕ) (xs : Cells)
    → Seg m before (xs ++ (tail, null) ∷ []) null
    → All (λ c. c.1 ≢ null) xs
    → length xs < fuel
    → len_loop fuel (first xs tail) n m ≡ ok (n + length xs) m
unfolding len_loop
len_loop-Seg m zero n before tail xs h f lt = absurd (omega arith)
len_loop-Seg m (suc fuel) n before tail [] h f lt =
    rw (load-Holds h.0) (ap (λ k. ok k m) (omega arith))
len_loop-Seg m (suc fuel) n before tail ((a, d) ∷ xs) h f lt =
    let filled : (d == null) ≡ false = ground (arith, f.0) in
    rw (load-Holds h.0, filled, first-append xs ((tail, null) ∷ []) null)
      (len_loop-Seg m fuel (n + 1) a tail xs h.1 f.1 (omega arith) ∙ ap (λ k. ok k m) (omega arith))

get_loop-Seg :
    (m : Memory) (i before stop : ℕ) (xs : Cells)
    → Seg m before xs stop
    → i < length xs
    → get_loop i (first xs stop) m ≡ ok (first (drop i xs) stop) m
unfolding get_loop
get_loop-Seg m zero before stop xs h lt = refl
get_loop-Seg m (suc i) before stop [] h lt = absurd (omega arith)
get_loop-Seg m (suc i) before stop ((a, d) ∷ xs) h lt =
    rw (load-Holds h.0) (get_loop-Seg m i a stop xs h.1 (omega arith))

drop_past : (i : ℕ) (xs : Cells) → length xs ≤ i → drop i xs ≡ []
drop_past zero [] h = refl
drop_past zero (x ∷ xs) h = absurd (omega arith)
drop_past (suc i) [] h = refl
drop_past (suc i) (x ∷ xs) h = drop_past i xs (omega arith)

-- Where an entry is left, its address does not depend on what stands behind the list.
first-drop :
    (i : ℕ) (xs : Cells) (stop : Ptr)
    → i < length xs
    → first (drop i xs) stop ≡ first (drop i xs) null
first-drop i [] stop h = absurd (omega arith)
first-drop zero (x ∷ xs) stop h = refl
first-drop (suc i) (x ∷ xs) stop h = first-drop i xs stop (omega arith)

module _ (fuel : ℕ) {m : Memory} {l : Dlist} {xs : Cells} (is : IsDlist m l xs)
    (enough : length xs < fuel) where
  -- On a list that holds `xs`, with fuel for its length, `dlist_len` returns the length of `xs`
  -- and changes nothing.
  pub len-IsDlist : len fuel (some l) m ≡ ok (length xs) m
  unfolding len
  len-IsDlist =
      rw (load-Holds is.chain.0, first-append xs ((l.tail, null) ∷ []) null)
        (len_loop-Seg m fuel 0 l.head l.tail xs is.chain.1 is.filled enough
          ∙ ap (λ k. ok k m) (omega arith))

  -- On a list that holds `xs`, with fuel for its length, `dlist_get` of an index that is not
  -- negative returns the address of the entry at that index, `NULL` past the end, and changes
  -- nothing.
  pub get-IsDlist : (i : ℕ) → get fuel (some l) (pos i) m ≡ ok (first (drop i xs) null) m
  unfolding get
  get-IsDlist i = rw len-IsDlist (elim (Bool-cases (ltb i (length xs))) [
    | inl inside ↦
        rw (inside, load-Holds is.chain.0, first-append xs ((l.tail, null) ∷ []) null)
          (get_loop-Seg m i l.head l.tail xs
              (Seg-split m null l.head xs ((l.tail, null) ∷ []) is.chain.1).0 (ground arith)
            ∙ ap (λ p. ok p m) (first-drop i xs l.tail (ground arith)))
    | inr outside ↦ rw (outside, drop_past i xs (ground arith))
  ])
