-- ===== src/Console/Encoded.antt =====
-- The message that the two passes of `eipcmsg`, src/easyipc_console.c, make of its parameters.
use easyipc.Base.{
  ℕ, zero, suc, ◌+◌, ◌-◌, ◌/◌, ◌≤◌, some, List, [], ◌∷◌, ◌++◌, ◌≡◌, refl, ap, sym, ◌∙◌, arith, take,
  length, All, append_assoc, length-append, length-take-le,
}
use easyipc.Base.Int.{pos, negsuc, ◌+ℤ◌, ◌-ℤ◌}
use easyipc.Base.Text.{Text}
use easyipc.Console.Params.{
  ParamType, int32, int16, int8, char, uint32, uint16, uint8, string, param_type, size_of,
  param_size, sized, size_params, bits, le_bytes, store_at, store, string_bytes, stored, built,
  fill_params, zeros, fill_buffer, build_params,
}
use easyipc.Base.Scan.{atoi}

-- A parameter whose type is known, with a size that is positive.
pub record Valid (p : Text × Text) : Type 0 where
  pub type : ParamType
  pub size : ℕ
  pub known : param_type p.0 ≡ some type
  pub positive : size_of type ≡ pos (suc size)

-- The bytes that are stored, and zeros up to the size.
abbrev pub padded : ℕ → List ℕ → List ℕ
padded n bs = bs ++ zeros (n - length bs)

-- The data of the message: the bytes of the parameters, one after another.
abbrev pub encoded : (ps : List (Text × Text)) → All Valid ps → List ℕ
encoded [] valid = []
encoded ((t, v) ∷ ps) valid =
    padded (suc valid.0.size) (stored valid.0.type v) ++ encoded ps valid.1

pub length-le_bytes : (k v : ℕ) → length (le_bytes k v) ≡ k
unfolding le_bytes
length-le_bytes zero v = refl
length-le_bytes (suc k) v = ap suc (length-le_bytes k (v / 256))

pub length-stored :
    (ty : ParamType) (n : ℕ) (v : Text) → size_of ty ≡ pos (suc n) → length (stored ty v) ≤ suc n
unfolding size_of stored string_bytes
length-stored int32 n v h = ground (arith, length-le_bytes 4 (bits 32 (atoi v)))
length-stored int16 n v h = ground (arith, length-le_bytes 2 (bits 16 (atoi v)))
length-stored int8 n v h = ground (arith, length-le_bytes 1 (bits 8 (atoi v)))
length-stored char n v h = omega arith
length-stored uint32 n v h = ground (arith, length-le_bytes 4 (bits 32 (atoi v)))
length-stored uint16 n v h = ground (arith, length-le_bytes 2 (bits 16 (atoi v)))
length-stored uint8 n v h = ground (arith, length-le_bytes 1 (bits 8 (atoi v)))
length-stored (string (pos zero)) n v h = ground arith
length-stored (string (pos (suc k))) n v h =
    ground (arith, length-take-le k v, length-append (take k v) (0 ∷ []))
length-stored (string (negsuc k)) n v h = ground arith

store_at-append :
    (us ds xs ws : List ℕ)
    → length xs ≡ length ds
    → store_at (length us) ds (us ++ (xs ++ ws)) ≡ some (us ++ (ds ++ ws))
unfolding store_at
store_at-append [] [] [] ws h = refl
store_at-append [] [] (x ∷ xs) ws h = absurd (omega arith)
store_at-append [] (d ∷ ds) [] ws h = absurd (omega arith)
store_at-append [] (d ∷ ds) (x ∷ xs) ws h = rw (store_at-append [] ds xs ws (omega arith))
store_at-append (u ∷ us) ds xs ws h = rw (store_at-append us ds xs ws h)

length-zeros : (n : ℕ) → length (zeros n) ≡ n
length-zeros zero = refl
length-zeros (suc n) = ap suc (length-zeros n)

zeros-append : (a b : ℕ) → zeros a ++ zeros b ≡ zeros (a + b)
zeros-append zero b = ap zeros (omega arith)
zeros-append (suc a) b =
    let e : suc (a + b) ≡ suc a + b = omega arith in ap (◌∷◌ 0) (zeros-append a b) ∙ ap zeros e

-- The store behind the bytes that are there, in the zeros that are left.
store-padded :
    (us ds : List ℕ) (n m : ℕ)
    → length ds ≤ n
    → store (pos (length us)) ds (us ++ zeros (n + m)) ≡ some (us ++ (padded n ds ++ zeros m))
unfolding store
store-padded us ds n m h =
    let k : ℕ = length ds in
    let split : zeros (n + m) ≡ zeros k ++ zeros (n - k + m) =
      ap zeros (omega arith) ∙ sym (zeros-append k (n - k + m)) in
    let join : ds ++ zeros (n - k + m) ≡ padded n ds ++ zeros m =
      ap (◌++◌ ds) (sym (zeros-append (n - k) m))
      ∙ sym (append_assoc ds (zeros (n - k)) (zeros m)) in
    ap (λ z. store_at (length us) ds (us ++ z)) split
    ∙ store_at-append us ds (zeros k) (zeros (n - k + m)) (length-zeros k)
    ∙ ap (λ z. some (us ++ z)) join

pos_add : (a b : ℕ) → pos a +ℤ pos b ≡ pos (a + b)
unfolding ◌+ℤ◌
pos_add a b = ground arith

pos_sub : (a b : ℕ) → pos (a + b) -ℤ pos b ≡ pos a
unfolding ◌-ℤ◌
pos_sub a b = ground arith

pub length-padded : (n : ℕ) (bs : List ℕ) → length bs ≤ n → length (padded n bs) ≡ n
length-padded n bs h =
    omega (arith, length-append bs (zeros (n - length bs)), length-zeros (n - length bs))

size_params-encoded :
    (ps : List (Text × Text)) (valid : All Valid ps) (i k : ℕ)
    → size_params i (pos k) ps ≡ sized (pos (k + length (encoded ps valid)))
unfolding size_params param_size
size_params-encoded [] valid i k = ap (λ n. sized (pos n)) (omega arith)
size_params-encoded ((t, v) ∷ ps) valid i k =
    let r = valid.0 in
    let n : ℕ = suc r.size in
    let ih = size_params-encoded ps valid.1 (i + 1) (k + n) in
    let bytes : List ℕ = padded n (stored r.type v) in
    let e : k + n + length (encoded ps valid.1) ≡ k + length (bytes ++ encoded ps valid.1) = omega (
      arith,
      length-append bytes (encoded ps valid.1),
      length-padded n (stored r.type v) (length-stored r.type r.size v r.positive),
    ) in
    rw (size_params, r.known, r.positive, pos_add k n, ih) (ap (λ m. sized (pos m)) e)

fill_params-encoded :
    (ps : List (Text × Text)) (valid : All Valid ps) (i : ℕ) (us : List ℕ)
    → fill_params i (pos (length us)) (us ++ zeros (length (encoded ps valid))) ps
      ≡ built (us ++ encoded ps valid)
unfolding fill_params
fill_params-encoded [] valid i us = refl
fill_params-encoded ((t, v) ∷ ps) valid i us =
    let r = valid.0 in
    let n : ℕ = suc r.size in
    let m : ℕ = length (encoded ps valid.1) in
    let ds : List ℕ = stored r.type v in
    let short : length ds ≤ n = length-stored r.type r.size v r.positive in
    let whole : length (padded n ds ++ encoded ps valid.1) ≡ n + m =
      omega (arith, length-append (padded n ds) (encoded ps valid.1), length-padded n ds short) in
    let next : us ++ (padded n ds ++ zeros m) ≡ us ++ padded n ds ++ zeros m =
      sym (append_assoc us (padded n ds) (zeros m)) in
    let here : length us + n ≡ length (us ++ padded n ds) =
      omega (arith, length-append us (padded n ds), length-padded n ds short) in
    let ih = fill_params-encoded ps valid.1 (i + 1) (us ++ padded n ds) in
    let sum : pos (length us) +ℤ size_of r.type ≡ pos (length us + n) =
      ap (◌+ℤ◌ (pos (length us))) r.positive ∙ pos_add (length us) n in
    let back : pos (length us) +ℤ size_of r.type -ℤ size_of r.type ≡ pos (length us) =
      ap (λ z. z -ℤ size_of r.type) sum
      ∙ ap (◌-ℤ◌ (pos (length us + n))) r.positive
      ∙ pos_sub (length us) n in
    let ahead : pos (length us) +ℤ size_of r.type ≡ pos (length (us ++ padded n ds)) =
      sum ∙ ap pos here in
    rw (fill_params, r.known, back, whole, store-padded us ds n m short, next, ahead, ih)
      (ap built (append_assoc us (padded n ds) (encoded ps valid.1)))

-- The two passes make the data of the parameters, without an error and inside the buffer.
pub build_params-encoded :
    (ps : List (Text × Text)) (valid : All Valid ps) → build_params ps ≡ built (encoded ps valid)
unfolding build_params fill_buffer
build_params-encoded ps valid =
    let e : size_params 0 (pos 0) ps ≡ sized (pos (length (encoded ps valid))) =
      size_params-encoded ps valid 0 0 ∙ ap (λ k. sized (pos k)) (omega arith) in
    rw (build_params, e) (fill_params-encoded ps valid 0 [])
