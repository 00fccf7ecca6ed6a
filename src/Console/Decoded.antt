-- ===== src/Console/Decoded.antt =====
-- What a receiver reads of the message that `eipcmsg`, src/easyipc_console.c, makes of its
-- parameters: a structure with a field for each.
use easyipc.Base.{
  ℕ, zero, suc, ◌+◌, ◌-◌, ◌*◌, ◌/◌, ◌<◌, true, List, [], ◌∷◌, ◌++◌, ◌≡◌, refl, ap, subst, sym, ◌∙◌,
  arith, take, drop, length, All, append_assoc, append-nil, take-append, take-of_le, drop-append,
  drop-length,
}
use easyipc.Base.Int.{ℤ, pos, negsuc, pos_part}
use easyipc.Base.Text.{Text}
use easyipc.Misc.{c_str}
use easyipc.Misc.Selected.{no_nul, no_nul-take, c_str-append}
use easyipc.Console.Params.{
  ParamType, int32, int16, int8, char, uint32, uint16, uint8, string, size_of, bits, le_bytes,
  string_bytes, first_byte, stored, built, zeros, build_params,
}
use easyipc.Base.Scan.{atoi}
use easyipc.Console.Encoded.{
  Valid, padded, encoded, build_params-encoded, length-padded, length-stored, length-le_bytes,
}

-- What a field holds.
pub data Value : Type 0 where
  number : ℕ → Value
  text : Text → Value

-- The number of some bytes, the low one first.
abbrev pub le_value : List ℕ → ℕ
le_value [] = 0
le_value (b ∷ bs) = b + 256 * le_value bs

-- A field of the type, from its bytes.
abbrev pub read_field : ParamType → List ℕ → Value
read_field int32 bs = number (le_value bs)
read_field int16 bs = number (le_value bs)
read_field int8 bs = number (le_value bs)
read_field char bs = number (le_value bs)
read_field uint32 bs = number (le_value bs)
read_field uint16 bs = number (le_value bs)
read_field uint8 bs = number (le_value bs)
read_field (string z) bs = text (c_str bs)

-- The fields of a structure, one behind another.
abbrev pub read_fields : List ParamType → List ℕ → List Value
read_fields [] bs = []
read_fields (ty ∷ tys) bs =
    let n = pos_part (size_of ty) in read_field ty (take n bs) ∷ read_fields tys (drop n bs)

-- The value of a parameter: the low bits of the number, in two's complement, or the bytes of the
-- string that its size has room for beside the end.
abbrev pub value_of : ParamType → Text → Value
value_of int32 v = number (bits 32 (atoi v))
value_of int16 v = number (bits 16 (atoi v))
value_of int8 v = number (bits 8 (atoi v))
value_of char v = number (first_byte v)
value_of uint32 v = number (bits 32 (atoi v))
value_of uint16 v = number (bits 16 (atoi v))
value_of uint8 v = number (bits 8 (atoi v))
value_of (string z) v = text (take (pos_part z - 1) v)

abbrev pub types : (ps : List (Text × Text)) → All Valid ps → List ParamType
types [] valid = []
types (p ∷ ps) valid = valid.0.type ∷ types ps valid.1

abbrev pub values : (ps : List (Text × Text)) → All Valid ps → List Value
values [] valid = []
values ((t, v) ∷ ps) valid = value_of valid.0.type v ∷ values ps valid.1

abbrev limit : ℕ → ℕ
limit zero = 1
limit (suc k) = 256 * limit k

le_value-le_bytes : (k v : ℕ) → v < limit k → le_value (le_bytes k v) ≡ v
unfolding le_bytes
le_value-le_bytes zero v h = omega arith
le_value-le_bytes (suc k) v h =
    let ih = le_value-le_bytes k (v / 256) (omega arith) in omega (arith, ih)

bits-lt-32 : (z : ℤ) → bits 32 z < limit 4
unfolding bits
bits-lt-32 (pos n) = omega arith
bits-lt-32 (negsuc n) = omega arith

bits-lt-16 : (z : ℤ) → bits 16 z < limit 2
unfolding bits
bits-lt-16 (pos n) = omega arith
bits-lt-16 (negsuc n) = omega arith

bits-lt-8 : (z : ℤ) → bits 8 z < limit 1
unfolding bits
bits-lt-8 (pos n) = omega arith
bits-lt-8 (negsuc n) = omega arith

-- A number of as many bytes as its field has.
le_field : (k v : ℕ) → v < limit k → le_value (padded k (le_bytes k v)) ≡ v
le_field k v h =
    let none_left : k - length (le_bytes k v) ≡ 0 = omega (arith, length-le_bytes k v) in
    ap (λ n. le_value (le_bytes k v ++ zeros n)) none_left
    ∙ ap le_value (append-nil (le_bytes k v))
    ∙ le_value-le_bytes k v h

c_str-padded :
    (k : ℕ) (v : Text) → no_nul v ≡ true → c_str (padded (suc k) (take k v ++ 0 ∷ [])) ≡ take k v
c_str-padded k v h =
    let n = suc k - length (take k v ++ 0 ∷ []) in
    ap c_str (append_assoc (take k v) (0 ∷ []) (zeros n))
    ∙ c_str-append (take k v) (zeros n) (no_nul-take k v h)

-- A field with its size.
abbrev Reads : ParamType → Text → ℕ → Type 0
Reads ty v n = read_field ty (padded n (stored ty v)) ≡ value_of ty v

at_size : (ty : ParamType) (v : Text) (k n : ℕ) → pos k ≡ pos n → Reads ty v k → Reads ty v n
at_size ty v k n h = subst (Reads ty v) (ap pos_part h)

read_field-padded :
    (ty : ParamType) (n : ℕ) (v : Text)
    → size_of ty ≡ pos (suc n)
    → no_nul v ≡ true
    → Reads ty v (suc n)
unfolding size_of stored string_bytes
read_field-padded int32 n v h clean =
    at_size int32 v 4 (suc n) h (ap number (le_field 4 (bits 32 (atoi v)) (bits-lt-32 (atoi v))))
read_field-padded int16 n v h clean =
    at_size int16 v 2 (suc n) h (ap number (le_field 2 (bits 16 (atoi v)) (bits-lt-16 (atoi v))))
read_field-padded int8 n v h clean =
    at_size int8 v 1 (suc n) h (ap number (le_field 1 (bits 8 (atoi v)) (bits-lt-8 (atoi v))))
read_field-padded char n v h clean = at_size char v 1 (suc n) h (ap number (omega arith))
read_field-padded uint32 n v h clean =
    at_size uint32 v 4 (suc n) h (ap number (le_field 4 (bits 32 (atoi v)) (bits-lt-32 (atoi v))))
read_field-padded uint16 n v h clean =
    at_size uint16 v 2 (suc n) h (ap number (le_field 2 (bits 16 (atoi v)) (bits-lt-16 (atoi v))))
read_field-padded uint8 n v h clean =
    at_size uint8 v 1 (suc n) h (ap number (le_field 1 (bits 8 (atoi v)) (bits-lt-8 (atoi v))))
read_field-padded (string (pos zero)) n v h clean = absurd (ground (arith, h))
read_field-padded (string (pos (suc k))) n v h clean =
    let e : suc k - 1 ≡ k = omega arith in
    at_size (string (pos (suc k))) v (suc k) (suc n) h
      (ap text (c_str-padded k v clean ∙ ap (λ m. take m v) (sym e)))
read_field-padded (string (negsuc k)) n v h clean = absurd (ground (arith, h))

take-whole : (n : ℕ) (xs ys : List ℕ) → length xs ≡ n → take n (xs ++ ys) ≡ xs
take-whole n xs ys h = take-append n xs ys (omega arith) ∙ take-of_le n xs (omega arith)

drop-whole : (n : ℕ) (xs ys : List ℕ) → length xs ≡ n → drop n (xs ++ ys) ≡ ys
drop-whole n xs ys h =
    drop-append n xs ys (omega arith)
    ∙ ap (λ k. drop k xs ++ ys) (sym h)
    ∙ ap (λ zs. zs ++ ys) (drop-length xs)

read_fields-encoded :
    (ps : List (Text × Text)) (valid : All Valid ps)
    → All (λ p. no_nul p.1 ≡ true) ps
    → read_fields (types ps valid) (encoded ps valid) ≡ values ps valid
read_fields-encoded [] valid clean = refl
read_fields-encoded ((t, v) ∷ ps) valid clean =
    let r = valid.0 in
    let n : ℕ = suc r.size in
    let size : pos_part (size_of r.type) ≡ n = ap pos_part r.positive in
    let ds : List ℕ = padded n (stored r.type v) in
    let long : length ds ≡ n =
      length-padded n (stored r.type v) (length-stored r.type r.size v r.positive) in
    let rest = encoded ps valid.1 in
    let head : read_field r.type (take (pos_part (size_of r.type)) (ds ++ rest))
        ≡ value_of r.type v =
      ap (λ k. read_field r.type (take k (ds ++ rest))) size
      ∙ ap (read_field r.type) (take-whole n ds rest long)
      ∙ read_field-padded r.type r.size v r.positive clean.0 in
    let tail : read_fields (types ps valid.1) (drop (pos_part (size_of r.type)) (ds ++ rest))
        ≡ values ps valid.1 =
      ap (λ k. read_fields (types ps valid.1) (drop k (ds ++ rest))) size
      ∙ ap (read_fields (types ps valid.1)) (drop-whole n ds rest long)
      ∙ read_fields-encoded ps valid.1 clean.1 in
    ap (λ x. x ∷ read_fields (types ps valid.1) (drop (pos_part (size_of r.type)) (ds ++ rest)))
      head
    ∙ ap (◌∷◌ (value_of r.type v)) tail

-- Let each parameter of `eipcmsg` have one of the known types with a size above 0, and let no
-- value contain a NUL. Then the two passes make a message without an error and without a store
-- outside the buffer, and a receiver that reads the fields of these types in their order finds
-- in each field of a number the low bits of the number that `atoi` reads, in a "C" the first
-- byte, and in an "S" the string cut to its size less the end.
pub read_fields-build_params :
    (ps : List (Text × Text)) (valid : All Valid ps)
    → All (λ p. no_nul p.1 ≡ true) ps
    → (bytes : List ℕ) × (build_params ps ≡ built bytes)
      × (read_fields (types ps valid) bytes ≡ values ps valid)
read_fields-build_params ps valid clean =
    (encoded ps valid, build_params-encoded ps valid, read_fields-encoded ps valid clean)
