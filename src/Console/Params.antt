-- ===== src/Console/Params.antt =====
-- The parameters of `eipcmsg`, src/easyipc_console.c: the size of the message, then its bytes.
use easyipc.Base.{
  ℕ, zero, suc, ◌+◌, ◌-◌, ◌*◌, ◌/◌, ◌%◌, ◌^◌, Bool, true, false, Option, none, some, List, [], ◌∷◌,
  ◌++◌, take, ◌==◌, if◌then◌else◌,
}
use easyipc.Base.Int.{ℤ, pos, negsuc, ◌+ℤ◌, ◌-ℤ◌}
use easyipc.Base.Text.{Text, str_eq, codes}
use easyipc.Base.Scan.{atoi}
use mathlib.Core.Option.{map as map_option}

-- The types of a parameter.
pub data ParamType : Type 0 where
  int32 int16 int8 char uint32 uint16 uint8 : ParamType
  -- "S" with the number behind it
  string : ℤ → ParamType

-- The chain of comparisons that both passes make.
unfoldable pub param_type : Text → Option ParamType
unfolding atoi
param_type t =
    if str_eq t (codes "I32")
    then some int32
    else (if str_eq t (codes "I16")
        then some int16
        else (if str_eq t (codes "I8")
            then some int8
            else (if str_eq t (codes "C")
                then some char
                else (if str_eq t (codes "U32")
                    then some uint32
                    else (if str_eq t (codes "U16")
                        then some uint16
                        else (if str_eq t (codes "U8") then some uint8 else elim t [
                          | [] ↦ none
                          | ch ∷ rest ↦ if ch == 83 then some (string (atoi rest)) else none
                        ]))))))

unfoldable pub size_of : ParamType → ℤ
size_of int32 = pos 4
size_of int16 = pos 2
size_of int8 = pos 1
size_of char = pos 1
size_of uint32 = pos 4
size_of uint16 = pos 2
size_of uint8 = pos 1
size_of (string z) = z

abbrev is_zero : ℤ → Bool
is_zero (pos zero) = true
is_zero (pos (suc n)) = false
is_zero (negsuc n) = false

-- What the first pass adds for a parameter; "S" with 0 is an error.
unfoldable pub param_size : Text → Option ℤ
unfolding param_type size_of
param_size t = elim (param_type t) [
  | none ↦ none
  | some ty ↦ if is_zero (size_of ty) then none else some (size_of ty)
]

-- The outcome of the first pass: an error at an argument, or `malloc_size`.
pub data Sized : Type 0 where
  size_error : ℕ → Text → Sized
  sized : ℤ → Sized

-- The first pass, with `i` and `malloc_size`.
unfoldable pub size_params : ℕ → ℤ → List (Text × Text) → Sized
unfolding param_size
size_params i size [] = sized size
size_params i size ((t, v) ∷ ps) = elim (param_size t) [
  | none ↦ size_error ((i + 1) * 2) t
  | some z ↦ size_params (i + 1) (size +ℤ z) ps
]

-- The low bits of a number.
unfoldable pub bits : ℕ → ℤ → ℕ
bits w (pos n) = n % 2 ^ w
bits w (negsuc n) = 2 ^ w - 1 - n % 2 ^ w

-- The bytes of a number, the low one first, as the machine stores it.
unfoldable pub le_bytes : ℕ → ℕ → List ℕ
le_bytes zero v = []
le_bytes (suc k) v = v % 256 ∷ le_bytes k (v / 256)

-- A store of some bytes at an offset, if they lie in the buffer.
unfoldable pub store_at : ℕ → List ℕ → List ℕ → Option (List ℕ)
store_at zero [] buffer = some buffer
store_at zero (d ∷ ds) [] = none
store_at zero (d ∷ ds) (b ∷ bs) = map_option (◌∷◌ d) (store_at zero ds bs)
store_at (suc i) ds [] = none
store_at (suc i) ds (b ∷ bs) = map_option (◌∷◌ b) (store_at i ds bs)

unfoldable pub store : ℤ → List ℕ → List ℕ → Option (List ℕ)
unfolding store_at
store (pos i) ds buffer = store_at i ds buffer
store (negsuc i) ds buffer = none

-- What `snprintf` stores of a string for a size, which a negative number makes as good as none.
unfoldable pub string_bytes : ℤ → Text → List ℕ
string_bytes (pos zero) v = []
string_bytes (pos (suc k)) v = take k v ++ 0 ∷ []
string_bytes (negsuc k) v = v ++ 0 ∷ []

-- The first byte of a string.
abbrev pub first_byte : Text → ℕ
first_byte [] = 0
first_byte (ch ∷ rest) = ch

-- The bytes that the second pass stores for a parameter.
unfoldable pub stored : ParamType → Text → List ℕ
unfolding bits le_bytes string_bytes atoi
stored int32 v = le_bytes 4 (bits 32 (atoi v))
stored int16 v = le_bytes 2 (bits 16 (atoi v))
stored int8 v = le_bytes 1 (bits 8 (atoi v))
stored char v = first_byte v ∷ []
stored uint32 v = le_bytes 4 (bits 32 (atoi v))
stored uint16 v = le_bytes 2 (bits 16 (atoi v))
stored uint8 v = le_bytes 1 (bits 8 (atoi v))
stored (string z) v = string_bytes z v

-- The outcome of both passes: a message, an error at an argument, or a store outside the buffer.
pub data Built : Type 0 where
  built : List ℕ → Built
  param_error : ℕ → Text → Built
  overrun : Built

-- The second pass, with `i`, `till_size` and the buffer.
unfoldable pub fill_params : ℕ → ℤ → List ℕ → List (Text × Text) → Built
unfolding param_type size_of stored store
fill_params i till buffer [] = built buffer
fill_params i till buffer ((t, v) ∷ ps) = elim (param_type t) [
  | none ↦ param_error ((i + 1) * 2) t
  | some ty ↦
      let till' : ℤ = till +ℤ size_of ty in
      elim (store (till' -ℤ size_of ty) (stored ty v) buffer) [
        | none ↦ overrun
        | some buffer' ↦ fill_params (i + 1) till' buffer' ps
      ]
]

-- `bzero`
abbrev pub zeros : ℕ → List ℕ
zeros zero = []
zeros (suc k) = 0 ∷ zeros k

-- `malloc` and `bzero`, where a negative size has no memory, and the second pass.
unfoldable pub fill_buffer : ℤ → List (Text × Text) → Built
unfolding fill_params
fill_buffer (pos n) ps = fill_params 0 (pos 0) (zeros n) ps
fill_buffer (negsuc n) ps = overrun

-- The parameters of `eipcmsg`, pairs of a type and a value, to the data of the message.
unfoldable pub build_params : List (Text × Text) → Built
unfolding size_params fill_buffer
build_params ps = elim (size_params 0 (pos 0) ps) [
  | size_error i t ↦ param_error i t
  | sized z ↦ fill_buffer z ps
]
