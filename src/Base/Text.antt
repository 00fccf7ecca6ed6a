-- ===== src/Base/Text.antt =====
-- C strings, as the bytes before the terminating NUL, and the routines of <string.h> that the
-- program calls on them.
use easyipc.Base.Tests.{◌==◌}
use easyipc.Base.Lists.{length, take, length-take-le, take-of_le}
use Prim.Native.Nat.{ℕ, ◌-◌, ◌<◌}
use Prim.Native.Char.{code}
use Prim.Native.String.{String}
use mathlib.Core.Path.{◌≡◌, refl, ap}
use mathlib.Core.Logic.{◌↔◌}
use mathlib.Core.List.{List, [], ◌∷◌}
use mathlib.Core.Bool.{Bool, true, false, ◌&&◌}
use native.Mathlib.Omega.{arith}

-- A C string.
abbrev pub Text : Type 0
Text = List ℕ

-- The bytes of an ASCII literal.
abbrev pub codes : String → List ℕ
codes String.[] = []
codes (String.◌∷◌ c s) = code c ∷ codes s

-- `!strcmp(a, b)`
unfoldable pub str_eq : List ℕ → List ℕ → Bool
str_eq [] [] = true
str_eq [] (b ∷ bs) = false
str_eq (a ∷ as') [] = false
str_eq (a ∷ as') (b ∷ bs) = (a == b) && str_eq as' bs

-- `snprintf(dst, n, "%s", s)`, for `n` at least 1: the destination keeps `n - 1` bytes.
unfoldable pub snprintf : ℕ → List ℕ → List ℕ
snprintf n s = take (n - 1) s

-- `strlen(s) > 0`
abbrev pub nonempty : List ℕ → Bool
nonempty [] = false
nonempty (c ∷ s) = true

pub str_eq→eq : (a b : List ℕ) → str_eq a b ≡ true → a ≡ b
unfolding str_eq
str_eq→eq [] [] h = refl
str_eq→eq [] (b ∷ bs) h = ground arith
str_eq→eq (a ∷ as') [] h = ground arith
str_eq→eq (a ∷ as') (b ∷ bs) h = ground (arith, str_eq→eq as' bs)

pub str_eq_refl : (a : List ℕ) → str_eq a a ≡ true
unfolding str_eq
str_eq_refl [] = refl
str_eq_refl (a ∷ as') = ground (arith, str_eq_refl as')

-- `strcmp` tells equal strings, and only those.
pub str_eq_iff : (a b : List ℕ) → (str_eq a b ≡ true) ↔ (a ≡ b)
str_eq_iff a b = (str_eq→eq a b, λ e. ground (arith, str_eq_refl a, ap (str_eq a) e))

pub length-snprintf : (n : ℕ) (s : List ℕ) → 0 < n → length (snprintf n s) < n
unfolding snprintf
length-snprintf n s h = omega (arith, length-take-le (n - 1) s)

pub snprintf-of_lt : (n : ℕ) (s : List ℕ) → length s < n → snprintf n s ≡ s
unfolding snprintf
snprintf-of_lt n s h = take-of_le (n - 1) s (omega arith)

pub str_eq_sym : (a b : Text) → str_eq a b ≡ str_eq b a
unfolding str_eq
str_eq_sym [] [] = refl
str_eq_sym [] (b ∷ bs) = refl
str_eq_sym (a ∷ as') [] = refl
str_eq_sym (a ∷ as') (b ∷ bs) = ground (arith, str_eq_sym as' bs)
