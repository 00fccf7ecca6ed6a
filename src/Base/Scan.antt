-- ===== src/Base/Scan.antt =====
-- C's conversions of text to numbers, `atoi` and `sscanf`, and of a `long` to an `int`.
use easyipc.Base.Tests.{ltb, leb, ◌==◌, if◌then◌else◌}
use easyipc.Base.Int.{ℤ, pos, negsuc}
use easyipc.Base.Lists.{length, length-append}
use Prim.Native.Nat.{ℕ, zero, suc, ◌+◌, ◌-◌, ◌*◌, ◌/◌, ◌%◌, ◌^◌, ◌<◌, ◌≤◌}
use mathlib.Core.Path.{◌≡◌, refl}
use mathlib.Core.List.{List, [], ◌∷◌, ◌++◌}
use mathlib.Core.Bool.{Bool, true, false, ◌&&◌, ◌||◌}
use mathlib.Core.Option.{Option, none, some}
use native.Mathlib.Omega.{arith}

-- The conversion of a `long` or an `unsigned long` to an `int`.
unfoldable pub to_int : ℕ → ℤ
to_int n = let w = n % 2 ^ 32 in if ltb w (2 ^ 31) then pos w else negsuc (2 ^ 32 - w - 1)

abbrev pub is_digit : ℕ → Bool
is_digit c = leb 48 c && leb c 57

-- The digits at the start of a string.
unfoldable pub digits : ℕ → List ℕ → ℕ
digits acc [] = acc
digits acc (c ∷ s) = if is_digit c then digits (acc * 10 + (c - 48)) s else acc

abbrev pub is_white : ℕ → Bool
is_white c = (c == 32) || (leb 9 c && leb c 13)

-- `strtol`, which stops at the ends of a `long`, cut to an `int`.
abbrev pub cut_long : Bool → ℕ → ℤ
cut_long false v = to_int (if ltb (2 ^ 63 - 1) v then 2 ^ 63 - 1 else v)
cut_long true v = to_int (2 ^ 64 - (if ltb (2 ^ 63) v then 2 ^ 63 else v))

abbrev pub starts_digit : List ℕ → Bool
starts_digit [] = false
starts_digit (c ∷ s) = is_digit c

-- `sscanf` with "%d": the number, if there is a digit.
unfoldable pub scan_int : List ℕ → Option ℤ
unfolding digits to_int
scan_int [] = none
scan_int (c ∷ s) =
    let rest = scan_int s in
    if is_white c
    then rest
    else (if c == 45
        then (if starts_digit s then some (cut_long true (digits 0 s)) else none)
        else (if c == 43
            then (if starts_digit s then some (cut_long false (digits 0 s)) else none)
            else (if is_digit c then some (cut_long false (digits 0 (c ∷ s))) else none)))

-- `atoi`: 0 where there is no number
unfoldable pub atoi : List ℕ → ℤ
unfolding scan_int
atoi s = elim (scan_int s) [ none ↦ pos 0 | some z ↦ z ]

-- The value of a hexadecimal digit.
abbrev hex_digit : ℕ → Option ℕ
hex_digit c =
    if is_digit c
    then some (c - 48)
    else (if leb 97 c && leb c 102
        then some (c - 87)
        else (if leb 65 c && leb c 70 then some (c - 55) else none))

unfoldable hex_digits : ℕ → List ℕ → ℕ
hex_digits acc [] = acc
hex_digits acc (c ∷ s) = elim (hex_digit c) [ none ↦ acc | some d ↦ hex_digits (acc * 16 + d) s ]

-- The digits behind a prefix "0x", if there is one.
abbrev unprefixed : List ℕ → List ℕ
unprefixed [] = []
unprefixed (c ∷ []) = c ∷ []
unprefixed (c ∷ x ∷ s) = if (c == 48) && ((x == 120) || (x == 88)) then s else c ∷ x ∷ s

abbrev starts_hex : List ℕ → Bool
starts_hex [] = false
starts_hex (c ∷ s) = elim (hex_digit c) [ none ↦ false | some d ↦ true ]

-- `strtoul`, which stops at the end of an `unsigned long`, stored in an `int`.
abbrev cut_unsigned : Bool → ℕ → ℤ
cut_unsigned false v = to_int (if ltb (2 ^ 64 - 1) v then 2 ^ 64 - 1 else v)
cut_unsigned true v = to_int (if ltb (2 ^ 64 - 1) v then 2 ^ 64 - 1 else (2 ^ 64 - v) % 2 ^ 64)

-- `sscanf` with "%x": the number, if there is a digit.
unfoldable pub scan_hex : List ℕ → Option ℤ
unfolding hex_digits to_int
scan_hex [] = none
scan_hex (c ∷ s) =
    let rest = scan_hex s in
    let number : Bool → List ℕ → Option ℤ = λ neg t.
      if starts_hex t then some (cut_unsigned neg (hex_digits 0 (unprefixed t))) else none in
    if is_white c
    then rest
    else (if c == 45
        then number true s
        else (if c == 43 then number false s else number false (c ∷ s)))

-- The decimal numeral of a number below ten to the fuel.
abbrev pub decimal : ℕ → ℕ → List ℕ
decimal zero n = []
decimal (suc k) n = if ltb n 10 then (48 + n) ∷ [] else decimal k (n / 10) ++ (48 + n % 10) ∷ []

abbrev pub all_digits : List ℕ → Bool
all_digits [] = true
all_digits (c ∷ s) = is_digit c && all_digits s

abbrev pub power_ten : ℕ → ℕ
power_ten zero = 1
power_ten (suc k) = 10 * power_ten k

digits-append :
    (acc : ℕ) (s : List ℕ) (d : ℕ)
    → all_digits s ≡ true
    → d < 10
    → digits acc (s ++ (48 + d) ∷ []) ≡ digits acc s * 10 + d
unfolding digits
digits-append acc [] d h lt = ground arith
digits-append acc (c ∷ s) d h lt = ground (arith, digits-append (acc * 10 + (c - 48)) s d)

all_digits-append :
    (s : List ℕ) (d : ℕ) → all_digits s ≡ true → d < 10 → all_digits (s ++ (48 + d) ∷ []) ≡ true
all_digits-append [] d h lt = ground arith
all_digits-append (c ∷ s) d h lt = ground (arith, all_digits-append s d)

pub all_digits-decimal : (k n : ℕ) → all_digits (decimal k n) ≡ true
all_digits-decimal zero n = refl
all_digits-decimal (suc k) n =
    let r =
      all_digits-append (decimal k (n / 10)) (n % 10) (all_digits-decimal k (n / 10))
        (omega arith) in
    ground (arith, r)

pub digits-decimal : (k n : ℕ) → n < power_ten k → digits 0 (decimal k n) ≡ n
unfolding digits
digits-decimal zero n h = omega arith
digits-decimal (suc k) n h =
    let ih = digits-decimal k (n / 10) (omega arith) in
    let e =
      digits-append 0 (decimal k (n / 10)) (n % 10) (all_digits-decimal k (n / 10)) (omega arith) in
    ground (arith, ih, e)

pub length-decimal : (k n : ℕ) → length (decimal k n) ≤ k
length-decimal zero n = omega arith
length-decimal (suc k) n =
    ground
      (arith, length-decimal k (n / 10), length-append (decimal k (n / 10)) ((48 + n % 10) ∷ []))

pub decimal-starts : (k n : ℕ) → 0 < length (decimal (suc k) n)
decimal-starts k n = ground (arith, length-append (decimal k (n / 10)) ((48 + n % 10) ∷ []))

-- A numeral of an `int` is read back.
pub scan_int-digits :
    (s : List ℕ)
    → all_digits s ≡ true
    → 0 < length s
    → digits 0 s < 2 ^ 31
    → scan_int s ≡ some (pos (digits 0 s))
unfolding scan_int to_int
scan_int-digits [] h some_digit lt = absurd (omega arith)
scan_int-digits (c ∷ s) h some_digit lt = ground arith
