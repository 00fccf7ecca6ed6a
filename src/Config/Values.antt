-- ===== src/Config/Values.antt =====
-- What src/easyipc_conf_support.c reads from a file that is laid out as sample/easyipc.conf is.
use easyipc.Base.{
  ℕ, ◌+◌, ◌<◌, ◌≤◌, Bool, true, false, ◌||◌, ◌&&◌, not, some, List, [], ◌∷◌, ◌++◌, ◌≡◌, refl, ap,
  sym, subst, ◌∙◌, arith, ltb, ◌==◌, length, All, map, if◌then◌else◌, Bool-cases, inl, inr,
}
use easyipc.Base.Text.{Text, str_eq, str_eq_refl}
use easyipc.Config.{
  Found, success, overflow, keyname_notexist, filename_notexist, sectionname_notexist, line_max,
  is_blank, skip_blank, split_at, trim_end, starts_comment, same_bytes, compare_string, value_of,
  entry, entry_of, key_line, take_value, get_key_value,
}

-- A byte that no rule of the format reads.
abbrev pub is_plain : ℕ → Bool
is_plain c = not (
    is_blank c
    || (c == 10)
    || (c == 13)
    || (c == 35)
    || (c == 47)
    || (c == 61)
    || (c == 91)
    || (c == 93))

abbrev pub all_plain : Text → Bool
all_plain [] = true
all_plain (c ∷ s) = is_plain c && all_plain s

-- One line without a comment.
abbrev pub in_line : Text → Bool
in_line [] = true
in_line (c ∷ []) = not ((c == 10) || (c == 13))
in_line (c ∷ d ∷ s) =
    not ((c == 10) || (c == 13)) && (not ((c == 47) && (d == 47)) && in_line (d ∷ s))

abbrev pub starts_blank : Text → Bool
starts_blank [] = false
starts_blank (c ∷ s) = is_blank c

-- A value that the format takes as it stands: it does not start with a blank, ends no line, and has no
-- "//".
abbrev pub is_value : Text → Bool
is_value v = not (starts_blank v) && in_line v

same_bytes-str_eq : (a b : Text) → same_bytes a b ≡ str_eq a b
unfolding same_bytes str_eq
same_bytes-str_eq [] [] = refl
same_bytes-str_eq [] (b ∷ bs) = refl
same_bytes-str_eq (a ∷ as') [] = refl
same_bytes-str_eq (a ∷ as') (b ∷ bs) = ground (arith, same_bytes-str_eq as' bs)

length_of_str_eq : (a b : Text) → str_eq a b ≡ true → length a ≡ length b
unfolding str_eq
length_of_str_eq [] [] h = refl
length_of_str_eq [] (b ∷ bs) h = ground arith
length_of_str_eq (a ∷ as') [] h = ground arith
length_of_str_eq (a ∷ as') (b ∷ bs) h = ground (arith, length_of_str_eq as' bs)

-- `CompareString` tells equal strings.
pub compare_string-str_eq : (a b : Text) → compare_string a b ≡ str_eq a b
unfolding compare_string
compare_string-str_eq a b = ground (arith, same_bytes-str_eq a b, length_of_str_eq a b)

split_at-plain : (k v : Text) → all_plain k ≡ true → split_at 61 (k ++ 61 ∷ v) ≡ some (k, 61 ∷ v)
unfolding split_at
split_at-plain [] v h = ground arith
split_at-plain (c ∷ k) v h = ground (arith, split_at-plain k v)

pub split_at-bracket :
    (k v : Text) → all_plain k ≡ true → split_at 93 (k ++ 93 ∷ v) ≡ some (k, 93 ∷ v)
unfolding split_at
split_at-bracket [] v h = ground arith
split_at-bracket (c ∷ k) v h = ground (arith, split_at-bracket k v)

trim_end-plain : (k : Text) → all_plain k ≡ true → trim_end is_blank k ≡ k
unfolding trim_end
trim_end-plain [] h = refl
trim_end-plain (c ∷ []) h = ground arith
trim_end-plain (c ∷ d ∷ k) h =
    let e : trim_end is_blank (d ∷ k) ≡ d ∷ k = trim_end-plain (d ∷ k) (ground arith) in
    rw (trim_end, e)

-- A plain byte is none of those that the rules read.
pub record Plain (c : ℕ) : Type 0 where
  pub line_feed : (c == 10) ≡ false
  pub carriage : (c == 13) ≡ false
  pub hash : (c == 35) ≡ false
  pub slash : (c == 47) ≡ false
  pub open_bracket : (c == 91) ≡ false
  pub blank : is_blank c ≡ false

pub Plain-of : (c : ℕ) → is_plain c ≡ true → Plain c
Plain-of c h = record {
  line_feed = ground arith;
  carriage = ground arith;
  hash = ground arith;
  slash = ground arith;
  open_bracket = ground arith;
  blank = ground arith;
}

pub and_left : (a b : Bool) → (a && b) ≡ true → a ≡ true
and_left a b h = ground arith

pub and_right : (a b : Bool) → (a && b) ≡ true → b ≡ true
and_right a b h = ground arith

value_of-in_line : (v : Text) → in_line v ≡ true → value_of (v ++ 10 ∷ []) ≡ v
unfolding value_of
value_of-in_line [] h = refl
value_of-in_line (c ∷ []) h = ground (arith, h)
value_of-in_line (c ∷ d ∷ v) h = ground (arith, h, value_of-in_line (d ∷ v))

skip_blank-is_value : (v : Text) → is_value v ≡ true → skip_blank (v ++ 10 ∷ []) ≡ v ++ 10 ∷ []
unfolding skip_blank
skip_blank-is_value [] h = ground arith
skip_blank-is_value (c ∷ v) h = ground (arith, h)

value_of-is_value : (v : Text) → is_value v ≡ true → value_of (v ++ 10 ∷ []) ≡ v
value_of-is_value v h = value_of-in_line v (and_right (not (starts_blank v)) (in_line v) h)

-- A line of the file: a name, the sign of equality and a value.
abbrev pub print_entry : Text × Text → Text
print_entry (k, v) = k ++ 61 ∷ (v ++ 10 ∷ [])

-- A name of plain bytes, not empty, and a value, that make one line.
abbrev pub IsEntry : Text × Text → Type 0
IsEntry (k, v) =
    (0 < length k)
    × (all_plain k ≡ true)
    × (is_value v ≡ true)
    × (length k + length v + 2 ≤ line_max)

no_comment : (c : ℕ) (s : Text) → Plain c → starts_comment (c ∷ s) ≡ false
no_comment c [] p = p.hash
no_comment c (d ∷ s) p = rw (p.hash, p.slash)

entry_of-plain :
    (c : ℕ) (k v : Text) → all_plain (c ∷ k) ≡ true → entry_of (c ∷ (k ++ 61 ∷ v)) ≡ entry (c ∷ k) v
unfolding entry_of
entry_of-plain c k v h =
    let e : split_at 61 (c ∷ (k ++ 61 ∷ v)) ≡ some (c ∷ k, 61 ∷ v) = split_at-plain (c ∷ k) v h in
    let t : trim_end is_blank (c ∷ k) ≡ c ∷ k = trim_end-plain (c ∷ k) h in rw (entry_of, e, t)

take_value-is_value :
    (room : ℕ) (v : Text)
    → is_value v ≡ true
    → length v < room
    → take_value room (v ++ 10 ∷ []) ≡ success v
unfolding take_value
take_value-is_value room v h lt =
    let fits : ltb (length v) room ≡ true = ground arith in
    rw (skip_blank-is_value v h, value_of-is_value v h, fits)

key_line-entry :
    (k v : Text)
    → IsEntry (k, v)
    → key_line (skip_blank (print_entry (k, v))) ≡ entry k (v ++ 10 ∷ [])
unfolding key_line skip_blank
key_line-entry [] v h = absurd (omega (arith, h.0))
key_line-entry (c ∷ k) v h =
    let p = Plain-of c (and_left (is_plain c) (all_plain k) h.1) in
    rw (
      p.blank,
      no_comment c (k ++ 61 ∷ (v ++ 10 ∷ [])) p,
      p.carriage,
      p.line_feed,
      p.open_bracket,
      entry_of-plain c k (v ++ 10 ∷ []) h.1,
    )

-- The value of the first entry with that name.
abbrev pub look_up : Text → List (Text × Text) → Found
look_up key [] = keyname_notexist
look_up key ((k, v) ∷ es) = if str_eq k key then success v else look_up key es

pub get_key_value-entries :
    (room : ℕ) (key : Text) (es : List (Text × Text))
    → All IsEntry es
    → line_max ≤ room
    → get_key_value room key (map print_entry es) ≡ look_up key es
unfolding get_key_value
get_key_value-entries room key [] h r = refl
get_key_value-entries room key ((k, v) ∷ es) h r =
    let fits = take_value-is_value room v h.0.2 (omega (arith, h.0.3)) in
    elim (Bool-cases (str_eq k key)) [
      | inl e ↦ rw (get_key_value, key_line-entry k v h.0, compare_string-str_eq k key, e, fits)
      | inr e ↦
          rw (get_key_value, key_line-entry k v h.0, compare_string-str_eq k key, e)
            (get_key_value-entries room key es h.1 r)
    ]

-- A value that does not fit the array, under the first name of the lines.
pub get_key_value-overflow :
    (room : ℕ) (k v : Text) (ls : List Text)
    → IsEntry (k, v)
    → room ≤ length v
    → get_key_value room k (print_entry (k, v) ∷ ls) ≡ overflow
unfolding get_key_value take_value
get_key_value-overflow room k v ls h r =
    let over : ltb (length v) room ≡ false = ground arith in
    rw (
      get_key_value,
      key_line-entry k v h,
      compare_string-str_eq k k,
      str_eq_refl k,
      skip_blank-is_value v h.2,
      value_of-is_value v h.2,
      over,
    )

-- The value that was found.
abbrev found_value : Found → Text
found_value (success v) = v
found_value filename_notexist = []
found_value sectionname_notexist = []
found_value keyname_notexist = []
found_value overflow = []

-- A value that fits the array, under the first line with the wanted name.
pub get_key_value-look_up :
    (room : ℕ) (key v : Text) (es : List (Text × Text))
    → All IsEntry es
    → look_up key es ≡ success v
    → length v < room
    → get_key_value room key (map print_entry es) ≡ success v
unfolding get_key_value
get_key_value-look_up room key v [] h e fits = absurd (ground (arith, e))
get_key_value-look_up room key v ((k, w) ∷ es) h e fits = elim (Bool-cases (str_eq k key)) [
  | inl s ↦
      let same : success w ≡ success v =
        ap (λ (b : Bool). if b then success w else look_up key es) (sym s) ∙ e in
      let fits' : length w < room = subst (λ f. length (found_value f) < room) (sym same) fits in
      rw
        (
          get_key_value,
          key_line-entry k w h.0,
          compare_string-str_eq k key,
          s,
          take_value-is_value room w h.0.2 fits',
        )
        same
  | inr s ↦
      let rest : look_up key es ≡ success v =
        ap (λ (b : Bool). if b then success w else look_up key es) (sym s) ∙ e in
      rw (get_key_value, key_line-entry k w h.0, compare_string-str_eq k key, s)
        (get_key_value-look_up room key v es h.1 rest fits)
]
