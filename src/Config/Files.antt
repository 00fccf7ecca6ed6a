-- ===== src/Config/Files.antt =====
-- A whole file of src/easyipc_conf_support.c, from its bytes to the value of a name.
use easyipc.Base.{
  ℕ, ◌+◌, ◌-◌, ◌<◌, ◌≤◌, Bool, true, ◌&&◌, not, some, List, [], ◌∷◌, ◌++◌, ◌≡◌, refl, sym, ap, ◌∙◌,
  arith, ◌==◌, length, length-append, All, map, append_assoc,
}
use easyipc.Base.Text.{Text, str_eq_refl}
use easyipc.Config.{
  success, overflow, line_max, lines, is_space, skip_blank, split_at, trim_end, section_name,
  get_key_value, get_in_section, get_config_string_value,
}
use easyipc.Config.Values.{
  all_plain, is_plain, in_line, is_value, starts_blank, IsEntry, print_entry, look_up, Plain-of,
  and_left, and_right, split_at-bracket, compare_string-str_eq, get_key_value-entries,
  get_key_value-look_up, get_key_value-overflow,
}

abbrev pub print_all : List (Text × Text) → Text
print_all [] = []
print_all (e ∷ es) = print_entry e ++ print_all es

-- A file of one section.
abbrev pub print_file : Text → List (Text × Text) → Text
print_file section es = 91 ∷ (section ++ 93 ∷ 10 ∷ print_all es)

abbrev all_line : Text → Bool
all_line [] = true
all_line (c ∷ l) = not (c == 10) && all_line l

-- A line without a newline before its end is read as one, if it fits the buffer.
lines-line :
    (room : ℕ) (l rest : Text)
    → all_line l ≡ true
    → length l < room
    → lines room (l ++ 10 ∷ rest) ≡ (l ++ 10 ∷ []) ∷ lines line_max rest
unfolding lines
lines-line room [] rest h lt = ground arith
lines-line room (c ∷ l) rest h lt = ground (arith, lines-line (room - 1) l rest)

all_line-plain : (k l : Text) → all_plain k ≡ true → all_line l ≡ true → all_line (k ++ l) ≡ true
all_line-plain [] l h g = g
all_line-plain (c ∷ k) l h g =
    let p = Plain-of c (and_left (is_plain c) (all_plain k) h) in
    rw (p.line_feed) (all_line-plain k l (and_right (is_plain c) (all_plain k) h) g)

all_line-in_line : (v : Text) → in_line v ≡ true → all_line v ≡ true
all_line-in_line [] h = refl
all_line-in_line (c ∷ []) h = ground (arith, h)
all_line-in_line (c ∷ d ∷ v) h = ground (arith, h, all_line-in_line (d ∷ v))

all_line-is_value : (v : Text) → is_value v ≡ true → all_line v ≡ true
all_line-is_value v h = all_line-in_line v (and_right (not (starts_blank v)) (in_line v) h)

lines-print_all :
    (es : List (Text × Text)) → All IsEntry es → lines line_max (print_all es) ≡ map print_entry es
unfolding lines
lines-print_all [] h = refl
lines-print_all ((k, v) ∷ es) h =
    let whole : Text = k ++ 61 ∷ v in
    let split : print_entry (k, v) ++ print_all es ≡ whole ++ 10 ∷ print_all es =
      append_assoc k (61 ∷ (v ++ 10 ∷ [])) (print_all es)
      ∙ ap (λ s. k ++ 61 ∷ s) (append_assoc v (10 ∷ []) (print_all es))
      ∙ sym (append_assoc k (61 ∷ v) (10 ∷ print_all es)) in
    let line : whole ++ 10 ∷ [] ≡ print_entry (k, v) = append_assoc k (61 ∷ v) (10 ∷ []) in
    let fits : length whole < line_max = omega (arith, length-append k (61 ∷ v), h.0.3) in
    let one =
      lines-line line_max whole (print_all es)
        (all_line-plain k (61 ∷ v) h.0.1 (all_line-is_value v h.0.2)) fits in
    ap (lines line_max) split ∙ one ∙ (λ i. line i ∷ lines-print_all es h.1 i)

trim_end-section : (k : Text) → all_plain k ≡ true → trim_end is_space k ≡ k
unfolding trim_end
trim_end-section [] h = refl
trim_end-section (c ∷ []) h = ground arith
trim_end-section (c ∷ d ∷ k) h =
    let e : trim_end is_space (d ∷ k) ≡ d ∷ k =
      trim_end-section (d ∷ k) (and_right (is_plain c) (all_plain (d ∷ k)) h) in
    rw (trim_end, e)

section_name-plain :
    (c : ℕ) (k rest : Text)
    → all_plain (c ∷ k) ≡ true
    → section_name (91 ∷ ((c ∷ k) ++ 93 ∷ rest)) ≡ some (c ∷ k)
unfolding section_name skip_blank
section_name-plain c k rest h =
    let p = Plain-of c (and_left (is_plain c) (all_plain k) h) in
    let e : split_at 93 (c ∷ (k ++ 93 ∷ rest)) ≡ some (c ∷ k, 93 ∷ rest) =
      split_at-bracket (c ∷ k) rest h in
    let t : trim_end is_space (c ∷ k) ≡ c ∷ k = trim_end-section (c ∷ k) h in
    rw (section_name, p.blank, e, t)

get_in_section-header :
    (room c : ℕ) (k key : Text) (ls : List Text)
    → all_plain (c ∷ k) ≡ true
    → get_in_section room (c ∷ k) key ((91 ∷ ((c ∷ k) ++ 93 ∷ 10 ∷ [])) ∷ ls)
      ≡ get_key_value room key ls
unfolding get_in_section skip_blank
get_in_section-header room c k key ls h = rw (
  get_in_section,
  section_name-plain c k (10 ∷ []) h,
  compare_string-str_eq (c ∷ k) (c ∷ k),
  str_eq_refl (c ∷ k),
)

lines-print_file :
    (section : Text) (es : List (Text × Text))
    → all_plain section ≡ true
    → length section + 3 ≤ line_max
    → All IsEntry es
    → lines line_max (print_file section es) ≡ (91 ∷ (section ++ 93 ∷ 10 ∷ [])) ∷ map print_entry es
lines-print_file section es h lt ok =
    let l : Text = 91 ∷ (section ++ 93 ∷ []) in
    let split : print_file section es ≡ l ++ 10 ∷ print_all es =
      ap (◌∷◌ 91) (sym (append_assoc section (93 ∷ []) (10 ∷ print_all es))) in
    let line : l ++ 10 ∷ [] ≡ 91 ∷ (section ++ 93 ∷ 10 ∷ []) =
      ap (◌∷◌ 91) (append_assoc section (93 ∷ []) (10 ∷ [])) in
    ap (lines line_max) split
    ∙ lines-line line_max l (print_all es) (all_line-plain section (93 ∷ []) h refl)
        (omega (arith, length-append section (93 ∷ [])))
    ∙ (λ i. line i ∷ lines-print_all es ok i)

-- In a file of one section, its name not empty, and of lines `name=value` with names that are
-- not empty, of bytes that the format gives no meaning, values that do not start with a blank
-- and have no end of line and no `//`, and each line within the buffer, `GetConfigStringValue`
-- for that section and an array of at least 149 bytes returns the value of the first line with
-- the wanted name, and that the name does not exist if there is none.
pub get_config_string_value-print_file :
    (room : ℕ) (section key : Text) (es : List (Text × Text))
    → 0 < length section
    → all_plain section ≡ true
    → length section + 3 ≤ line_max
    → All IsEntry es
    → line_max ≤ room
    → get_config_string_value room section key (some (print_file section es)) ≡ look_up key es
unfolding get_config_string_value
get_config_string_value-print_file room [] key es some_name h lt ok fits =
    absurd (omega (arith, some_name))
get_config_string_value-print_file room (c ∷ k) key es some_name h lt ok fits =
    ap (get_in_section room (c ∷ k) key) (lines-print_file (c ∷ k) es h lt ok)
    ∙ get_in_section-header room c k key (map print_entry es) h
    ∙ get_key_value-entries room key es ok fits

-- In a file of one section, its name not empty, and of lines `name=value` with names that are
-- not empty, of bytes that the format gives no meaning, values that do not start with a blank
-- and have no end of line and no `//`, and each line within the buffer, `GetConfigStringValue`
-- for that section and the name of the first line writes past the end of the caller's array if
-- the value has at least as many bytes as the array.
pub get_config_string_value-overflow :
    (room : ℕ) (section k v : Text) (es : List (Text × Text))
    → 0 < length section
    → all_plain section ≡ true
    → length section + 3 ≤ line_max
    → All IsEntry ((k, v) ∷ es)
    → room ≤ length v
    → get_config_string_value room section k (some (print_file section ((k, v) ∷ es))) ≡ overflow
unfolding get_config_string_value
get_config_string_value-overflow room [] k v es some_name h lt ok long =
    absurd (omega (arith, some_name))
get_config_string_value-overflow room (c ∷ s) k v es some_name h lt ok long =
    ap (get_in_section room (c ∷ s) k) (lines-print_file (c ∷ s) ((k, v) ∷ es) h lt ok)
    ∙ get_in_section-header room c s k (map print_entry ((k, v) ∷ es)) h
    ∙ get_key_value-overflow room k v (map print_entry es) ok.0 long

-- `GetConfigStringValue` in such a file, for an array that the value under the name fits.
pub get_config_string_value-look_up :
    (room : ℕ) (section key v : Text) (es : List (Text × Text))
    → 0 < length section
    → all_plain section ≡ true
    → length section + 3 ≤ line_max
    → All IsEntry es
    → look_up key es ≡ success v
    → length v < room
    → get_config_string_value room section key (some (print_file section es)) ≡ success v
unfolding get_config_string_value
get_config_string_value-look_up room [] key v es some_name h lt ok e fits =
    absurd (omega (arith, some_name))
get_config_string_value-look_up room (c ∷ k) key v es some_name h lt ok e fits =
    ap (get_in_section room (c ∷ k) key) (lines-print_file (c ∷ k) es h lt ok)
    ∙ get_in_section-header room c k key (map print_entry es) h
    ∙ get_key_value-look_up room key v es ok e fits
