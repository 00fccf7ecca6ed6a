-- ===== src/Config.antt =====
-- The reader of the configuration file, src/easyipc_conf_support.c. A file is its bytes, without NUL.
-- Pointers into the line buffer are the text that they point to.
pub mod Values
pub mod Files
pub mod Settings
use easyipc.Base.{
  ℕ, zero, suc, ◌+◌, ◌-◌, Bool, true, false, ◌||◌, ◌&&◌, not, Option, none, some, List, [], ◌∷◌,
  ◌++◌, ltb, leb, ◌==◌, length, if◌then◌else◌,
}
use easyipc.Base.Text.{Text, codes}

-- The return codes of include/easyipc_conf_support.h, with the value where there is one. A value
-- that is too long for the caller's array is written past its end.
pub data Found : Type 0 where
  success : Text → Found
  filename_notexist sectionname_notexist keyname_notexist : Found
  overflow : Found

-- What `fgets(szBuffer, 150, file)` reads at most.
abbrev pub line_max : ℕ
line_max = 149

abbrev pub onto_first : ℕ → List Text → List Text
onto_first b [] = (b ∷ []) ∷ []
onto_first b (l ∷ ls) = (b ∷ l) ∷ ls

-- The lines that successive calls of `fgets` read, where the present line has that much room left.
unfoldable pub lines : ℕ → Text → List Text
lines room [] = []
lines room (b ∷ bytes) =
    let next = lines line_max bytes in
    let on = lines (room - 1) bytes in
    if (b == 10) || (room == 1) then (b ∷ []) ∷ next else onto_first b on

abbrev pub is_blank : ℕ → Bool
is_blank c = (c == 32) || (c == 9)

-- `while( (' '==*p) || ('\t'==*p) ) p++`
unfoldable pub skip_blank : Text → Text
skip_blank [] = []
skip_blank (c ∷ s) = if is_blank c then skip_blank s else c ∷ s

-- The text before the first byte of that value, and the text from it on, if there is such a byte.
unfoldable pub split_at : ℕ → Text → Option (Text × Text)
split_at c [] = none
split_at c (b ∷ s) =
    let rest = split_at c s in
    if b == c then some ([], b ∷ s) else elim rest [ none ↦ none | some (x, y) ↦ some (b ∷ x, y) ]

-- The text without the bytes at its end that a test takes.
unfoldable pub trim_end : (ℕ → Bool) → Text → Text
trim_end p [] = []
trim_end p (c ∷ s) = elim (trim_end p s) [ [] ↦ (if p c then [] else c ∷ []) | d ∷ t ↦ c ∷ d ∷ t ]

-- The loop of `CompareString`
unfoldable pub same_bytes : Text → Text → Bool
same_bytes [] [] = true
same_bytes [] (b ∷ bs) = false
same_bytes (a ∷ as') [] = false
same_bytes (a ∷ as') (b ∷ bs) = if a == b then same_bytes as' bs else false

-- `CompareString` returns `STRING_EQUAL`
unfoldable pub compare_string : Text → Text → Bool
unfolding same_bytes
compare_string a b = if length a == length b then same_bytes a b else false

-- The value behind the sign of equality, up to the end of the line or a comment.
unfoldable pub value_of : Text → Text
value_of [] = []
value_of (c ∷ []) = if (c == 13) || (c == 10) then [] else c ∷ []
value_of (c ∷ d ∷ s) =
    let rest = value_of (d ∷ s) in
    if (c == 13) || (c == 10) || ((c == 47) && (d == 47)) then [] else c ∷ rest

-- A line that `GetKeyValue` reads: it passes over it, ends at it, or takes the key and the text
-- behind its sign of equality.
pub data KeyLine : Type 0 where
  passed ended : KeyLine
  entry : Text → Text → KeyLine

unfoldable pub entry_of : Text → KeyLine
unfolding split_at trim_end
entry_of s = elim (split_at 61 s) [
  | none ↦ passed
  | some ([], y) ↦ passed
  | some (c ∷ x, []) ↦ passed
  | some (c ∷ x, e ∷ v) ↦ entry (trim_end is_blank (c ∷ x)) v
]

abbrev pub has_bracket : Text → Bool
has_bracket s = elim (split_at 93 s) [ none ↦ false | some p ↦ true ]

abbrev pub starts_comment : Text → Bool
starts_comment [] = false
starts_comment (c ∷ []) = c == 35
starts_comment (c ∷ d ∷ s) = (c == 35) || ((c == 47) && (d == 47))

-- The tests of `GetKeyValue` on a line without its leading blanks.
unfoldable pub key_line : Text → KeyLine
unfolding entry_of
key_line [] = passed
key_line (c ∷ s) =
    if starts_comment (c ∷ s)
    then passed
    else (if (c == 13) || (c == 10)
        then passed
        else (if (c == 91) && has_bracket (c ∷ s) then ended else entry_of (c ∷ s)))

-- What `GetKeyValue` makes of an entry with its key: `room` is the size of the caller's array.
unfoldable pub take_value : ℕ → Text → Found
unfolding value_of skip_blank
take_value room v =
    let value = value_of (skip_blank v) in
    if ltb (length value) room then success value else overflow

-- `GetKeyValue`, over the lines that are left of the file
unfoldable pub get_key_value : ℕ → Text → List Text → Found
unfolding key_line skip_blank compare_string take_value
get_key_value room key [] = keyname_notexist
get_key_value room key (l ∷ ls) =
    let rest = get_key_value room key ls in
    elim (key_line (skip_blank l)) [
      | passed ↦ rest
      | ended ↦ keyname_notexist
      | entry k v ↦ if compare_string k key then take_value room v else rest
    ]

abbrev pub is_space : ℕ → Bool
is_space c = c == 32

abbrev pub starts_with : ℕ → Text → Bool
starts_with c [] = false
starts_with c (b ∷ s) = b == c

abbrev pub ends_in_space : Text → Bool
ends_in_space [] = false
ends_in_space (c ∷ []) = is_space c
ends_in_space (c ∷ d ∷ s) = ends_in_space (d ∷ s)

-- The name between brackets, without the spaces at its end. Where nothing stands between the
-- brackets but a space before the closing one, the text from that one on is taken for the name.
unfoldable pub section_name : Text → Option Text
unfolding split_at trim_end skip_blank
section_name [] = none
section_name (c ∷ s) = elim (split_at 93 (skip_blank s)) [
  | none ↦ none
  | some ([], y) ↦
      some (elim (split_at 93 s) [ none ↦ [] | some (x, z) ↦ if ends_in_space x then y else [] ])
  | some (b ∷ x, y) ↦ some (trim_end is_space (b ∷ x))
]

-- `GetConfigStringValue`, over the lines of the file
unfoldable pub get_in_section : ℕ → Text → Text → List Text → Found
unfolding section_name skip_blank compare_string get_key_value
get_in_section room section key [] = sectionname_notexist
get_in_section room section key (l ∷ ls) =
    let rest = get_in_section room section key ls in
    let here = get_key_value room key ls in
    let text = skip_blank l in
    if starts_with 91 text
    then (elim (section_name text) [
      | none ↦ rest
      | some name ↦ if compare_string name section then here else rest
    ])
    else rest

-- `GetConfigStringValue`, of a file if there is one
unfoldable pub get_config_string_value : ℕ → Text → Text → Option Text → Found
unfolding get_in_section lines
get_config_string_value room section key none = filename_notexist
get_config_string_value room section key (some bytes) =
    get_in_section room section key (lines line_max bytes)
