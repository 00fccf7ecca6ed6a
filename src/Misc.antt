-- ===== src/Misc.antt =====
-- What src/easyipc_misc.c prints of the log, `ipcd_misc_cat`, and the console's own reader of the log
-- file, `ipc_cat_deamon` of src/easyipc_console.c.
pub mod Agree
pub mod Selected
pub mod Logged
pub mod Kept
pub mod Broadcast
pub mod Listing
use easyipc.Base.{
  ℕ, zero, suc, ◌+◌, Bool, true, false, ◌&&◌, ◌||◌, not, Option, none, some, List, [], ◌∷◌, ◌++◌,
  map, take, drop, length, leb, ltb, ◌==◌, is_some, if◌then◌else◌,
}
use easyipc.Base.Text.{Text, str_eq, codes, nonempty}
use easyipc.Log.{Log, Flags, has_char, memory_pull}

-- `IPC_CMDLINE_MAX_SIZE`
abbrev pub cmdline_max_size : ℕ
cmdline_max_size = 4096

-- The C string that begins a run of bytes.
unfoldable pub c_str : List ℕ → Text
c_str [] = []
c_str (c ∷ s) = if c == 0 then [] else c ∷ c_str s

-- `ipcd_misc_del_tail_spec`: every blank but one at the start becomes the end of a string.
unfoldable pub del_tail_spec : Text → Text
unfolding c_str
del_tail_spec [] = []
del_tail_spec (c ∷ s) = c_str (c ∷ map (λ d. if d == 32 then 0 else d) s)

abbrev pub to_lower : ℕ → ℕ
to_lower c = if ltb 64 c && ltb c 91 then c + 32 else c

-- `strncasecmp` of the length of the second string gives 0.
unfoldable pub case_prefix : Text → Text → Bool
case_prefix [] s = true
case_prefix (c ∷ sub) [] = false
case_prefix (c ∷ sub) (d ∷ s) = (to_lower c == to_lower d) && case_prefix sub s

-- The loop of `strstri`.
unfoldable pub search_from : Text → Text → Option Text
unfolding case_prefix
search_from [] sub = none
search_from (c ∷ s) sub = if case_prefix sub (c ∷ s) then some (c ∷ s) else search_from s sub

-- `strstri`: an empty string is found nowhere.
unfoldable pub strstri : Text → Text → Option Text
unfolding search_from
strstri str [] = none
strstri str (c ∷ sub) = search_from str (c ∷ sub)

-- `strstr` of a string of one byte at most, of which 0 is the empty string.
unfoldable pub strstr_char : Text → ℕ → Bool
strstr_char s c = if c == 0 then true else has_char c s

-- `ipc_cli_print_packet`
pub record PrintPacket : Type 0 where
  pub flags : Flags
  pub printf_log_pname : Text
  pub key_word : Text
  pub printf_broadcast_flag : ℕ

-- `NONE` of include/easyipc_debug.h
abbrev pub none_colour : Text
none_colour = 27 ∷ codes "[0m"

-- The switch over `last_color`, and that over the level.
unfoldable pub colour : ℕ → Text
colour c =
    if c == 69
    then 27 ∷ codes "[0;31m"
    else (if c == 87
        then 27 ∷ codes "[1;33m"
        else (if c == 78
            then 27 ∷ codes "[1;32m"
            else (if c == 73
                then 27 ∷ codes "[1m"
                else (if c == 68 then 27 ∷ codes "[1;35m" else 27 ∷ codes "[0;31m"))))

-- `readline` after a string has been written to its start.
unfoldable pub fill : Text → List ℕ → List ℕ
fill s buffer = s ++ 0 ∷ drop (length s + 1) buffer

-- The byte at an index.
unfoldable pub byte_at : ℕ → List ℕ → ℕ
byte_at i [] = 0
byte_at zero (c ∷ s) = c
byte_at (suc i) (c ∷ s) = byte_at i s

-- `temp_str_pname`
unfoldable pub record_pname : List ℕ → Text
unfolding c_str del_tail_spec
record_pname readline = del_tail_spec (c_str (take 32 (drop 4 readline)))

-- The program that is asked for, and the key word, if there are such.
unfoldable pub pname_differs : Text → List ℕ → Bool
unfolding record_pname
pname_differs pname readline = nonempty pname && not (str_eq pname (record_pname readline))

unfoldable pub keyword_missing : Text → List ℕ → Bool
unfolding strstri c_str
keyword_missing word readline =
    nonempty word && not (is_some (strstri (c_str (drop 33 readline)) word))

-- What a line prints, with `last_color` after it.
abbrev pub Printed : Type 0
Printed = ℕ × Text

unfoldable pub coloured : ℕ → Text → List ℕ → Text
unfolding colour c_str
coloured c ending readline = colour c ++ (c_str readline ++ (ending ++ none_colour))

-- The body of the loops past the tests of name and key word.
unfoldable pub print_line : Flags → Text → ℕ → List ℕ → Printed
unfolding coloured strstr_char c_str byte_at
print_line f ending last_color readline =
    let type : ℕ = byte_at 0 readline in
    let level : ℕ = byte_at 2 readline in
    if leb (length (c_str readline)) 48
    then (last_color, coloured last_color ending readline)
    else (if not (strstr_char (codes "USP") type) || not (strstr_char (codes "EWNI") level)
        then (last_color, coloured last_color ending readline)
        else (if strstr_char f.printf_log_type_flag type
              && strstr_char f.printf_log_level_flag level
            then (level, coloured level ending readline)
            else (last_color, [])))

-- The body of a loop of `ipcd_misc_cat`; a line of the file has its end, one from memory gets one.
unfoldable pub cat_line : PrintPacket → Text → ℕ → List ℕ → Printed
unfolding pname_differs keyword_missing print_line
cat_line p ending last_color readline =
    if pname_differs p.printf_log_pname readline
    then (last_color, [])
    else (if keyword_missing p.key_word readline
        then (last_color, [])
        else print_line p.flags ending last_color readline)

-- The body of the loop of `ipc_cat_deamon`.
unfoldable pub cat_deamon_line : Text → Text → Text → Text → ℕ → List ℕ → Printed
unfolding pname_differs keyword_missing print_line
cat_deamon_line level mode pname keyword last_color readline =
    if keyword_missing keyword readline
    then (last_color, [])
    else (if pname_differs pname readline
        then (last_color, [])
        else print_line (record { printf_log_type_flag = mode; printf_log_level_flag = level }) []
            last_color readline)

-- The second loop of `ipcd_misc_cat`, with fuel: `readline` keeps what earlier lines left in it.
unfoldable pub memory_loop : ℕ → PrintPacket → ℕ → List ℕ → Log → Option (Text × Log)
unfolding memory_pull cat_line fill
memory_loop zero p last_color readline l = none
memory_loop (suc fuel) p last_color readline l =
    let (o, l') = memory_pull cmdline_max_size l in
    elim o [
      | none ↦ some ([], l')
      | some t ↦
          let (c, out) = cat_line p (10 ∷ []) last_color (fill t readline) in
          elim (memory_loop fuel p c (fill t readline) l') [
            | none ↦ none
            | some (rest, l'') ↦ some (out ++ rest, l'')
          ]
    ]

-- The first loop, over the lines of the log file.
unfoldable pub file_loop : PrintPacket → ℕ → List ℕ → List Text → Text
unfolding cat_line fill
file_loop p last_color readline [] = []
file_loop p last_color readline (t ∷ ts) =
    let (c, out) = cat_line p [] last_color (fill t readline) in
    out ++ file_loop p c (fill t readline) ts

-- The end of a line.
abbrev pub crlf : Text
crlf = 13 ∷ 10 ∷ []

-- `ipcd_misc_cat` for a log in memory, what it sends to the consoles; the stack has `last_color` and `readline`.
unfoldable pub cat_memory : ℕ → PrintPacket → ℕ → List ℕ → Log → Option (Text × Log)
unfolding memory_loop
cat_memory fuel p last_color stack l = elim (memory_loop fuel p last_color stack l) [
  | none ↦ none
  | some (out, l') ↦ some (out ++ crlf, l')
]

-- `ipcd_misc_cat` for a log in a file, whose lines are given if it can be opened.
unfoldable pub cat_file : PrintPacket → ℕ → List ℕ → Option (List Text) → Text
unfolding file_loop
cat_file p last_color stack none = codes "log file not exist" ++ crlf
cat_file p last_color stack (some ts) = crlf ++ (file_loop p last_color stack ts ++ crlf)
