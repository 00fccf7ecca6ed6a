-- ===== src/Misc/Selected.antt =====
-- Which records `ipcd_misc_cat` of src/easyipc_misc.c prints of a log in memory.
use easyipc.Base.{
  ℕ, zero, suc, ◌+◌, ◌≤◌, ◌<◌, Bool, true, false, ◌&&◌, ◌||◌, not, none, some, List, [], ◌∷◌, ◌++◌,
  ◌≡◌, refl, ap, ◌∙◌, arith, take, drop, length, leb, ltb, ◌==◌, is_some, All, if◌then◌else◌,
  drop-append, take-append, length-drop, get_elem?-length, append_assoc, length-append,
}
use easyipc.Base.Text.{Text, str_eq, nonempty, codes, snprintf-of_lt}
use easyipc.Log.{Log, memory_pull}
use easyipc.Misc.{
  cmdline_max_size, c_str, del_tail_spec, strstri, strstr_char, PrintPacket, fill, byte_at,
  record_pname, pname_differs, keyword_missing, coloured, none_colour, colour, print_line, cat_line,
  memory_loop, cat_memory, crlf,
}

abbrev pub no_nul : Text → Bool
no_nul [] = true
no_nul (c ∷ s) = not (c == 0) && no_nul s

pub c_str-append : (s t : List ℕ) → no_nul s ≡ true → c_str (s ++ 0 ∷ t) ≡ s
unfolding c_str
c_str-append [] t h = refl
c_str-append (c ∷ s) t h = ground (arith, c_str-append s t)

pub c_str-no_nul : (s : List ℕ) → no_nul s ≡ true → c_str s ≡ s
unfolding c_str
c_str-no_nul [] h = refl
c_str-no_nul (c ∷ s) h = ground (arith, c_str-no_nul s)

no_nul-drop : (k : ℕ) (s : List ℕ) → no_nul s ≡ true → no_nul (drop k s) ≡ true
no_nul-drop zero s h = h
no_nul-drop (suc k) [] h = refl
no_nul-drop (suc k) (c ∷ s) h = ground (arith, no_nul-drop k s)

pub no_nul-take : (k : ℕ) (s : List ℕ) → no_nul s ≡ true → no_nul (take k s) ≡ true
no_nul-take zero s h = refl
no_nul-take (suc k) [] h = refl
no_nul-take (suc k) (c ∷ s) h = ground (arith, no_nul-take k s)

byte_at-append : (i : ℕ) (s t : List ℕ) → suc i ≤ length s → byte_at i (s ++ t) ≡ byte_at i s
unfolding byte_at
byte_at-append i [] t h = absurd (omega arith)
byte_at-append zero (c ∷ s) t h = refl
byte_at-append (suc i) (c ∷ s) t h = byte_at-append i s t (omega arith)

-- A record of the log as `ipcd_log_save_and_print` writes it, not of the level D, that fits
-- `readline`.
pub record IsRecord (r : Text) : Type 0 where
  pub long : 48 < length r
  pub short : length r < cmdline_max_size
  pub no_end : no_nul r ≡ true
  pub type : strstr_char (codes "USP") (byte_at 0 r) ≡ true
  pub level : strstr_char (codes "EWNI") (byte_at 2 r) ≡ true

-- The record is of the program that is asked for, has the key word behind its name, and its type
-- and level are among those that are asked for.
abbrev pub chosen : PrintPacket → Text → Bool
chosen p r =
    (not (nonempty p.printf_log_pname)
      || str_eq p.printf_log_pname (del_tail_spec (take 32 (drop 4 r))))
    && ((not (nonempty p.key_word) || is_some (strstri (drop 33 r) p.key_word))
        && (strstr_char p.flags.printf_log_type_flag (byte_at 0 r)
            && strstr_char p.flags.printf_log_level_flag (byte_at 2 r)))

-- The records that are chosen, each in the colour of its level.
abbrev pub chosen_lines : PrintPacket → List Text → Text
chosen_lines p [] = []
chosen_lines p (r ∷ rs) =
    if chosen p r
    then colour (byte_at 2 r) ++ (r ++ 10 ∷ none_colour) ++ chosen_lines p rs
    else chosen_lines p rs

module _ (r : Text) (buffer : List ℕ) (is : IsRecord r) where
  c_str-fill : c_str (fill r buffer) ≡ r
  unfolding fill
  c_str-fill = c_str-append r (drop (length r + 1) buffer) is.no_end

  behind-fill : c_str (drop 33 (fill r buffer)) ≡ drop 33 r
  unfolding fill
  behind-fill =
      let rest = drop (length r + 1) buffer in
      ap c_str (drop-append 33 r (0 ∷ rest) (omega (arith, is.long)))
      ∙ c_str-append (drop 33 r) rest (no_nul-drop 33 r is.no_end)

  record_pname-fill : record_pname (fill r buffer) ≡ del_tail_spec (take 32 (drop 4 r))
  unfolding fill record_pname
  record_pname-fill =
      let rest = drop (length r + 1) buffer in
      let e : take 32 (drop 4 (r ++ 0 ∷ rest)) ≡ take 32 (drop 4 r) =
        ap (take 32) (drop-append 4 r (0 ∷ rest) (omega (arith, is.long)))
        ∙ take-append 32 (drop 4 r) (0 ∷ rest) (omega (arith, is.long, length-drop 4 r)) in
      ap (λ s. del_tail_spec (c_str s)) e
      ∙ ap del_tail_spec (
          c_str-no_nul (take 32 (drop 4 r)) (no_nul-take 32 (drop 4 r) (no_nul-drop 4 r is.no_end)))

  byte_at-fill : (i : ℕ) → i < 3 → byte_at i (fill r buffer) ≡ byte_at i r
  unfolding fill
  byte_at-fill i h = byte_at-append i r (0 ∷ drop (length r + 1) buffer) (omega (arith, is.long))

  cat_line-chosen :
      (p : PrintPacket) (last_color : ℕ)
      → (cat_line p (10 ∷ []) last_color (fill r buffer)).1
        ≡ (if chosen p r then colour (byte_at 2 r) ++ (r ++ 10 ∷ none_colour) else [])
  unfolding cat_line pname_differs keyword_missing print_line coloured
  cat_line-chosen p last_color =
      let long : leb (length r) 48 ≡ false = ground (arith, is.long) in
      rw
        (
          c_str-fill,
          behind-fill,
          record_pname-fill,
          byte_at-fill 0 (omega arith),
          byte_at-fill 2 (omega arith),
          long,
          is.type,
          is.level,
        )
        ground arith

-- The log whose walk stands behind the first of two parts.
abbrev pub at_index : List Text → List Text → Log
at_index us rs = record { log_list = us ++ rs; log_size = length (us ++ rs); index = length us }

memory_pull-next :
    (us rs : List Text) (r : Text)
    → length r < cmdline_max_size
    → memory_pull cmdline_max_size (at_index us (r ∷ rs)) ≡ (some r, at_index (us ++ r ∷ []) rs)
unfolding memory_pull
memory_pull-next us rs r h =
    let inside : ltb (length us) (length (us ++ r ∷ rs)) ≡ true =
      ground (arith, length-append us (r ∷ rs)) in
    let whole : us ++ r ∷ [] ++ rs ≡ us ++ r ∷ rs = append_assoc us (r ∷ []) rs in
    let next : length (us ++ r ∷ []) ≡ length us + 1 = omega (arith, length-append us (r ∷ [])) in
    rw (inside, get_elem?-length us r rs, snprintf-of_lt cmdline_max_size r h, whole, next)

memory_pull-end :
    (us : List Text)
    → memory_pull cmdline_max_size (at_index us []) ≡ (none, record (at_index us []) { index = 0 })
unfolding memory_pull
memory_pull-end us =
    let outside : ltb (length us) (length (us ++ [])) ≡ false =
      ground (arith, length-append us []) in
    rw outside

if-append : (b : Bool) (s t : Text) → (if b then s else []) ++ t ≡ (if b then s ++ t else t)
if-append true s t = refl
if-append false s t = refl

memory_loop-chosen :
    (p : PrintPacket) (rs us : List Text) (fuel last_color : ℕ) (buffer : List ℕ)
    → All IsRecord rs
    → length rs < fuel
    → memory_loop fuel p last_color buffer (at_index us rs)
      ≡ some (chosen_lines p rs, record (at_index us rs) { index = 0 })
unfolding memory_loop
memory_loop-chosen p [] us zero c buffer is h = absurd (omega arith)
memory_loop-chosen p [] us (suc fuel) c buffer is h =
    let e = memory_pull-end us in rw (memory_loop, e, e)
memory_loop-chosen p (r ∷ rs) us zero c buffer is h = absurd (omega arith)
memory_loop-chosen p (r ∷ rs) us (suc fuel) c buffer is h =
    let whole : us ++ r ∷ [] ++ rs ≡ us ++ r ∷ rs = append_assoc us (r ∷ []) rs in
    let next = cat_line p (10 ∷ []) c (fill r buffer) in
    let ih =
      memory_loop-chosen p rs (us ++ r ∷ []) fuel next.0 (fill r buffer) is.1 (omega arith) in
    let line = cat_line-chosen r buffer is.0 p c in
    let e = memory_pull-next us rs r is.0.short in
    rw (memory_loop, e, e, ih, line, whole, if-append)

-- On a log in memory whose records are longer than 48 bytes, fit the line buffer, have no NUL
-- and have a type of U, S, P and a level of E, W, N, I, with the walk at its start and fuel for
-- more than the number of the records, `ipcd_misc_cat` ends. It sends in their order, each in
-- the colour of its level, the records of the wanted program that contain the key word behind
-- byte 33 and whose type and level are wanted, where an empty program or key word wants all, and
-- leaves the walk at its start.
pub cat_memory-chosen :
    (p : PrintPacket) (rs : List Text) (fuel last_color : ℕ) (stack : List ℕ)
    → All IsRecord rs
    → length rs < fuel
    → cat_memory fuel p last_color stack (at_index [] rs)
      ≡ some (chosen_lines p rs ++ crlf, at_index [] rs)
unfolding cat_memory
cat_memory-chosen p rs fuel last_color stack is h =
    rw (cat_memory, memory_loop-chosen p rs [] fuel last_color stack is h)
