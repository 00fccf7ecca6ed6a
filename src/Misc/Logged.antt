-- ===== src/Misc/Logged.antt =====
-- What `ipcd_misc_cat` of src/easyipc_misc.c shows of the records that `ipcd_log_save_and_print` of
-- src/easyipc_debug.c has kept.
use easyipc.Base.{
  ℕ, zero, suc, ◌+◌, ◌-◌, ◌≤◌, ◌<◌, Bool, true, false, ◌&&◌, ◌||◌, not, some, List, [], ◌∷◌, ◌++◌,
  ◌≡◌, refl, ap, sym, subst, ◌∙◌, arith, map, take, drop, length, All, ◌==◌, if◌then◌else◌,
  length-append, take-append, take-of_le,
}
use easyipc.Base.Scan.{decimal, all_digits, all_digits-decimal, length-decimal}
use easyipc.Base.Text.{Text, str_eq, codes, nonempty, snprintf-of_lt}
use easyipc.Wire.{LogType, user, progress, system, Level, err, warn, normal, info, dbg}
use easyipc.Log.{tlt_char, level_char, print_max_size}
use easyipc.Log.Format.{Event, copies, pad_right, pad_left, tail_text, raw_text, save_buf}
use easyipc.Misc.{
  c_str, del_tail_spec, strstr_char, PrintPacket, byte_at, colour, none_colour, cat_memory, crlf,
}
use easyipc.Misc.Selected.{no_nul, IsRecord, chosen, chosen_lines, at_index, cat_memory-chosen}

-- A name without blanks.
abbrev pub one_word : Text → Bool
one_word [] = true
one_word (c ∷ s) = not (c == 0) && (not (c == 32) && one_word s)

-- A record with a name of one word that fits its column, of a level other than D, without NUL.
pub record IsEvent (e : Event) : Type 0 where
  pub named : nonempty e.pname ≡ true
  pub fits : length e.pname ≤ 32
  pub word : one_word e.pname ≡ true
  pub clean : no_nul e.text ≡ true
  pub short : length e.text < 4000
  pub level : strstr_char (codes "EWNI") (level_char e.level) ≡ true

no_nul-append : (s t : Text) → no_nul s ≡ true → no_nul t ≡ true → no_nul (s ++ t) ≡ true
no_nul-append [] t h g = g
no_nul-append (c ∷ s) t h g = ground (arith, no_nul-append s t)

no_nul-copies : (c n : ℕ) → (c == 0) ≡ false → no_nul (copies c n) ≡ true
no_nul-copies c zero h = refl
no_nul-copies c (suc n) h = ground (arith, no_nul-copies c n)

no_nul-digits : (s : Text) → all_digits s ≡ true → no_nul s ≡ true
no_nul-digits [] h = refl
no_nul-digits (c ∷ s) h = ground (arith, no_nul-digits s)

no_nul-one_word : (s : Text) → one_word s ≡ true → no_nul s ≡ true
no_nul-one_word [] h = refl
no_nul-one_word (c ∷ s) h = ground (arith, no_nul-one_word s)

length-copies : (c n : ℕ) → length (copies c n) ≡ n
length-copies c zero = refl
length-copies c (suc n) = ap suc (length-copies c n)

length-pad_left :
    (c n : ℕ) (s : Text) → (n ≤ length (pad_left c n s)) × (length (pad_left c n s) ≤ n + length s)
length-pad_left c n s = (
  omega (arith, length-append (copies c (n - length s)) s, length-copies c (n - length s)),
  omega (arith, length-append (copies c (n - length s)) s, length-copies c (n - length s)),
)

length-pad_right : (n : ℕ) (s : Text) → length s ≤ n → length (pad_right n s) ≡ n
length-pad_right n s h =
    omega (arith, length-append s (copies 32 (n - length s)), length-copies 32 (n - length s))

abbrev cut_blank : ℕ → ℕ
cut_blank d = if d == 32 then 0 else d

c_str-blanks : (s : Text) (k : ℕ) → one_word s ≡ true → c_str (map cut_blank (s ++ copies 32 k)) ≡ s
unfolding c_str
c_str-blanks [] zero h = refl
c_str-blanks [] (suc k) h = refl
c_str-blanks (c ∷ s) k h = ground (arith, c_str-blanks s k)

del_tail_spec-pad_right :
    (s : Text) (n : ℕ) → nonempty s ≡ true → one_word s ≡ true → del_tail_spec (pad_right n s) ≡ s
unfolding del_tail_spec c_str
del_tail_spec-pad_right [] n h w = absurd (ground (arith, h))
del_tail_spec-pad_right (c ∷ s) n h w = ground (arith, c_str-blanks s (n - length (c ∷ s)))

type_known : (t : LogType) → strstr_char (codes "USP") (tlt_char t) ≡ true
unfolding strstr_char tlt_char
type_known user = refl
type_known progress = refl
type_known system = refl

type_byte : (t : LogType) → (tlt_char t == 0) ≡ false
unfolding tlt_char
type_byte user = refl
type_byte progress = refl
type_byte system = refl

level_byte : (l : Level) → (level_char l == 0) ≡ false
unfolding level_char
level_byte err = refl
level_byte warn = refl
level_byte normal = refl
level_byte info = refl
level_byte dbg = refl

module _ (e : Event) (is : IsEvent e) where
  length-tail_text : (14 ≤ length (tail_text e)) × (length (tail_text e) < 4055)
  length-tail_text =
      let a : Text = pad_left 32 6 (decimal 20 e.sec) in
      let b : Text = pad_left 48 3 (decimal 20 e.msec) in
      let rest : Text = 32 ∷ 58 ∷ 32 ∷ e.text in
      let la = length-pad_left 32 6 (decimal 20 e.sec) in
      let lb = length-pad_left 48 3 (decimal 20 e.msec) in
      let da = length-decimal 20 e.sec in
      let db = length-decimal 20 e.msec in
      let ab = length-append a (46 ∷ (b ++ rest)) in
      let bb = length-append b rest in
      (omega (arith, la.0, lb.0, ab, bb), omega (arith, la.1, lb.1, da, db, ab, bb, is.short))

  pub length-raw_text : (48 < length (raw_text e)) × (length (raw_text e) < 4092)
  length-raw_text =
      let l = length-append (pad_right 32 e.pname) (tail_text e) in
      let p = length-pad_right 32 e.pname is.fits in
      (omega (arith, l, p, length-tail_text.0), omega (arith, l, p, length-tail_text.1))

  no_nul-tail_text : no_nul (tail_text e) ≡ true
  no_nul-tail_text =
      let a : Text = decimal 20 e.sec in
      let b : Text = decimal 20 e.msec in
      no_nul-append (pad_left 32 6 a) (46 ∷ (pad_left 48 3 b ++ 32 ∷ 58 ∷ 32 ∷ e.text))
        (no_nul-append (copies 32 (6 - length a)) a (no_nul-copies 32 (6 - length a) refl)
          (no_nul-digits a (all_digits-decimal 20 e.sec)))
        (no_nul-append (pad_left 48 3 b) (32 ∷ 58 ∷ 32 ∷ e.text)
          (no_nul-append (copies 48 (3 - length b)) b (no_nul-copies 48 (3 - length b) refl)
            (no_nul-digits b (all_digits-decimal 20 e.msec)))
          is.clean)

  pub save_buf-raw_text : save_buf e ≡ raw_text e
  unfolding save_buf
  save_buf-raw_text = snprintf-of_lt print_max_size (raw_text e) (omega (arith, length-raw_text.1))

  raw_text-IsRecord : IsRecord (raw_text e)
  unfolding strstr_char byte_at
  raw_text-IsRecord = record {
    long = length-raw_text.0;
    short = omega (arith, length-raw_text.1);
    no_end =
        let name =
          no_nul-append e.pname (copies 32 (32 - length e.pname)) (no_nul-one_word e.pname is.word)
            (no_nul-copies 32 (32 - length e.pname) refl) in
        let body = no_nul-append (pad_right 32 e.pname) (tail_text e) name no_nul-tail_text in
        rw (type_byte e.type, level_byte e.level) body;
    type = type_known e.type;
    level = is.level;
  }

  -- The name stands in its column.
  column : del_tail_spec (take 32 (drop 4 (raw_text e))) ≡ e.pname
  column =
      let p : Text = pad_right 32 e.pname in
      let long : length p ≡ 32 = length-pad_right 32 e.pname is.fits in
      ap del_tail_spec (
        take-append 32 p (tail_text e) (omega (arith, long))
        ∙ take-of_le 32 p (omega (arith, long)))
      ∙ del_tail_spec-pad_right e.pname 32 is.named is.word

  chosen-event :
      (p : PrintPacket)
      → p.key_word ≡ []
      → chosen p (raw_text e) ≡ (
          (not (nonempty p.printf_log_pname) || str_eq p.printf_log_pname e.pname)
          && (strstr_char p.flags.printf_log_type_flag (tlt_char e.type)
              && strstr_char p.flags.printf_log_level_flag (level_char e.level)))
  unfolding byte_at
  chosen-event p none_wanted = rw (column, none_wanted)

-- The records of the wanted program, types and levels, each in the colour of its level.
abbrev pub wanted_lines : PrintPacket → List Event → Text
wanted_lines p [] = []
wanted_lines p (e ∷ es) =
    if (not (nonempty p.printf_log_pname) || str_eq p.printf_log_pname e.pname)
      && (strstr_char p.flags.printf_log_type_flag (tlt_char e.type)
          && strstr_char p.flags.printf_log_level_flag (level_char e.level))
    then colour (level_char e.level) ++ (raw_text e ++ 10 ∷ none_colour) ++ wanted_lines p es
    else wanted_lines p es

chosen_lines-wanted_lines :
    (p : PrintPacket) (es : List Event)
    → p.key_word ≡ []
    → All IsEvent es
    → chosen_lines p (map save_buf es) ≡ wanted_lines p es
unfolding byte_at
chosen_lines-wanted_lines p [] h is = refl
chosen_lines-wanted_lines p (e ∷ es) h is =
    rw (save_buf-raw_text e is.0, chosen-event e is.0 p h, chosen_lines-wanted_lines p es h is.1)

records-IsRecord : (es : List Event) → All IsEvent es → All IsRecord (map save_buf es)
records-IsRecord [] is = tt
records-IsRecord (e ∷ es) is = (
  subst IsRecord (sym (save_buf-raw_text e is.0)) (raw_text-IsRecord e is.0),
  records-IsRecord es is.1,
)

length-map : (es : List Event) → length (map save_buf es) ≡ length es
length-map [] = refl
length-map (e ∷ es) = ap suc (length-map es)

-- What the console reads of the records of such events, in a log that keeps them all.
pub cat_memory-save_buf :
    (p : PrintPacket) (es : List Event) (fuel last_color : ℕ) (stack : List ℕ)
    → p.key_word ≡ []
    → All IsEvent es
    → length es < fuel
    → cat_memory fuel p last_color stack (at_index [] (map save_buf es))
      ≡ some (wanted_lines p es ++ crlf, at_index [] (map save_buf es))
cat_memory-save_buf p es fuel last_color stack h is room =
    cat_memory-chosen p (map save_buf es) fuel last_color stack (records-IsRecord es is)
      (omega (arith, length-map es))
    ∙ ap (λ out. some (out ++ crlf, at_index [] (map save_buf es)))
        (chosen_lines-wanted_lines p es h is)
