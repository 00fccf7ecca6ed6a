-- ===== src/Log/Format.antt =====
-- The text of a record, as `ipcd_log_save_and_print` of src/easyipc_debug.c formats it.
use easyipc.Base.{ℕ, zero, suc, ◌-◌, none, some, List, [], ◌∷◌, ◌++◌, length, ltb, if◌then◌else◌}
use easyipc.Base.Scan.{decimal}
use easyipc.Base.Text.{Text, codes, snprintf, nonempty}
use easyipc.Wire.{LogType, Level}
use easyipc.Registry.{Member, get_pname_via_pid}
use easyipc.Log.{tlt_char, level_char, print_max_size}

-- What a record is made of: `ptime` in seconds and milliseconds, and `sprint_buf`.
pub record Event : Type 0 where
  pub type : LogType
  pub level : Level
  pub pname : Text
  pub sec : ℕ
  pub msec : ℕ
  pub text : Text

abbrev pub copies : ℕ → ℕ → Text
copies c zero = []
copies c (suc n) = c ∷ copies c n

-- "%-32s" and the like
abbrev pub pad_right : ℕ → Text → Text
pad_right n s = s ++ copies 32 (n - length s)

-- "%6ld" and the like, and "%03ld" with 48 for the blank
abbrev pub pad_left : ℕ → ℕ → Text → Text
pad_left c n s = copies c (n - length s) ++ s

-- `pname` of a record
unfoldable pub log_pname : ℕ → List Member → Text
unfolding get_pname_via_pid
log_pname pid ms =
    if ltb 0 pid
    then elim (get_pname_via_pid pid ms) [
      | none ↦ codes "unknow"
      | some name ↦ if nonempty name then name else codes "unknow"
    ]
    else codes "ipcd"

-- What stands behind the name.
abbrev pub tail_text : Event → Text
tail_text e =
    32
    ∷ (pad_left 32 6 (decimal 20 e.sec)
        ++ 46 ∷ (pad_left 48 3 (decimal 20 e.msec) ++ 32 ∷ 58 ∷ 32 ∷ e.text))

-- "%s %s %-32s %6ld.%03ld : %s"
abbrev pub raw_text : Event → Text
raw_text e = tlt_char e.type ∷ 32 ∷ level_char e.level ∷ 32 ∷ (pad_right 32 e.pname ++ tail_text e)

-- `save_buf`
unfoldable pub save_buf : Event → Text
unfolding tlt_char level_char
save_buf e = snprintf print_max_size (raw_text e)
