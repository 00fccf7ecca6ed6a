-- ===== src/Log.antt =====
-- The log of src/easyipc_debug.c: the ring of the last records in memory, the walk over it, and the
-- choice of what is printed and saved.
pub mod Ring
pub mod Format
pub mod File
pub mod Written
use easyipc.Base.{
  ℕ, zero, suc, ◌+◌, ◌-◌, Bool, true, false, ◌&&◌, ◌||◌, Option, none, some, List, [], ◌∷◌, ◌++◌,
  ltb, ◌==◌, any, length, get_elem?, erase_idx, if◌then◌else◌,
}
use easyipc.Base.Text.{Text, codes, snprintf, nonempty}
use easyipc.Wire.{LogType, progress, system, user, Level, err, warn, normal, info, dbg}

-- `IPC_DEBUG_PRINT_MAX_SIZE`
abbrev pub print_max_size : ℕ
print_max_size = 8192

-- The static variables: `index` is that of `ipcd_debug_log_memory_pull`.
pub record Log : Type 0 where
  pub log_list : List Text
  pub log_size : ℕ
  pub index : ℕ

-- The text as it is kept: `malloc_size` is the length with its end, or the limit.
unfoldable pub kept : Text → ℕ → Text
kept str maxsize =
    let size = length str + 1 in snprintf (if ltb maxsize size then maxsize else size) str

-- `ipcd_debug_log_memory_push`; `debug_log_size` is the size that the daemon was started with.
unfoldable pub memory_push : ℕ → Text → ℕ → Log → Log
unfolding kept
memory_push debug_log_size str maxsize l =
    if ltb debug_log_size l.log_size
    then record l {
      log_list = erase_idx l.log_list 0 ++ kept str maxsize ∷ [];
      log_size = l.log_size - 1 + 1;
    }
    else record l { log_list = l.log_list ++ kept str maxsize ∷ []; log_size = l.log_size + 1 }

-- `ipcd_debug_log_memory_pull`: the text that it writes, if it returns 1.
unfoldable pub memory_pull : ℕ → Log → Option Text × Log
memory_pull maxsize l =
    let found : Option Text × Log = elim (get_elem? l.log_list l.index) [
      | none ↦ (none, record l { index = 0 })
      | some t ↦ (some (snprintf maxsize t), record l { index = l.index + 1 })
    ] in
    if ltb l.index l.log_size then found else (none, record l { index = 0 })

-- `tlt_char` and `level_char`
unfoldable pub tlt_char : LogType → ℕ
tlt_char progress = 80
tlt_char system = 83
tlt_char user = 85

unfoldable pub level_char : Level → ℕ
level_char err = 69
level_char warn = 87
level_char normal = 78
level_char info = 73
level_char dbg = 68

-- The flags that the console sets.
pub record Flags : Type 0 where
  pub printf_log_type_flag : Text
  pub printf_log_level_flag : Text

-- `ipcd_debug_init`, of the flags
unfoldable pub debug_init : Flags → Flags
debug_init f =
    let typed = record f { printf_log_type_flag = snprintf 16 (codes "UPS") } in
    if nonempty typed.printf_log_type_flag
    then typed
    else record typed { printf_log_level_flag = snprintf 16 (codes "ED") }

-- `strstr` of a string of one character
abbrev pub has_char : ℕ → Text → Bool
has_char c = any (λ d. c == d)

-- Where `ipcd_log_save_and_print` puts a record: on the console, in the file, in memory.
pub record Kept : Type 0 where
  pub printed : Bool
  pub written : Bool
  pub log : Log

unfoldable pub save_and_print : ℕ → Flags → LogType → Level → Text → Log → Kept
unfolding memory_push tlt_char level_char
save_and_print debug_log_size f type level save_buf l = record {
  printed =
      has_char (tlt_char type) f.printf_log_type_flag
      && has_char (level_char level) f.printf_log_level_flag;
  written = debug_log_size == 0;
  log = if debug_log_size == 0 then l else memory_push debug_log_size save_buf print_max_size l;
}
