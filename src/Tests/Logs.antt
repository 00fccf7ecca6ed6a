-- ===== src/Tests/Logs.antt =====
-- The log of src/easyipc_debug.c on concrete data.
use easyipc.Base.{◌≡◌, refl, true, List, [], ◌∷◌, ◌++◌, length, if◌then◌else◌, arith}
use easyipc.Base.Int.{pos, negsuc, ltb_ℤ}
use easyipc.Base.Text.{Text, codes, str_eq}
use easyipc.Log.{Log, kept}
use easyipc.Log.File.{Files, LogFile, no_file, first_log, creat_logfile, write_line}
use easyipc.Log.Written.{
  Writable, Saved, file_lines, save_all, save_all-creat_logfile, save_all-failed,
}
use easyipc.Log.Ring.{IsRing, push_all, empty_log, push_all_lem}

abbrev records : List Text
records = codes "one" ∷ codes "two" ∷ codes "three" ∷ []

empty_log-IsRing : IsRing 1 empty_log
empty_log-IsRing = record { counted = refl; bounded = omega arith }

push_all_lem_example :
    (push_all 1 64 records empty_log).log_list
    ≡ kept (codes "two") 64 ∷ kept (codes "three") 64 ∷ []
push_all_lem_example = push_all_lem 1 64 records empty_log empty_log-IsRing

abbrev two_log : Log
two_log = record { log_list = codes "one" ∷ codes "two" ∷ []; log_size = 2; index = 1 }

abbrev log_name : Text
log_name = codes "/tmp/easyipc.log"

-- One file: `rm` of its path removes it, `open` makes it, and a descriptor above 0 writes to it.
abbrev one_file : Files Text
one_file = record {
  run = λ cmd s. (pos 0, if str_eq cmd (codes "rm " ++ log_name) then [] else s);
  open_file = λ path s. if str_eq path log_name then (pos 3, s) else (negsuc 0, s);
  write_file = λ fp t s. if ltb_ℤ (pos 0) fp then (pos (length t), s ++ t) else (negsuc 0, s);
}

one_file-Writable : Writable one_file log_name
unfolding str_eq
one_file-Writable = record {
  bytes = λ s. s;
  at_end = λ fp s. ltb_ℤ (pos 0) fp ≡ true;
  removed = λ s. refl;
  opened = λ s e. (refl, refl, e);
  written = λ fp t s h. rw h (refl, refl, refl);
}

abbrev one : Saved
one = record { tv_sec = 12; msec = 34; save_buf = codes "one" }

abbrev two : Saved
two = record { tv_sec = 13; msec = 5; save_buf = codes "two" }

save_all-creat_logfile_example :
    one_file-Writable.bytes
      (save_all one_file log_name
        (one ∷ two ∷ [])
        (creat_logfile one_file log_name 11 0 (no_file, codes "old"))).1
    ≡ first_log 11 0 ++ file_lines (one ∷ two ∷ [])
save_all-creat_logfile_example =
    save_all-creat_logfile one_file log_name one_file-Writable 11 0 (one ∷ two ∷ []) (codes "old")
      (omega arith)

-- A log whose file could not be opened when it was last made.
abbrev closed : LogFile
closed = record { log_path = log_name; log_fp = negsuc 0; printflag = 1 }

save_all-failed_example :
    one_file-Writable.bytes (save_all one_file log_name (one ∷ two ∷ []) (closed, codes "old")).1
    ≡ first_log 12 34 ++ file_lines (one ∷ two ∷ [])
unfolding write_line
save_all-failed_example =
    save_all-failed one_file log_name one_file-Writable one (two ∷ []) closed (codes "old")
      (omega arith) refl refl
