-- ===== src/Log/File.antt =====
-- The log file of src/easyipc_debug.c.
use easyipc.Base.{ℕ, [], ◌∷◌, ◌++◌, ◌==◌, if◌then◌else◌}
use easyipc.Base.Int.{ℤ, pos, negsuc, ltb_ℤ}
use easyipc.Base.Text.{Text, codes, snprintf, nonempty}
use easyipc.Wire.{system, normal}
use easyipc.Log.{print_max_size}
use easyipc.Log.Format.{raw_text}

-- What the operating system does with its state `S`: `system`, `open` with the flags
-- O_WRONLY|O_CREAT and the mode 0777, and `write` of a whole string to a descriptor, each with its
-- result.
pub record Files (S : Type 0) : Type 0 where
  pub run : Text → S → ℤ × S
  pub open_file : Text → S → ℤ × S
  pub write_file : ℤ → Text → S → ℤ × S

-- The variables: `log_path`, `log_fp`, and `printflag` of `ipcd_debug_creat_logfile`.
pub record LogFile : Type 0 where
  pub log_path : Text
  pub log_fp : ℤ
  pub printflag : ℕ

-- The variables at the start.
abbrev pub no_file : LogFile
no_file = record { log_path = []; log_fp = negsuc 0; printflag = 0 }

-- `first_log`
unfoldable pub first_log : ℕ → ℕ → Text
first_log tv_sec msec = snprintf print_max_size (
    raw_text (record {
      type = system;
      level = normal;
      pname = codes "easyipc_daemon";
      sec = tv_sec;
      msec = msec;
      text = codes "Daemon start...";
    })
    ++ 13 ∷ 10 ∷ [])

module _ {S : Type 0} (os : Files S) where
  -- The message about a command that fails goes to the terminal of the daemon, as does the one about
  -- a file that is not opened, which `printflag` lets through once.
  unfoldable pub creat_logfile : Text → ℕ → ℕ → LogFile × S → LogFile × S
  unfolding first_log
  creat_logfile ipc_log_save_path tv_sec msec (f, s) =
      let path = snprintf 128 ipc_log_save_path in
      let cmd = snprintf 256 (codes "rm " ++ path) in
      let s1 = (os.run cmd s).1 in
      let named = if nonempty f.log_path then f.log_path else snprintf 256 path in
      let (fp, s2) = os.open_file named s1 in
      let opened : LogFile = record f { log_path = named; log_fp = fp } in
      if ltb_ℤ (pos 0) fp
      then (opened, (os.write_file fp (first_log tv_sec msec) s2).1)
      else (record opened { printflag = if f.printflag == 0 then 1 else f.printflag }, s2)

  -- A record and the end of its line, with the result of the second write.
  unfoldable pub write_line : ℤ → Text → S → ℤ × S
  write_line fp save_buf s = os.write_file fp (13 ∷ 10 ∷ []) (os.write_file fp save_buf s).1

  -- The branch of `ipcd_log_save_and_print` for a log in a file.
  unfoldable pub save_to_file : Text → ℕ → ℕ → Text → LogFile × S → LogFile × S
  unfolding creat_logfile write_line
  save_to_file ipc_log_save_path tv_sec msec save_buf (f, s) =
      let (ret, s1) = write_line f.log_fp save_buf s in
      if ltb_ℤ (pos 0) ret
      then (f, s1)
      else let (g, s2) = creat_logfile ipc_log_save_path tv_sec msec (f, s1) in
        (g, (write_line g.log_fp save_buf s2).1)
