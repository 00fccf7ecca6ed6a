-- ===== src/Log/Written.antt =====
-- What the log file of src/easyipc_debug.c holds.
use easyipc.Base.{
  ℕ, ◌<◌, true, false, ◌⊎◌, inl, inr, List, [], ◌∷◌, ◌++◌, ◌≡◌, refl, sym, subst, ◌∙◌, arith,
  length, append_assoc, append-nil, if◌then◌else◌,
}
use easyipc.Base.Int.{ℤ, pos, ltb_ℤ}
use easyipc.Base.Text.{Text, codes, snprintf, snprintf-of_lt, nonempty}
use easyipc.Log.File.{Files, LogFile, no_file, first_log, creat_logfile, write_line, save_to_file}

-- The file of a path, as the operating system documents it: `rm` removes it, `open` makes it when
-- it is not there, and `write` at the end of a file appends and returns the number of its bytes.
pub record Writable {S : Type 0} (os : Files S) (path : Text) : Type 1 where
  pub bytes : S → Text
  pub at_end : ℤ → S → Type 0
  pub removed : (s : S) → bytes (os.run (codes "rm " ++ path) s).1 ≡ []
  pub opened :
      (s : S)
      → bytes s ≡ []
      → (ltb_ℤ (pos 0) (os.open_file path s).0 ≡ true)
        × at_end (os.open_file path s).0 (os.open_file path s).1
        × (bytes (os.open_file path s).1 ≡ [])
  pub written :
      (fp : ℤ) (t : Text) (s : S)
      → at_end fp s
      → ((os.write_file fp t s).0 ≡ pos (length t))
        × at_end fp (os.write_file fp t s).1
        × (bytes (os.write_file fp t s).1 ≡ bytes s ++ t)

line_assoc : (t buf rest : Text) → t ++ buf ++ 13 ∷ 10 ∷ [] ++ rest ≡ t ++ (buf ++ 13 ∷ 10 ∷ rest)
line_assoc t buf rest =
    append_assoc (t ++ buf) (13 ∷ 10 ∷ []) rest ∙ append_assoc t buf (13 ∷ 10 ∷ rest)

chosen_path : (path p : Text) → (p ≡ []) ⊎ (p ≡ path) → (if nonempty p then p else path) ≡ path
chosen_path path [] h = refl
chosen_path path (c ∷ p) (inl h) = absurd (ground (arith, h))
chosen_path path (c ∷ p) (inr h) = h

-- A record with the time at which its file would be made anew.
pub record Saved : Type 0 where
  pub tv_sec : ℕ
  pub msec : ℕ
  pub save_buf : Text

abbrev pub file_lines : List Saved → Text
file_lines [] = []
file_lines (r ∷ rs) = r.save_buf ++ 13 ∷ 10 ∷ file_lines rs

module _ {S : Type 0} (os : Files S) (path : Text) where
  -- The records, saved in turn.
  unfoldable pub save_all : List Saved → LogFile × S → LogFile × S
  save_all [] fs = fs
  save_all (r ∷ rs) fs = save_all rs (save_to_file os path r.tv_sec r.msec r.save_buf fs)

module _ {S : Type 0} (os : Files S) (path : Text) (w : Writable os path) where
  -- The descriptor stands at the end of the file, which holds the text.
  pub record Holds (fs : LogFile × S) (t : Text) : Type 0 where
    pub named : fs.0.log_path ≡ path
    pub ended : w.at_end fs.0.log_fp fs.1
    pub holds : w.bytes fs.1 ≡ t

  creat_logfile-Holds :
      (tv_sec msec : ℕ) (f : LogFile) (s : S)
      → length path < 128
      → (f.log_path ≡ []) ⊎ (f.log_path ≡ path)
      → Holds (creat_logfile os path tv_sec msec (f, s)) (first_log tv_sec msec)
  unfolding creat_logfile
  creat_logfile-Holds tv_sec msec f s short named =
      let cut : snprintf 128 path ≡ path = snprintf-of_lt 128 path short in
      let whole : snprintf 256 path ≡ path = snprintf-of_lt 256 path (omega arith) in
      let cmd : snprintf 256 (codes "rm " ++ path) ≡ codes "rm " ++ path =
        snprintf-of_lt 256 (codes "rm " ++ path) (omega arith) in
      let same : (if nonempty f.log_path then f.log_path else path) ≡ path =
        chosen_path path f.log_path named in
      let s1 = (os.run (codes "rm " ++ path) s).1 in
      let o = w.opened s1 (w.removed s) in
      let fp = (os.open_file path s1).0 in
      let r = w.written fp (first_log tv_sec msec) (os.open_file path s1).1 o.1 in
      rw (cut, whole, cmd, same, o.0)
        (record { named = refl; ended = r.1; holds = rw (r.2, o.2) refl })

  write_line-Holds :
      (t buf : Text) (f : LogFile) (s : S)
      → Holds (f, s) t
      → (ltb_ℤ (pos 0) (write_line os f.log_fp buf s).0 ≡ true)
        × Holds (f, (write_line os f.log_fp buf s).1) (t ++ buf ++ 13 ∷ 10 ∷ [])
  unfolding write_line
  write_line-Holds t buf f s h =
      let one = w.written f.log_fp buf s h.ended in
      let two = w.written f.log_fp (13 ∷ 10 ∷ []) (os.write_file f.log_fp buf s).1 one.1 in
      (
        rw two.0 refl,
        record { named = h.named; ended = two.1; holds = rw (two.2, one.2, h.holds) refl },
      )

  -- While the file can be written, a record is appended to it, and the variables stay.
  save_to_file-Holds :
      (t : Text) (r : Saved) (f : LogFile) (s : S)
      → Holds (f, s) t
      → Holds
          (save_to_file os path r.tv_sec r.msec r.save_buf (f, s))
          (t ++ r.save_buf ++ 13 ∷ 10 ∷ [])
  unfolding save_to_file
  save_to_file-Holds t r f s h = let line = write_line-Holds t r.save_buf f s h in rw line.0 line.1

  save_all-Holds :
      (t : Text) (rs : List Saved) (fs : LogFile × S)
      → Holds fs t
      → Holds (save_all os path rs fs) (t ++ file_lines rs)
  unfolding save_all
  save_all-Holds t [] fs h = subst (Holds fs) (sym (append-nil t)) h
  save_all-Holds t (r ∷ rs) (f, s) h =
      subst (Holds (save_all os path (r ∷ rs) (f, s))) (line_assoc t r.save_buf (file_lines rs)) (
        save_all-Holds (t ++ r.save_buf ++ 13 ∷ 10 ∷ []) rs
          (save_to_file os path r.tv_sec r.msec r.save_buf (f, s)) (save_to_file-Holds t r f s h))

  -- Let the file of a path shorter than 128 bytes be one that `rm` removes, `open` makes, and
  -- writes at its end extend. After `ipcd_debug_creat_logfile` at the start of the daemon and
  -- any records that `ipcd_log_save_and_print` saves to a file, this file holds the start line
  -- and each record in turn, every one with the end of its line.
  pub save_all-creat_logfile :
      (tv_sec msec : ℕ) (rs : List Saved) (s : S)
      → length path < 128
      → w.bytes (save_all os path rs (creat_logfile os path tv_sec msec (no_file, s))).1
        ≡ first_log tv_sec msec ++ file_lines rs
  save_all-creat_logfile tv_sec msec rs s short =
      (save_all-Holds (first_log tv_sec msec) rs (creat_logfile os path tv_sec msec (no_file, s))
        (creat_logfile-Holds tv_sec msec no_file s short (inl refl))).holds

  -- Where the line is not written, the file is made anew and the line is written again.
  save_to_file-failed :
      (r : Saved) (f : LogFile) (s : S)
      → length path < 128
      → f.log_path ≡ path
      → ltb_ℤ (pos 0) (write_line os f.log_fp r.save_buf s).0 ≡ false
      → Holds
          (save_to_file os path r.tv_sec r.msec r.save_buf (f, s))
          (first_log r.tv_sec r.msec ++ r.save_buf ++ 13 ∷ 10 ∷ [])
  unfolding save_to_file
  save_to_file-failed r f s short named fails =
      let s1 = (write_line os f.log_fp r.save_buf s).1 in
      let anew = creat_logfile os path r.tv_sec r.msec (f, s1) in
      let line =
        write_line-Holds (first_log r.tv_sec r.msec) r.save_buf anew.0 anew.1
          (creat_logfile-Holds r.tv_sec r.msec f s1 short (inr named)) in
      rw fails line.1

  -- Let the file of a path shorter than 128 bytes be one that `rm` removes, `open` makes, and
  -- writes at its end extend, and let the log be in this file. Where the end of a line is not
  -- written, `ipcd_log_save_and_print` makes the file anew: what it held is gone, and after any
  -- further records it holds a new start line, the record in hand, and these records.
  pub save_all-failed :
      (r : Saved) (rs : List Saved) (f : LogFile) (s : S)
      → length path < 128
      → f.log_path ≡ path
      → ltb_ℤ (pos 0) (write_line os f.log_fp r.save_buf s).0 ≡ false
      → w.bytes (save_all os path (r ∷ rs) (f, s)).1
        ≡ first_log r.tv_sec r.msec ++ file_lines (r ∷ rs)
  unfolding save_all
  save_all-failed r rs f s short named fails =
      (save_all-Holds (first_log r.tv_sec r.msec ++ r.save_buf ++ 13 ∷ 10 ∷ []) rs
        (save_to_file os path r.tv_sec r.msec r.save_buf (f, s))
        (save_to_file-failed r f s short named fails)).holds
      ∙ line_assoc (first_log r.tv_sec r.msec) r.save_buf (file_lines rs)
