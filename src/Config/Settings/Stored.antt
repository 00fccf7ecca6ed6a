-- ===== src/Config/Settings/Stored.antt =====
-- The settings that are read back from a file which has them, laid out as sample/easyipc.conf is.
use easyipc.Base.{
  ℕ, ◌<◌, ◌^◌, true, false, some, List, [], ◌∷◌, ◌≡◌, refl, ap, ◌∙◌, arith, length, All,
}
use easyipc.Base.Int.{ℤ, pos}
use easyipc.Base.Scan.{
  decimal, digits, all_digits, digits-decimal, all_digits-decimal, length-decimal, decimal-starts,
  scan_int-digits,
}
use easyipc.Base.Text.{Text, codes, snprintf-of_lt}
use easyipc.Config.{success, skip_blank}
use easyipc.Config.Values.{IsEntry, look_up}
use easyipc.Config.Files.{print_file, get_config_string_value-look_up}
use easyipc.Config.Settings.{
  is_hex, int_of, read_as, get_config_int_value, configured, with_path, with_syslog, load_settings,
}

skip_blank-digits : (s : Text) → all_digits s ≡ true → skip_blank s ≡ s
unfolding skip_blank
skip_blank-digits [] h = refl
skip_blank-digits (c ∷ s) h = ground arith

-- A numeral is not taken for a hexadecimal number.
is_hex-digits : (s : Text) → all_digits s ≡ true → is_hex s ≡ false
is_hex-digits [] h = refl
is_hex-digits (c ∷ []) h = refl
is_hex-digits (c ∷ d ∷ s) h = ground arith

int_of-digits :
    (s : Text) (value : ℤ)
    → all_digits s ≡ true
    → 0 < length s
    → digits 0 s < 2 ^ 31
    → int_of s value ≡ pos (digits 0 s)
unfolding int_of
int_of-digits s value h some_digit lt =
    rw (int_of, skip_blank-digits s h, is_hex-digits s h, scan_int-digits s h some_digit lt)

module _ (es : List (Text × Text)) (ok : All IsEntry es) where
  get_config_int_value-decimal :
      (key : Text) (n : ℕ) (value : ℤ)
      → look_up key es ≡ success (decimal 10 n)
      → n < 2 ^ 31
      → get_config_int_value (codes "Config") key (some (print_file (codes "Config") es)) value
        ≡ read_as (pos n)
  unfolding get_config_int_value
  get_config_int_value-decimal key n value h lt =
      let v = decimal 10 n in
      let e : digits 0 v ≡ n = digits-decimal 10 n (omega arith) in
      let found =
        get_config_string_value-look_up 16 (codes "Config") key v es (omega arith) refl
          (omega arith) ok h (omega (arith, length-decimal 10 n)) in
      let read : int_of v value ≡ pos n =
        int_of-digits v value (all_digits-decimal 10 n) (decimal-starts 9 n) (omega (arith, e))
        ∙ ap pos e in
      rw (get_config_int_value, found, read)

  -- Let a file consist of the section "Config" and of lines `name=value` with names that are not
  -- empty, of bytes that the format gives no meaning, values that do not start with a blank and
  -- have no end of line and no `//`, and each line within the buffer, and let the first lines
  -- for the three settings have a path shorter than its array and two decimal numerals below
  -- 2^31. Then the daemon and the library read exactly this path and these two numbers from it.
  pub load_settings-print_file :
      (path : Text) (size syslog : ℕ) (value : ℤ)
      → look_up (codes "packet_max_size") es ≡ success (decimal 10 size)
      → look_up (codes "ipc_syslog_enable") es ≡ success (decimal 10 syslog)
      → look_up (codes "ipc_log_save_path") es ≡ success path
      → size < 2 ^ 31
      → syslog < 2 ^ 31
      → length path < 256
      → load_settings (some (print_file (codes "Config") es)) value
        ≡ configured (record {
          ipc_log_save_path = path;
          ipc_msg_packet_max_size = pos size;
          ipc_syslog_enable = pos syslog;
        })
  unfolding load_settings with_syslog with_path
  load_settings-print_file path size syslog value hsize hsys hpath lsize lsys lpath =
      let a = get_config_int_value-decimal (codes "packet_max_size") size value hsize lsize in
      let b =
        get_config_int_value-decimal (codes "ipc_syslog_enable") syslog (pos size) hsys lsys in
      let c =
        get_config_string_value-look_up 256 (codes "Config") (codes "ipc_log_save_path") path es
          (omega arith) refl (omega arith) ok hpath lpath in
      rw (load_settings, a, with_syslog, b, with_path, c, snprintf-of_lt 256 path lpath)
