-- ===== src/Misc/Agree.antt =====
-- The two readers of the log file, `ipc_cat_deamon` of src/easyipc_console.c and `ipcd_misc_cat` of
-- src/easyipc_misc.c.
use easyipc.Base.{ℕ, List, [], ◌≡◌, arith}
use easyipc.Misc.{PrintPacket, cat_line, cat_deamon_line}

-- On every line of the log file, `ipc_cat_deamon` of the console prints what `ipcd_misc_cat` of
-- the daemon sends for the same types, levels, program and key word, and remembers the same
-- colour.
pub cat_deamon_line-cat_line :
    (p : PrintPacket) (last_color : ℕ) (readline : List ℕ)
    → cat_deamon_line p.flags.printf_log_level_flag p.flags.printf_log_type_flag p.printf_log_pname
        p.key_word last_color readline
      ≡ cat_line p [] last_color readline
unfolding cat_deamon_line cat_line
cat_deamon_line-cat_line p last_color readline = ground arith
