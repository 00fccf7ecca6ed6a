-- ===== src/Misc/Listing.antt =====
-- What src/easyipc_misc.c and `ipcctl_analysis_core` of src/easyipc_daemon.c print of the table of
-- processes.
use easyipc.Base.{
  ℕ, zero, suc, ◌+◌, ◌/◌, Bool, true, false, ◌&&◌, ◌||◌, none, some, List, [], ◌∷◌, ◌++◌, map,
  length, get_elem?, any, is_some, if◌then◌else◌,
}
use easyipc.Base.Int.{ℤ, pos, negsuc, sub_ℕ}
use easyipc.Base.Text.{Text, str_eq, nonempty}
use easyipc.Registry.{Entry, Member}
use easyipc.Misc.{strstri}

-- The calls of `ipcd_console_print`, each with its arguments.
pub data Line : Type 0 where
  blank state_heading api_heading msg_heading msg_list_heading no_msg : Line
  progress_name not_find : Text → Line
  progress_id send_count recv_count : ℕ → Line
  -- "%-32s%-12d%4ld.%03ld"
  row : Text → ℕ → ℤ → ℤ → Line
  -- "%s -> %s"
  arrow : Text → Text → Line

-- C's division by a positive number.
abbrev quot : ℤ → ℕ → ℤ
quot (pos n) d = pos (n / d)
quot (negsuc n) d = sub_ℕ 0 (suc n / d)

unfoldable pub row_of : Entry → Line
row_of e = row e.msg_name e.process_cnt e.process_time.tv_sec (quot e.process_time.tv_nsec 1000000)

-- A loop over a list of entries by index, for a number of rounds.
unfoldable pub rows : ℕ → ℕ → List Entry → List Line
unfolding row_of
rows zero j es = []
rows (suc k) j es = elim (get_elem? es j) [
  | none ↦ rows k (j + 1) es
  | some e ↦ row_of e ∷ rows k (j + 1) es
]

-- The lines of a process before its entries.
abbrev pub state_lines : Member → List Line
state_lines m =
    blank
    ∷ state_heading
    ∷ progress_name m.pname
    ∷ progress_id m.pid
    ∷ send_count m.send_cnt
    ∷ recv_count m.recv_cnt
    ∷ blank
    ∷ api_heading
    ∷ []

-- `ipcd_misc_ls_all`
unfoldable pub ls_all : List Member → List Line
unfolding rows
ls_all [] = blank ∷ []
ls_all (m ∷ ms) =
    state_lines m
    ++ rows (length m.api_list) 0 m.api_list
    ++ (blank ∷ msg_heading ∷ [])
    ++ rows (length m.pmsg_list) 0 m.pmsg_list
    ++ ls_all ms

-- `ipcd_misc_ls_pname`: the second loop runs on the length of the list of APIs.
unfoldable pub ls_pname : Text → List Member → List Line
unfolding rows
ls_pname name [] = not_find name ∷ []
ls_pname name (m ∷ ms) =
    if str_eq m.pname name
    then state_lines m
      ++ rows (length m.api_list) 0 m.api_list
      ++ (blank ∷ msg_heading ∷ [])
      ++ rows (length m.api_list) 0 m.pmsg_list
      ++ (blank ∷ [])
    else ls_pname name ms

-- The test of all key words of a query, of which the empty ones do not count.
unfoldable pub matches : List Text → Text → Bool
unfolding strstri
matches [] name = true
matches (w ∷ ws) name =
    let rest = matches ws name in if nonempty w then is_some (strstri name w) && rest else rest

-- The loops over the messages of each process, with the key words.
unfoldable pub query_entries : List Text → Text → List Entry → List Line
unfolding matches
query_entries ws pname [] = []
query_entries ws pname (e ∷ es) =
    let rest = query_entries ws pname es in
    if matches ws e.msg_name then arrow pname e.msg_name ∷ rest else rest

unfoldable pub query_members : List Text → List Member → List Line
unfolding query_entries
query_members ws [] = []
query_members ws (m ∷ ms) = query_entries ws m.pname m.pmsg_list ++ query_members ws ms

-- The search for a message of exactly the name.
unfoldable pub is_message : Text → List Member → Bool
is_message name [] = false
is_message name (m ∷ ms) = any (λ e. str_eq e.msg_name name) m.pmsg_list || is_message name ms

-- The messages of a process where no key word is given, and what stands for none.
unfoldable pub listed_entries : Text → List Entry → List Line
listed_entries pname [] = no_msg ∷ []
listed_entries pname (e ∷ es) = map (λ e'. arrow pname e'.msg_name) (e ∷ es)

unfoldable pub listed_members : List Member → List Line
unfolding listed_entries
listed_members [] = []
listed_members (m ∷ ms) = listed_entries m.pname m.pmsg_list ++ (blank ∷ listed_members ms)

-- The branch of `ENUM_IPC_CLI_MSG`; the first key word, which decides the branch, with the others.
unfoldable pub msg_query : Text → List Text → List Member → List Line
unfolding query_members is_message listed_members
msg_query word words ms =
    if nonempty word
    then (if is_message word ms
        then []
        else (blank ∷ []) ++ query_members (word ∷ words) ms ++ (blank ∷ []))
    else (msg_list_heading ∷ []) ++ listed_members ms ++ (blank ∷ [])
