-- ===== src/Registry/Names.antt =====
-- What the registrations of src/easyipc_daemon.c do to a process' names, and that withdrawing a name
-- undoes its registration.
use easyipc.Base.{
  ℕ, ◌<◌, true, false, Option, none, some, List, [], ◌∷◌, ◌++◌, ◌≡◌, arith, ◌==◌, if◌then◌else◌,
  length,
}
use easyipc.Base.Text.{Text, str_eq_refl, str_eq_sym, snprintf-of_lt}
use easyipc.Wire.{RegisterInfo}
use easyipc.Registry.{
  Entry, Member, new_entry, has_name, drop_name, get_mlist_via_pid, register_api, register_msg,
  unregister_api, unregister_msg, msg_max_size,
}

-- The member with one more name, unless it has that name.
abbrev pub with_api : Text → Member → Member
with_api name m =
    if has_name name m.api_list
    then m
    else record m { api_list = m.api_list ++ new_entry name ∷ [] }

abbrev pub with_msg : Text → Member → Member
with_msg name m =
    if has_name name m.pmsg_list
    then m
    else record m { pmsg_list = m.pmsg_list ++ new_entry name ∷ [] }

abbrev pub map_option : (Member → Member) → Option Member → Option Member
map_option f none = none
map_option f (some m) = some (f m)

-- After `ipcd_register_api` the process with the request's pid has the API name, added behind
-- its others unless it had it already, and every other process is found as before.
pub get-register_api :
    (q : ℕ) (r : RegisterInfo) (ms : List Member)
    → get_mlist_via_pid q (register_api r ms).0 ≡ (
        if q == r.pid
        then map_option (with_api r.name) (get_mlist_via_pid q ms)
        else get_mlist_via_pid q ms)
unfolding register_api get_mlist_via_pid
get-register_api q r [] = ground arith
get-register_api q r (m ∷ ms) = ground (arith, get-register_api q r ms)

-- After `ipcd_register_msg` the process with the request's pid has the message name, added
-- behind its others unless it had it already, and every other process is found as before.
pub get-register_msg :
    (q : ℕ) (r : RegisterInfo) (ms : List Member)
    → get_mlist_via_pid q (register_msg r ms).0 ≡ (
        if q == r.pid
        then map_option (with_msg r.name) (get_mlist_via_pid q ms)
        else get_mlist_via_pid q ms)
unfolding register_msg get_mlist_via_pid
get-register_msg q r [] = ground arith
get-register_msg q r (m ∷ ms) = ground (arith, get-register_msg q r ms)

has_name-append :
    (name : Text) (es : List Entry)
    → length name < msg_max_size
    → has_name name (es ++ new_entry name ∷ []) ≡ true
unfolding has_name
has_name-append name [] h = rw (snprintf-of_lt msg_max_size name h, str_eq_refl name)
has_name-append name (e ∷ es) h = ground (arith, has_name-append name es h)

drop_name-append :
    (name : Text) (es : List Entry)
    → length name < msg_max_size
    → has_name name es ≡ false
    → drop_name name (es ++ new_entry name ∷ []) ≡ es
unfolding has_name drop_name
drop_name-append name [] h out = rw (snprintf-of_lt msg_max_size name h, str_eq_refl name)
drop_name-append name (e ∷ es) h out =
    ground (arith, drop_name-append name es h, str_eq_sym name e.msg_name)

-- For a process in the table that does not have the API name, which is shorter than its array,
-- `ipcd_unregister_api` after `ipcd_register_api` restores the table.
pub unregister-register_api :
    (r : RegisterInfo) (ms : List Member) (m : Member)
    → get_mlist_via_pid r.pid ms ≡ some m
    → has_name r.name m.api_list ≡ false
    → length r.name < msg_max_size
    → (unregister_api r (register_api r ms).0).0 ≡ ms
unfolding register_api unregister_api get_mlist_via_pid
unregister-register_api r [] m e out h = ground arith
unregister-register_api r (n ∷ ms) m e out h = ground (
  arith,
  unregister-register_api r ms m,
  has_name-append r.name n.api_list h,
  drop_name-append r.name n.api_list h,
)

-- For a process in the table that does not have the message name, which is shorter than its
-- array, `ipcd_unregister_msg` after `ipcd_register_msg` restores the table.
pub unregister-register_msg :
    (r : RegisterInfo) (ms : List Member) (m : Member)
    → get_mlist_via_pid r.pid ms ≡ some m
    → has_name r.name m.pmsg_list ≡ false
    → length r.name < msg_max_size
    → (unregister_msg r (register_msg r ms).0).0 ≡ ms
unfolding register_msg unregister_msg get_mlist_via_pid
unregister-register_msg r [] m e out h = ground arith
unregister-register_msg r (n ∷ ms) m e out h = ground (
  arith,
  unregister-register_msg r ms m,
  has_name-append r.name n.pmsg_list h,
  drop_name-append r.name n.pmsg_list h,
)
