-- ===== src/Client/Handlers.antt =====
-- The functions that a client registers, src/easyipc_support.c.
use easyipc.Base.{
  ℕ, zero, suc, ◌+◌, Bool, true, false, ◌&&◌, Option, none, some, List, [], ◌∷◌, ◌++◌, ◌==◌, length,
  get_elem?, erase_idx, if◌then◌else◌, any,
}
use easyipc.Base.Text.{Text, str_eq, snprintf, nonempty}
use easyipc.Wire.{Packet, api_register, msg_register, api_unregister, msg_unregister}
use easyipc.Registry.{msg_max_size}
use easyipc.Client.{Client, MsgHandler, ApiHandler, Struct, data_to_daemon, register_info_of}

-- The comparison of two function pointers, the first of which may be NULL.
abbrev same_fun : Option ℕ → ℕ → Bool
same_fun none f = false
same_fun (some g) f = g == f

abbrev has_name : Text → List ApiHandler → Bool
has_name name = any (λ h. str_eq h.msg_name name)

-- The loop of `ipc_unregister_msg`, over the rounds left of the length that was read before it: the
-- index moves on past an entry that has been deleted. It says whether an entry was found.
unfoldable pub unregister_loop : Text → ℕ → ℕ → List MsgHandler → Bool × List MsgHandler
unregister_loop name zero i hs = (false, hs)
unregister_loop name (suc k) i hs =
    let kept = unregister_loop name k (i + 1) hs in
    let dropped = unregister_loop name k (i + 1) (erase_idx hs i) in
    elim (get_elem? hs i) [
      | none ↦ (false, hs)
      | some h ↦ if str_eq h.msg_name name then (true, dropped.1) else kept
    ]

module _ (sizeof : Struct → ℕ) (packet_max : ℕ) where
  -- `ipc_register_msg_ext`, of a function that is not NULL
  unfoldable pub register_msg_ext : Text → ℕ → ℕ → Client → Client × List Packet
  unfolding data_to_daemon
  register_msg_ext name f usr c =
      if nonempty name
      then (if any (λ h. str_eq h.msg_name name && same_fun h.fun_ext f) c.msg_list
          then (c, [])
          else (
            record c {
              msg_list =
                  c.msg_list
                  ++ record {
                    msg_name = snprintf msg_max_size name;
                    fun = none;
                    fun_ext = some f;
                    usrdata = usr;
                  }
                    ∷ [];
            },
            data_to_daemon sizeof packet_max c (msg_register (register_info_of c name)),
          ))
      else (c, [])

  -- `ipc_register_msg`
  unfoldable pub register_msg : Text → ℕ → Client → Client × List Packet
  unfolding data_to_daemon
  register_msg name f c =
      if nonempty name
      then (if any (λ h. str_eq h.msg_name name && same_fun h.fun f) c.msg_list then (c, []) else (
        record c {
          msg_list =
              c.msg_list
              ++ record {
                msg_name = snprintf msg_max_size name;
                fun = some f;
                fun_ext = none;
                usrdata = 0;
              }
                ∷ [];
        },
        data_to_daemon sizeof packet_max c (msg_register (register_info_of c name)),
      ))
      else (c, [])

  -- `ipc_unregister_msg`
  unfoldable pub unregister_msg : Text → Client → Client × List Packet
  unfolding data_to_daemon unregister_loop
  unregister_msg name c =
      if nonempty name
      then (let (found, hs) = unregister_loop name (length c.msg_list) 0 c.msg_list in
          (
            record c { msg_list = hs },
            if found
                then data_to_daemon sizeof packet_max c (msg_unregister (register_info_of c name))
                else [],
          ))
      else (c, [])

  -- `ipc_register_api`
  unfoldable pub register_api : Text → ℕ → Client → Client × List Packet
  unfolding data_to_daemon
  register_api name f c =
      if nonempty name
      then (
        record c {
          api_list = c.api_list ++ record { msg_name = snprintf msg_max_size name; fun = f } ∷ [];
        },
        data_to_daemon sizeof packet_max c (api_register (register_info_of c name)),
      )
      else (c, [])

  -- `ipc_unregister_api`: the entry stays in the client's own list.
  unfoldable pub unregister_api : Text → Client → List Packet
  unfolding data_to_daemon
  unregister_api name c =
      if nonempty name && has_name name c.api_list
      then data_to_daemon sizeof packet_max c (api_unregister (register_info_of c name))
      else []
