-- ===== src/Control.antt =====
-- The control requests of the daemon, `ipcctl_analysis_core` of src/easyipc_daemon.c, with the
-- packets of include/easyipc_console.h.
use easyipc.Base.{ℕ, suc, Option, none, some, List, [], ◌∷◌, ◌++◌, map, ◌==◌, if◌then◌else◌}
use easyipc.Base.Text.{Text, nonempty}
use easyipc.Log.{Log, Flags}
use easyipc.Misc.{PrintPacket, cat_memory, cat_file}
use easyipc.Misc.Listing.{Line, ls_all, ls_pname, msg_query}
use easyipc.Plugin.{Action}
use easyipc.Plugin.Parse.{Cjson, Outcome, fault, done, Fault}
use easyipc.Plugin.Load.{System, Plugins, add_file, add_dir, plugin_refresh}
use easyipc.Plugin.Clean.{monitor_msg_clean, monitor_clean}
use easyipc.Plugin.View.{View, plugin_view, monitor_msg_view}

-- `IPC_PLUGIN_TYPE`
pub data PluginType : Type 0 where
  file dir view refresh clean unknown : PluginType

-- `ipc_cli_packet`: `ict` with its data. The key words of a query are the first and the five after.
pub data CliRequest : Type 0 where
  help script api unknown : CliRequest
  cat print rpc : PrintPacket → CliRequest
  ls : Text → CliRequest
  plugin : PluginType → Text → CliRequest
  msg : Text → List Text → CliRequest

-- What is printed on the daemon's terminal or sent to the consoles.
pub data Output : Type 0 where
  help_text rpc_enable rpc_disable broadcast_on broadcast_off : Output
  text : Text → Output
  line : Line → Output
  action : Action → Output
  viewed : View → Output

-- The variables that the requests read and set.
pub record Control (Json : Type 0) : Type 0 where
  pub flags : Flags
  pub printf_broadcast_flag : ℕ
  pub printf_rpc_flag : ℕ
  pub log : Log
  pub plugins : Plugins Json

-- The daemon goes on, or there is no defined behaviour; `endless` for a walk that is out of fuel.
pub data Reply (Json : Type 0) : Type 0 where
  replied : Control Json → List Output → Reply Json
  undefined : Fault → Reply Json
  endless : Reply Json

-- What the machine gives: the size of the log in memory, the lines of the log file, what the stack
-- has, and `cJSON_Print`.
pub record Host (J : Cjson) : Type 0 where
  pub sys : System J.Json
  pub cjson_print : J.Json → Text
  pub debug_log_size : ℕ
  pub log_file : Option (List Text)
  pub last_color : ℕ
  pub readline : List ℕ

module _ (J : Cjson) (host : Host J) where
  changed_plugins : Control J.Json → Outcome (Plugins J.Json) → Reply J.Json
  changed_plugins c (fault f) = undefined f
  changed_plugins c (done p es) = replied (record c { plugins = p }) (map action es)

  -- The branch of `ENUM_IPC_CLI_CAT`. The log in memory has `log_size` records.
  unfoldable pub on_cat : PrintPacket → Control J.Json → Reply J.Json
  unfolding cat_file cat_memory
  on_cat p c =
      if host.debug_log_size == 0
      then replied c (text (cat_file p host.last_color host.readline host.log_file) ∷ [])
      else elim (cat_memory (suc c.log.log_size) p host.last_color host.readline c.log) [
        | none ↦ endless
        | some (out, l) ↦ replied (record c { log = l }) (text out ∷ [])
      ]

  -- Both functions that the branch of `ENUM_IPC_PLUGIN_CLEAN` calls.
  unfoldable pub clean_plugins : Plugins J.Json → Plugins J.Json
  unfolding monitor_msg_clean monitor_clean
  clean_plugins p =
      let (l, freed) = monitor_msg_clean p.targets.monitor_msglist in
      (monitor_clean (record p { targets = record p.targets { monitor_msglist = l } })).0

  -- The branch of `ENUM_IPC_CLI_PLUGIN`.
  unfoldable pub on_plugin : PluginType → Text → Control J.Json → Reply J.Json
  unfolding changed_plugins clean_plugins add_file add_dir plugin_refresh plugin_view
      monitor_msg_view
  on_plugin file path c = changed_plugins c (add_file J host.sys path c.plugins)
  on_plugin dir path c = changed_plugins c (add_dir J host.sys path c.plugins)
  on_plugin clean path c = replied (record c { plugins = clean_plugins c.plugins }) []
  on_plugin view path c =
      let t = c.plugins.targets in
      replied c (
        map viewed (
          plugin_view host.cjson_print c.plugins.plugin_config_jsonlist
          ++ monitor_msg_view t.monitor_msglist t.mlist))
  on_plugin refresh path c = changed_plugins c (plugin_refresh J host.sys c.plugins)
  on_plugin unknown path c = replied c []

  -- `ipcctl_analysis_core`
  unfoldable pub ctl_analysis_core : CliRequest → Control J.Json → Reply J.Json
  unfolding on_cat on_plugin ls_all ls_pname msg_query
  ctl_analysis_core help c = replied c (help_text ∷ [])
  ctl_analysis_core (cat p) c = on_cat p c
  ctl_analysis_core (ls pname) c =
      let ms = c.plugins.targets.mlist in
      replied c (map line (if nonempty pname then ls_pname pname ms else ls_all ms))
  ctl_analysis_core (print p) c =
      replied
        (record c {
          flags = p.flags;
          printf_broadcast_flag = if p.printf_broadcast_flag == 1 then 1 else 0;
        })
        ((if p.printf_broadcast_flag == 1 then broadcast_on else broadcast_off) ∷ [])
  ctl_analysis_core (rpc p) c =
      if c.printf_rpc_flag == 0
      then replied (record c { flags = p.flags; printf_rpc_flag = 1 }) (rpc_enable ∷ [])
      else replied (record c { flags = p.flags; printf_rpc_flag = 0 }) (rpc_disable ∷ [])
  ctl_analysis_core (plugin type path) c = on_plugin type path c
  ctl_analysis_core script c = replied c []
  ctl_analysis_core api c = replied c []
  ctl_analysis_core (msg word words) c =
      replied c (map line (msg_query word words c.plugins.targets.mlist))
  ctl_analysis_core unknown c = replied c []
