-- ===== src/Plugin/Load.antt =====
-- The plugin files of src/easyipc_plugin.c: which are read, and what is kept of them. The file
-- system and the parser are parameters.
pub mod Again
use easyipc.Base.{
  ℕ, zero, suc, ◌+◌, ◌-◌, ◌^◌, ◌%◌, Bool, true, false, ◌&&◌, Option, none, some, List, [], ◌∷◌,
  ◌++◌, ltb, leb, ◌==◌, any, length, get_elem?, if◌then◌else◌,
}
use easyipc.Base.Int.{ℤ, pos, negsuc, ltb_ℤ}
use easyipc.Base.Scan.{to_int}
use easyipc.Base.Text.{Text, str_eq, snprintf}
use easyipc.Wire.{progress, warn}
use easyipc.Plugin.{
  PluginNote, Action, logged, printed, search_file, add_file_succeed, path_error, not_found,
  size_error, parse_fail, created,
}
use easyipc.Plugin.Parse.{Cjson, Outcome, done, fault, and_then, prepend, Targets, parse_root}

-- `IPC_LOG_SAVE_PATH_MAX_LENS`
abbrev pub path_max_lens : ℕ
path_max_lens = 256

-- The calls of the system, and `cJSON_Parse` on what was read. `stat` has the size, `read` what it
-- gives of a file, with `none` for less than 0.
pub record System (Json : Type 0) : Type 0 where
  pub realpath : Text → Option Text
  pub opens : Text → Bool
  pub stat : Text → Option ℕ
  pub read : Text → Option Text
  pub parse : Text → Option Json
  pub scandir : Text → (Text → Bool) → List Text

-- `plugin_unit`
pub record PluginUnit (Json : Type 0) : Type 0 where
  pub filename : Text
  pub root : Json

-- The state that the plugins keep, with the process table.
pub record Plugins (Json : Type 0) : Type 0 where
  pub plugin_config_jsonlist : Option (List (PluginUnit Json))
  pub targets : Targets

-- `ipcd_plugin_get_file_size`
unfoldable pub get_file_size : Option ℕ → ℕ
get_file_size none = 2 ^ 64 - 1
get_file_size (some n) = n

-- `ec_filter`: a name of more than three bytes that ends in ".ec".
unfoldable pub ec_filter : Text → Bool
ec_filter name =
    let lens = length name in
    let at : ℕ → ℕ → Bool =
      λ i c. elim (get_elem? name (lens - i)) [ none ↦ false | some d ↦ d == c ] in
    ltb 3 lens && (at 3 46 && (at 2 101 && at 1 99))

-- A warning of `ipcd_plugin_monitor_add_file`, in the log and on the console.
abbrev pub complain : PluginNote → List Action
complain note = logged progress warn note ∷ printed note ∷ []

module _ (J : Cjson) (sys : System J.Json) where
  -- The warnings of the reading, which say what was wrong with the file, or the tree.
  pub data Loaded : Type 0 where
    refused : List Action → Loaded
    tree : J.Json → Loaded

  -- The part of `ipcd_plugin_monitor_add_file` from `open` to `cJSON_Parse`.
  unfoldable pub load : Text → Loaded
  unfolding to_int get_file_size
  load path =
      if sys.opens path
      then (if ltb_ℤ (pos 0) (to_int (get_file_size (sys.stat path)))
          then elim (sys.read path) [
            | none ↦ refused []
            | some [] ↦ refused []
            | some (c ∷ buffer) ↦ elim (sys.parse (c ∷ buffer)) [
              | none ↦ refused (complain (parse_fail path))
              | some root ↦ tree root
            ]
          ]
          else refused (complain (size_error path)))
      else refused (complain (not_found path))

  -- The entry for a file, unless its tree had no "list".
  unfoldable pub keep_unit : Text → J.Json → Plugins J.Json → ℤ × Targets → Outcome (Plugins J.Json)
  keep_unit path root s (r, t) =
      let l = created s.plugin_config_jsonlist in
      let unit : PluginUnit J.Json = record {
        filename = snprintf path_max_lens path;
        root = root;
      } in
      done
        (record {
          plugin_config_jsonlist = some (if ltb_ℤ r (pos 0) then l else l ++ unit ∷ []);
          targets = t;
        })
        (add_file_succeed path ∷ [])

  -- The end of `ipcd_plugin_monitor_add_file`.
  unfoldable pub keep : Text → J.Json → Plugins J.Json → Outcome (Plugins J.Json)
  unfolding parse_root and_then prepend keep_unit
  keep path root s = and_then (parse_root J root s.targets) (keep_unit path root s)

  -- The search for a file that is read already.
  abbrev pub is_loaded : Text → Option (List (PluginUnit J.Json)) → Bool
  is_loaded path l = any (λ u. str_eq u.filename path) (created l)

  -- `ipcd_plugin_monitor_add_file`
  unfoldable pub add_file : Text → Plugins J.Json → Outcome (Plugins J.Json)
  unfolding load keep
  add_file filename s = elim (sys.realpath filename) [
    | none ↦ done s (complain (path_error filename))
    | some path ↦ prepend (search_file path ∷ []) (
        if is_loaded path s.plugin_config_jsonlist
        then done s []
        else elim (load path) [ refused es ↦ done s es | tree root ↦ keep path root s ])
  ]

  -- The loop of `ipcd_plugin_refresh`: the first file that cannot be read or parsed ends it.
  unfoldable pub refresh_units :
      List (PluginUnit J.Json) → Targets → Outcome (List (PluginUnit J.Json) × Targets)
  unfolding to_int get_file_size parse_root and_then prepend
  refresh_units [] t = done ([], t) []
  refresh_units (u ∷ us) t =
      if sys.opens u.filename
      then (if ltb_ℤ (pos 0) (to_int (get_file_size (sys.stat u.filename)))
          then elim (sys.read u.filename) [
            | none ↦ done (u ∷ us, t) []
            | some buffer ↦ elim (sys.parse buffer) [
              | none ↦ done (u ∷ us, t) (logged progress warn (parse_fail u.filename) ∷ [])
              | some root ↦ and_then (parse_root J root t) λ (r, t').
                  and_then (refresh_units us t') λ (us', t'').
                    let u' : PluginUnit J.Json =
                      if ltb_ℤ r (pos 0) then u else record u { root = root } in
                    done (u' ∷ us', t'') []
            ]
          ]
          else done (u ∷ us, t) (logged progress warn (size_error u.filename) ∷ []))
      else done (u ∷ us, t) (logged progress warn (not_found u.filename) ∷ [])

  -- `ipcd_plugin_refresh`
  unfoldable pub plugin_refresh : Plugins J.Json → Outcome (Plugins J.Json)
  unfolding refresh_units and_then prepend
  plugin_refresh s = elim s.plugin_config_jsonlist [
    | none ↦ done s []
    | some us ↦
        and_then (refresh_units us s.targets)
          λ (us', t). done (record { plugin_config_jsonlist = some us'; targets = t }) []
  ]

  add_files : List Text → Plugins J.Json → Outcome (Plugins J.Json)
  unfolding add_file and_then prepend
  add_files [] s = done s []
  add_files (name ∷ names) s = and_then (add_file name s) λ s'. add_files names s'

  -- `ipcd_plugin_monitor_add_dir`: the names go to `ipcd_plugin_monitor_add_file` as they stand
  -- in the directory.
  unfoldable pub add_dir : Text → Plugins J.Json → Outcome (Plugins J.Json)
  unfolding add_files ec_filter
  add_dir dirname s = elim (sys.realpath dirname) [
    | none ↦ done s (logged progress warn (path_error dirname) ∷ [])
    | some path ↦ add_files (sys.scandir path ec_filter) s
  ]
