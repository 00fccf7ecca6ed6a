-- ===== src/Plugin/Load/Again.antt =====
-- `ipcd_plugin_monitor_add_file` of src/easyipc_plugin.c on a file that it has read before.
use easyipc.Base.{
  ◌<◌, Bool, true, some, List, [], ◌∷◌, ◌++◌, ◌≡◌, refl, ap, sym, ◌∙◌, arith, length, any, inl, inr,
  Bool-cases, if◌then◌else◌,
}
use easyipc.Base.Int.{pos}
use easyipc.Base.Text.{Text, str_eq, str_eq_refl, snprintf, snprintf-of_lt, codes}
use easyipc.Plugin.{Action, search_file, created}
use easyipc.Plugin.Parse.{
  Cjson, Outcome, done, fault, and_then, prepend, Targets, parse_root, root_loop,
}
use easyipc.Plugin.Load.{
  System, PluginUnit, Plugins, path_max_lens, load, tree, keep_unit, keep, is_loaded, add_file,
}

any-last :
    {A : Type 0} (p : A → Bool) (xs : List A) (x : A) → p x ≡ true → any p (xs ++ x ∷ []) ≡ true
any-last p [] x h = ground (arith, h)
any-last p (y ∷ xs) x h = ground (arith, any-last p xs x h)

module _ (J : Cjson) (sys : System J.Json) (path : Text) where
  -- The file is read, if the outcome is a state.
  abbrev loaded_in : Outcome (Plugins J.Json) → Bool
  loaded_in (fault f) = true
  loaded_in (done s es) = is_loaded J sys path s.plugin_config_jsonlist

  loaded_in-prepend :
      (es : _) (o : Outcome (Plugins J.Json)) → loaded_in (prepend es o) ≡ loaded_in o
  unfolding prepend
  loaded_in-prepend es (fault f) = refl
  loaded_in-prepend es (done s fs) = refl

  keep_unit-loaded_in :
      (root : J.Json) (s : Plugins J.Json) (o : Outcome Targets)
      → length path < path_max_lens
      → loaded_in (and_then (and_then o λ t. done (pos 0, t) []) (keep_unit J sys path root s))
        ≡ true
  unfolding keep_unit and_then prepend
  keep_unit-loaded_in root s (fault f) short = refl
  keep_unit-loaded_in root s (done t es) short =
      let fits : str_eq (snprintf path_max_lens path) path ≡ true =
        ap (λ p. str_eq p path) (snprintf-of_lt path_max_lens path short) ∙ str_eq_refl path in
      any-last (λ (u : PluginUnit J.Json). str_eq u.filename path)
        (created s.plugin_config_jsonlist)
        (record { filename = snprintf path_max_lens path; root = root }) fits

  keep-loaded_in :
      (root items : J.Json) (s : Plugins J.Json)
      → length path < path_max_lens
      → J.get_object_item root (codes "list") ≡ some items
      → loaded_in (keep J sys path root s) ≡ true
  unfolding keep parse_root
  keep-loaded_in root items s short h =
      let o = root_loop J items (J.get_array_size items) 0 s.targets in
      let e : keep J sys path root s
          ≡ and_then (and_then o λ t. done (pos 0, t) []) (keep_unit J sys path root s) =
        rw (keep, parse_root, h) in
      ap loaded_in e ∙ keep_unit-loaded_in root s o short

  unless_loaded : Plugins J.Json → Outcome (Plugins J.Json) → Outcome (Plugins J.Json)
  unless_loaded s o = if is_loaded J sys path s.plugin_config_jsonlist then done s [] else o

  loaded_in-unless_loaded :
      (s : Plugins J.Json) (o : Outcome (Plugins J.Json))
      → loaded_in o ≡ true
      → loaded_in (unless_loaded s o) ≡ true
  unfolding unless_loaded
  loaded_in-unless_loaded s o h =
      elim (Bool-cases (is_loaded J sys path s.plugin_config_jsonlist)) [
        | inl e ↦ ap (λ b. loaded_in (if b then done s [] else o)) e ∙ e
        | inr e ↦ ap (λ b. loaded_in (if b then done s [] else o)) e ∙ h
      ]

  add_file-loaded_in :
      (name : Text) (root items : J.Json) (s : Plugins J.Json)
      → length path < path_max_lens
      → sys.realpath name ≡ some path
      → load J sys path ≡ tree root
      → J.get_object_item root (codes "list") ≡ some items
      → loaded_in (add_file J sys name s) ≡ true
  unfolding add_file unless_loaded
  add_file-loaded_in name root items s short real loads h =
      let e : add_file J sys name s
          ≡ prepend (search_file path ∷ []) (unless_loaded s (keep J sys path root s)) =
        rw (add_file, real, loads) in
      ap loaded_in e
      ∙ loaded_in-prepend (search_file path ∷ []) (unless_loaded s (keep J sys path root s))
      ∙ loaded_in-unless_loaded s (keep J sys path root s) (keep-loaded_in root items s short h)

  -- Let a file have a path shorter than its array, be readable and parse to a tree with a
  -- "list". After `ipcd_plugin_monitor_add_file` has taken it without a fault, adding it again
  -- reads nothing: it only prints the path, and the plugins stay as they are.
  pub add_file-add_file :
      (name : Text) (root items : J.Json) (s s' : Plugins J.Json) (es : List Action)
      → length path < path_max_lens
      → sys.realpath name ≡ some path
      → load J sys path ≡ tree root
      → J.get_object_item root (codes "list") ≡ some items
      → add_file J sys name s ≡ done s' es
      → add_file J sys name s' ≡ done s' (search_file path ∷ [])
  unfolding add_file prepend
  add_file-add_file name root items s s' es short real loads h added =
      let e : is_loaded J sys path s'.plugin_config_jsonlist ≡ true =
        ap loaded_in (sym added) ∙ add_file-loaded_in name root items s short real loads h in
      rw (add_file, real, e)
