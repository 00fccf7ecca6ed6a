-- ===== src/Tests/Plugins.antt =====
-- The plugins of src/easyipc_plugin.c on concrete data.
use easyipc.Base.{
  ℕ, zero, suc, Bool, true, false, Option, none, some, List, [], ◌∷◌, ◌≡◌, refl, map, arith, subst,
  backwards, if◌then◌else◌,
}
use mathlib.Core.Option.{none-ne-some, some-injective}
use easyipc.Base.Text.{Text, str_eq, codes, snprintf}
use easyipc.Tests.Tables.{table}
use easyipc.Plugin.{
  BroadcastUnit, MonitorMsg, Action, search_file, add_file_succeed, msg, shell, getmsgtype_str,
  trigger,
}
use easyipc.Plugin.Registered.{Registration, insert_all, registered}
use easyipc.Plugin.Triggered.{exec_each, sendflag, trigger-insert_all}
use easyipc.Plugin.Parse.{
  Cjson, done, and_then, prepend, parse_root, root_loop, send, recv, parse_m2m, parse_mask,
}
use easyipc.Plugin.Parsed.{Items, UnitAt, TextAt, m2m_history, parse_m2m-trigger}
use easyipc.Plugin.Masked.{RuleAt, Rules, absent, present, masked, parse_mask-masked}
use easyipc.Base.Scan.{to_int}
use easyipc.Plugin.Load.{
  System, PluginUnit, Plugins, load, get_file_size, keep, keep_unit, add_file,
}
use easyipc.Plugin.Load.Again.{add_file-add_file}
use easyipc.Plugin.Clean.{monitor_msg_clean, monitor_clean, clear_masks}
use easyipc.Plugin.Clean.Cleaned.{payloads, monitor_msg_clean-payloads, monitor_clean-every_other}

abbrev run_script : BroadcastUnit
run_script = record { text = codes "up.sh"; type = shell }

abbrev say_ready : BroadcastUnit
say_ready = record { text = codes "ready"; type = msg }

-- Two registrations for one message, the first of them twice.
abbrev registrations : List Registration
registrations =
    record { monitor = codes "boot"; unit = run_script }
    ∷ record { monitor = codes "boot"; unit = say_ready }
    ∷ record { monitor = codes "boot"; unit = run_script }
    ∷ []

abbrev never_fails : Text → Bool
never_fails cmd = false

trigger-insert_all_example :
    trigger never_fails [] (codes "boot") (insert_all registrations) table ≡ (
      sendflag never_fails [] (codes "boot") table (registered (codes "boot") registrations),
      exec_each never_fails [] (codes "boot") table (registered (codes "boot") registrations),
    )
trigger-insert_all_example =
    trigger-insert_all never_fails [] (codes "boot") table registrations
      ((omega arith, omega arith), ((omega arith, omega arith), ((omega arith, omega arith), tt)))

-- A tree by first child and next sibling.
pub data Tree : Type 0 where
  nil : Tree
  node : Text → Text → Tree → Tree → Tree

abbrev siblings : Tree → ℕ
siblings nil = 0
siblings (node key value child next) = suc (siblings next)

abbrev sibling_at : Tree → ℕ → Option Tree
sibling_at nil i = none
sibling_at (node key value child next) zero = some (node key value child next)
sibling_at (node key value child next) (suc i) = sibling_at next i

abbrev sibling_of : Tree → Text → Option Tree
sibling_of nil k = none
sibling_of (node key value child next) k =
    if str_eq key k then some (node key value child next) else sibling_of next k

abbrev child_of : Tree → Tree
child_of nil = nil
child_of (node key value child next) = child

abbrev key_of : Tree → Option Text
key_of nil = none
key_of (node key value child next) = some key

abbrev value_of : Tree → Option Text
value_of nil = none
value_of (node key value child next) = some value

abbrev first_of : Tree → Option Tree
first_of nil = none
first_of (node key value child next) = some (node key value child next)

abbrev pub trees : Cjson
trees = record {
  Json = Tree;
  get_object_item = λ t k. sibling_of (child_of t) k;
  get_array_size = λ t. siblings (child_of t);
  get_array_item = λ t i. sibling_at (child_of t) i;
  valuestring = value_of;
  child = λ t. first_of (child_of t);
  string = key_of;
}

abbrev boot_name : Tree
boot_name = node [] (codes "boot") nil nil

abbrev shell_member : Tree
shell_member = node (codes "shell") (codes "up.sh") nil nil

abbrev shell_item : Tree
shell_item = node [] [] shell_member nil

abbrev broadcasts : Tree
broadcasts = node (codes "broadcast") [] shell_item nil

abbrev monitors : Tree
monitors = node (codes "monitor") [] boot_name broadcasts

abbrev m2m_rule : Tree
m2m_rule = node [] [] monitors nil

-- The items of an array that has one.
one_item : {A : Type 0} (At : ℕ → A → Type 0) (x : A) → At 0 x → Items trees At 0 (x ∷ [])
one_item At x at zero y h = subst (At 0) (some-injective x y h) at
one_item At x at (suc i) y h = absurd (none-ne-some y h)

boot_texts : Items trees (TextAt trees monitors) 0 (codes "boot" ∷ [])
boot_texts =
    one_item (TextAt trees monitors) (codes "boot")
      (record { item = boot_name; at = refl; value = refl })

shell_units : Items trees (UnitAt trees broadcasts) 0 (run_script ∷ [])
unfolding getmsgtype_str
shell_units = one_item (UnitAt trees broadcasts) run_script (record {
  item = shell_item;
  member = shell_member;
  at = refl;
  child = refl;
  key = refl;
  value = refl;
})

parse_m2m-trigger_example :
    (l : Option (List MonitorMsg)) × (es : List Action) × (parse_m2m trees m2m_rule
        (record { monitor_msglist = none; mlist = table })
      ≡ done (record { monitor_msglist = l; mlist = table }) es)
    × (trigger never_fails [] (codes "boot") l table ≡ (
      sendflag never_fails []
          (codes "boot")
          table
          (registered (codes "boot") (m2m_history (codes "boot" ∷ []) (run_script ∷ []) [])),
      exec_each never_fails []
          (codes "boot")
          table
          (registered (codes "boot") (m2m_history (codes "boot" ∷ []) (run_script ∷ []) [])),
    ))
unfolding insert_all str_eq
parse_m2m-trigger_example =
    parse_m2m-trigger trees never_fails [] (codes "boot") table m2m_rule monitors broadcasts
      (codes "boot" ∷ []) (run_script ∷ []) [] refl refl refl refl boot_texts shell_units
      ((omega arith, omega arith), tt)

abbrev any_pname : Tree
any_pname = node (codes "pname") (codes "*") nil (node (codes "mname") (codes "frame") nil nil)

abbrev send_items : Tree
send_items = node (codes "send") [] (node [] [] any_pname nil) nil

abbrev mask_rule : Tree
mask_rule = node [] [] send_items nil

send-Rules : Rules trees (some send_items) ((codes "*", codes "frame") ∷ [])
unfolding str_eq
send-Rules = present send_items refl refl (
    one_item (RuleAt trees send_items) (codes "*", codes "frame")
      (record {
        item = node [] [] any_pname nil;
        pname_obj = any_pname;
        mname_obj = node (codes "mname") (codes "frame") nil nil;
        at = refl;
        pname = refl;
        mname = refl;
        process = refl;
        message = refl;
      }))

parse_mask-masked_example :
    (es : List Action) × (parse_mask trees mask_rule
        (record { monitor_msglist = none; mlist = table })
      ≡ done
          (record {
            monitor_msglist = none;
            mlist =
                map (masked recv []) (map (masked send ((codes "*", codes "frame") ∷ [])) table);
          })
          es)
unfolding str_eq
parse_mask-masked_example =
    parse_mask-masked trees mask_rule ((codes "*", codes "frame") ∷ []) [] none table send-Rules
      (absent refl refl)

abbrev empty_list : Tree
empty_list = node [] [] (node (codes "list") [] nil nil) nil

abbrev pub one_file : System Tree
one_file = record {
  realpath = λ name. some (codes "/etc/a.ec");
  opens = λ path. true;
  stat = λ path. some 2;
  read = λ path. some (codes "{}");
  parse = λ text. some empty_list;
  scandir = λ path filter. [];
}

abbrev pub no_plugins : Plugins Tree
no_plugins = record {
  plugin_config_jsonlist = none;
  targets = record { monitor_msglist = none; mlist = table };
}

abbrev one_plugin : Plugins Tree
one_plugin = record {
  plugin_config_jsonlist =
      some (record { filename = snprintf 256 (codes "/etc/a.ec"); root = empty_list } ∷ []);
  targets = record { monitor_msglist = none; mlist = table };
}

add_file-add_file_example :
    add_file trees one_file (codes "a.ec") one_plugin
    ≡ done one_plugin (search_file (codes "/etc/a.ec") ∷ [])
unfolding load get_file_size to_int add_file keep keep_unit parse_root root_loop prepend and_then
    str_eq snprintf
add_file-add_file_example =
    add_file-add_file trees one_file (codes "/etc/a.ec") (codes "a.ec") empty_list
      (node (codes "list") [] nil nil) no_plugins one_plugin
      (search_file (codes "/etc/a.ec") ∷ add_file_succeed (codes "/etc/a.ec") ∷ []) (omega arith)
      refl refl refl refl

abbrev boot_entry : MonitorMsg
boot_entry = record {
  monitor_msg_name = codes "boot";
  broadcast_msglist = run_script ∷ say_ready ∷ [];
}

monitor_msg_clean-payloads_example :
    monitor_msg_clean (some (boot_entry ∷ [])) ≡ (none, payloads (backwards (boot_entry ∷ [])))
monitor_msg_clean-payloads_example = monitor_msg_clean-payloads (boot_entry ∷ [])

abbrev two_units : List (PluginUnit Tree)
two_units =
    record { filename = codes "/a.ec"; root = empty_list }
    ∷ record { filename = codes "/b.ec"; root = mask_rule }
    ∷ []

abbrev two_plugins : Plugins Tree
two_plugins = record {
  plugin_config_jsonlist = some two_units;
  targets = record { monitor_msglist = none; mlist = table };
}

monitor_clean-every_other_example : monitor_clean two_plugins ≡ (
  record {
    plugin_config_jsonlist = none;
    targets = record { monitor_msglist = none; mlist = map clear_masks table };
  },
  empty_list ∷ [],
)
monitor_clean-every_other_example = monitor_clean-every_other two_plugins two_units refl
