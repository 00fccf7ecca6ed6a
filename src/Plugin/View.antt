-- ===== src/Plugin/View.antt =====
-- What `ipcd_plugin_view` and `ipcd_plugin_monitor_msg_view` of src/easyipc_plugin.c print.
use easyipc.Base.{Option, none, some, List, [], ◌∷◌, ◌++◌}
use easyipc.Base.Text.{Text}
use easyipc.Registry.{Member}
use easyipc.Plugin.{BroadcastUnit, MonitorMsg, getmsgtype_str}
use easyipc.Plugin.Load.{PluginUnit}

-- The calls of `ipcd_console_print`, each with its arguments.
pub data View : Type 0 where
  plugin_heading monitor_heading mask_heading null gap file_gap : View
  bold red no_colour : View
  file_name monitor_name tree : Text → View
  -- "\t[%s] %s"
  unit_line : Text → Text → View
  sender_line receiver_line : Text → Text → View

-- The loops over the units and over the entries run from the last index down.
unfoldable pub view_units : List BroadcastUnit → List View
unfolding getmsgtype_str
view_units [] = []
view_units (b ∷ bs) = view_units bs ++ unit_line (getmsgtype_str b.type) b.text ∷ []

unfoldable pub view_entries : List MonitorMsg → List View
unfolding view_units
view_entries [] = []
view_entries (m ∷ ms) =
    view_entries ms
    ++ (bold ∷ monitor_name m.monitor_msg_name ∷ no_colour ∷ view_units m.broadcast_msglist)
    ++ gap ∷ []

unfoldable pub view_masks : (Text → Text → View) → Text → List Text → List View
view_masks line pname [] = []
view_masks line pname (n ∷ ns) = red ∷ line pname n ∷ no_colour ∷ view_masks line pname ns

unfoldable pub view_members : List Member → List View
unfolding view_masks
view_members [] = []
view_members (m ∷ ms) =
    view_masks sender_line m.pname m.mask_sender
    ++ view_masks receiver_line m.pname m.mask_receiver
    ++ gap ∷ view_members ms

-- `ipcd_plugin_monitor_msg_view`
unfoldable pub monitor_msg_view : Option (List MonitorMsg) → List Member → List View
unfolding view_entries view_members
monitor_msg_view none ms = monitor_heading ∷ null ∷ []
monitor_msg_view (some l) ms = (monitor_heading ∷ view_entries l) ++ mask_heading ∷ view_members ms

module _ {Json : Type 0} (print : Json → Text) where
  view_files : List (PluginUnit Json) → List View
  view_files [] = []
  view_files (u ∷ us) =
      bold ∷ file_name u.filename ∷ no_colour ∷ tree (print u.root) ∷ file_gap ∷ view_files us

  -- `ipcd_plugin_view`, with `cJSON_Print` as a parameter
  unfoldable pub plugin_view : Option (List (PluginUnit Json)) → List View
  unfolding view_files
  plugin_view none = plugin_heading ∷ null ∷ []
  plugin_view (some us) = plugin_heading ∷ view_files us
