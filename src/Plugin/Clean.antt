-- ===== src/Plugin/Clean.antt =====
-- The two functions of src/easyipc_plugin.c that take the plugins away.
pub mod Cleaned
use easyipc.Base.{
  ℕ, zero, suc, ◌+◌, Option, none, some, List, [], ◌∷◌, ◌++◌, map, length, get_elem?, erase_idx,
}
use easyipc.Base.Text.{Text}
use easyipc.Registry.{Member}
use easyipc.Plugin.{BroadcastUnit, MonitorMsg}
use easyipc.Plugin.Parse.{Targets}
use easyipc.Plugin.Load.{PluginUnit, Plugins}

-- A payload that `dlist_delete` or `dlist_destroy` frees.
pub data Freed : Type 0 where
  unit : BroadcastUnit → Freed
  entry : Text → Freed

-- The inner loop of `ipcd_plugin_monitor_msg_clean`, from the last index down: what is left of the
-- list, and what has been freed.
unfoldable pub units_clean : ℕ → List BroadcastUnit → List BroadcastUnit × List Freed
units_clean zero bs = (bs, [])
units_clean (suc n) bs = elim (get_elem? bs n) [
  | none ↦ units_clean n bs
  | some b ↦ let (bs', fs) = units_clean n (erase_idx bs n) in (bs', unit b ∷ fs)
]

-- The payloads that a list's `dlist_destroy` finds.
abbrev pub destroyed : List BroadcastUnit → List Freed
destroyed bs = map unit bs

-- The outer loop, from the last index down.
unfoldable pub entries_clean : ℕ → List MonitorMsg → List MonitorMsg × List Freed
unfolding units_clean
entries_clean zero ms = (ms, [])
entries_clean (suc n) ms = elim (get_elem? ms n) [
  | none ↦ entries_clean n ms
  | some m ↦
      let (bs, fs) = units_clean (length m.broadcast_msglist) m.broadcast_msglist in
      let (ms', gs) = entries_clean n (erase_idx ms n) in
      (ms', fs ++ (destroyed bs ++ entry m.monitor_msg_name ∷ gs))
]

-- `ipcd_plugin_monitor_msg_clean`
unfoldable pub monitor_msg_clean : Option (List MonitorMsg) → Option (List MonitorMsg) × List Freed
unfolding entries_clean
monitor_msg_clean none = (none, [])
monitor_msg_clean (some ms) =
    let (left, fs) = entries_clean (length ms) ms in
    (none, fs ++ map (λ m. entry m.monitor_msg_name) left)

-- The loop of `ipcd_plugin_monitor_clean`, with the rounds left and the index, which rises although
-- the entry at it has been deleted: the trees that go to `cJSON_Delete`.
unfoldable pub roots_clean : {Json : Type 0} → ℕ → ℕ → List (PluginUnit Json) → List Json
roots_clean zero i us = []
roots_clean (suc k) i us = elim (get_elem? us i) [
  | none ↦ roots_clean k (i + 1) us
  | some u ↦ u.root ∷ roots_clean k (i + 1) (erase_idx us i)
]

-- `dlist_destroy` and `dlist_create` on both masks.
unfoldable pub clear_masks : Member → Member
clear_masks m = record m { mask_sender = []; mask_receiver = [] }

-- `ipcd_plugin_monitor_clean`
unfoldable pub monitor_clean : {Json : Type 0} → Plugins Json → Plugins Json × List Json
unfolding roots_clean clear_masks
monitor_clean s = elim s.plugin_config_jsonlist [
  | none ↦ (s, [])
  | some us ↦ (
    record {
      plugin_config_jsonlist = none;
      targets = record s.targets { mlist = map clear_masks s.targets.mlist };
    },
    roots_clean (length us) 0 us,
  )
]
