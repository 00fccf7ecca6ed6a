-- ===== src/Plugin/Clean/Cleaned.antt =====
-- What is left, and what has been freed, after the two cleaning functions of src/easyipc_plugin.c.
use easyipc.Base.{
  ℕ, zero, suc, ◌+◌, ◌≤◌, none, some, List, [], ◌∷◌, ◌++◌, ◌≡◌, refl, sym, arith, map, take, drop,
  length, erase_idx, backwards, every_other, erase_idx-length, erased_at, drop-length,
  get_elem?-length, get_elem?-past, length-append, take-of_le, append_assoc, append-nil,
}
use easyipc.Plugin.{BroadcastUnit, MonitorMsg}
use easyipc.Plugin.Load.{PluginUnit, Plugins}
use easyipc.Plugin.Clean.{
  Freed, unit, entry, units_clean, entries_clean, monitor_msg_clean, roots_clean, clear_masks,
  monitor_clean,
}

length-erase_idx :
    {A : Type 0} (xs : List A) (n : ℕ) → suc n ≤ length xs → length (erase_idx xs n) + 1 ≡ length xs
length-erase_idx [] n h = absurd (omega arith)
length-erase_idx (x ∷ xs) zero h = omega arith
length-erase_idx (x ∷ xs) (suc n) h = omega (arith, length-erase_idx xs n (omega arith))

units_clean-drop :
    (n : ℕ) (bs : List BroadcastUnit)
    → n ≤ length bs
    → units_clean n bs ≡ (drop n bs, map unit (backwards (take n bs)))
unfolding units_clean
units_clean-drop zero bs h = refl
units_clean-drop (suc n) bs h =
    let r = erased_at bs n h in
    let ih = units_clean-drop n (erase_idx bs n) (omega (arith, length-erase_idx bs n h)) in
    rw (units_clean, r.found, ih, r.before, r.behind, r.last)

-- All units are freed, the last first.
units_clean-backwards :
    (bs : List BroadcastUnit) → units_clean (length bs) bs ≡ ([], map unit (backwards bs))
units_clean-backwards bs =
    let e = units_clean-drop (length bs) bs (omega arith) in
    rw (e, drop-length bs, take-of_le (length bs) bs (omega arith))

-- The payloads of a list of entries, in the order of their release.
abbrev pub payloads : List MonitorMsg → List Freed
payloads [] = []
payloads (m ∷ ms) =
    map unit (backwards m.broadcast_msglist) ++ entry m.monitor_msg_name ∷ payloads ms

entries_clean-drop :
    (n : ℕ) (ms : List MonitorMsg)
    → n ≤ length ms
    → entries_clean n ms ≡ (drop n ms, payloads (backwards (take n ms)))
unfolding entries_clean
entries_clean-drop zero ms h = refl
entries_clean-drop (suc n) ms h =
    let r = erased_at ms n h in
    let ih = entries_clean-drop n (erase_idx ms n) (omega (arith, length-erase_idx ms n h)) in
    rw (
      entries_clean,
      r.found,
      units_clean-backwards r.value.broadcast_msglist,
      ih,
      r.before,
      r.behind,
      r.last,
    )

-- `ipcd_plugin_monitor_msg_clean` frees the payload of every unit and of every entry of the
-- list, each once, from the last entry to the first and within an entry from the last unit to
-- the first and then the entry, and leaves no list.
pub monitor_msg_clean-payloads :
    (ms : List MonitorMsg) → monitor_msg_clean (some ms) ≡ (none, payloads (backwards ms))
unfolding monitor_msg_clean
monitor_msg_clean-payloads ms =
    let e = entries_clean-drop (length ms) ms (omega arith) in
    let t = take-of_le (length ms) ms (omega arith) in
    rw (e, drop-length ms, t, append-nil (payloads (backwards ms)))

module _ {Json : Type 0} where
  roots_clean-past :
      (k i : ℕ) (us : List (PluginUnit Json)) → length us ≤ i → roots_clean k i us ≡ []
  unfolding roots_clean
  roots_clean-past zero i us h = refl
  roots_clean-past (suc k) i us h =
      let e = get_elem?-past us i h in
      let rest = roots_clean-past k (i + 1) us (omega arith) in rw (roots_clean, e, rest)

  -- Of the entries from the index on every second one stays where the next index passes it.
  roots_clean-behind :
      (k : ℕ) (us vs : List (PluginUnit Json))
      → length vs ≤ k
      → roots_clean k (length us) (us ++ vs) ≡ map (λ u. u.root) (every_other vs)
  unfolding roots_clean
  roots_clean-behind k us [] h =
      roots_clean-past k (length us) (us ++ []) (omega (arith, length-append us []))
  roots_clean-behind zero us (v ∷ vs) h = absurd (omega arith)
  roots_clean-behind (suc k) us (v ∷ []) h =
      let e = get_elem?-length us v [] in
      let d = erase_idx-length us v [] in
      let p = roots_clean-past k (length us + 1) (us ++ []) (omega (arith, length-append us [])) in
      rw (roots_clean, e, d, p)
  roots_clean-behind (suc k) us (v ∷ w ∷ vs) h =
      let e = get_elem?-length us v (w ∷ vs) in
      let d = erase_idx-length us v (w ∷ vs) in
      let n : length us + 1 ≡ length (us ++ w ∷ []) = omega (arith, length-append us (w ∷ [])) in
      let s = sym (append_assoc us (w ∷ []) vs) in
      rw (roots_clean, e, d, n, s, roots_clean-behind k (us ++ w ∷ []) vs (omega arith))

  -- Where files are loaded, `ipcd_plugin_monitor_clean` forgets them all and empties the masks
  -- of every process, but it gives only the trees of the first, the third and every further
  -- second file to `cJSON_Delete`.
  pub monitor_clean-every_other :
      (s : Plugins Json) (us : List (PluginUnit Json))
      → s.plugin_config_jsonlist ≡ some us
      → monitor_clean s ≡ (
        record {
          plugin_config_jsonlist = none;
          targets = record s.targets { mlist = map clear_masks s.targets.mlist };
        },
        map (λ u. u.root) (every_other us),
      )
  unfolding monitor_clean
  monitor_clean-every_other s us h = rw (h, roots_clean-behind (length us) [] us (omega arith))
