-- ===== src/Plugin/Parsed.antt =====
-- What an "m2m" rule of a plugin file sets up, from its JSON tree to what its messages set off;
-- src/easyipc_plugin.c, `ipcd_plugin_parse_m2m` and `ipcd_plugin_trigger`.
use easyipc.Base.{
  ℕ, suc, ◌+◌, Bool, Option, none, some, List, [], ◌∷◌, ◌++◌, ◌≡◌, refl, ap, sym, subst, arith,
  length, get_elem?, All,
}
use easyipc.Base.Text.{Text, str_eq, codes}
use easyipc.Registry.{Member}
use easyipc.Plugin.{
  BroadcastType, msg, uiled, syscmd, shell, BroadcastUnit, MonitorMsg, Action, getmsgtype_str,
  trigger, monitor_msg_insert,
}
use easyipc.Plugin.Registered.{Registration, Fits, insert_all, registered}
use easyipc.Plugin.Triggered.{exec_each, sendflag, trigger-insert_all}
use easyipc.Plugin.Parse.{
  Cjson, done, read, read_item, and_then, and_then-done, prepend, Targets, item_type_of, set_type,
  insert_in, broadcast_loop, monitor_loop, parse_m2m,
}

item_type_of-str :
    (t : BroadcastType) (o : Option BroadcastType) → item_type_of (getmsgtype_str t) o ≡ some t
unfolding item_type_of getmsgtype_str str_eq
item_type_of-str msg o = refl
item_type_of-str uiled o = refl
item_type_of-str syscmd o = refl
item_type_of-str shell o = refl

-- The history after the units are registered for a message, one after another.
abbrev pub units_history : Text → List BroadcastUnit → List Registration → List Registration
units_history n [] rs = rs
units_history n (u ∷ us) rs = units_history n us (record { monitor = n; unit = u } ∷ rs)

-- The history after the units are registered for each message of a list.
abbrev pub m2m_history : List Text → List BroadcastUnit → List Registration → List Registration
m2m_history [] us rs = rs
m2m_history (n ∷ ns) us rs = m2m_history ns us (units_history n us rs)

abbrev at_history : List Registration → List Member → Targets
at_history rs ms = record { monitor_msglist = insert_all rs; mlist = ms }

insert_in-history :
    (n : Text) (u : BroadcastUnit) (rs : List Registration) (ms : List Member)
    → insert_in n u.text u.type (at_history rs ms)
      ≡ done
          (at_history (record { monitor = n; unit = u } ∷ rs) ms)
          (monitor_msg_insert n u.text u.type (insert_all rs)).1
unfolding insert_in insert_all
insert_in-history n u rs ms = refl

m2m_history-nil : (ns : List Text) (rs : List Registration) → m2m_history ns [] rs ≡ rs
m2m_history-nil [] rs = refl
m2m_history-nil (n ∷ ns) rs = m2m_history-nil ns rs

module _ (J : Cjson) where
  -- An object with one member: the kind of the unit, and its text.
  pub record UnitAt (b : J.Json) (i : ℕ) (u : BroadcastUnit) : Type 0 where
    pub item : J.Json
    pub member : J.Json
    pub at : J.get_array_item b i ≡ some item
    pub child : J.child item ≡ some member
    pub key : J.string member ≡ some (getmsgtype_str u.type)
    pub value : J.valuestring member ≡ some u.text

  pub record TextAt (a : J.Json) (i : ℕ) (n : Text) : Type 0 where
    pub item : J.Json
    pub at : J.get_array_item a i ≡ some item
    pub value : J.valuestring item ≡ some n

  -- The items of an array from an index on are those of a list.
  abbrev pub Items : {A : Type 0} → (ℕ → A → Type 0) → ℕ → List A → Type 0
  Items {A} At j xs = (i : ℕ) (x : A) → get_elem? xs i ≡ some x → At (j + i) x

  pub Items-tail :
      {A : Type 0} (At : ℕ → A → Type 0) (j : ℕ) (x : A) (xs : List A)
      → Items At j (x ∷ xs)
      → Items At (j + 1) xs
  Items-tail At j x xs at i y h = subst (λ k. At k y) (omega arith) (at (suc i) y h)

  pub Items-head :
      {A : Type 0} (At : ℕ → A → Type 0) (j : ℕ) (x : A) (xs : List A)
      → Items At j (x ∷ xs)
      → At j x
  Items-head At j x xs at = subst (λ k. At k x) (omega arith) (at 0 x refl)

  module _ (b : J.Json) (ms : List Member) where
    read_item-unit :
        (n : Text) (u : BroadcastUnit) (j : ℕ) (t : Option BroadcastType)
        → UnitAt b j u
        → read_item J (some n) b j t ≡ done (n, u.text, u.type) []
    unfolding read_item read and_then prepend set_type
    read_item-unit n u j t h =
        rw (read_item, h.at, h.child, h.key, h.value, item_type_of-str u.type t)

    broadcast_loop-history :
        (n : Text) (us : List BroadcastUnit) (j : ℕ) (t : Option BroadcastType)
        (rs : List Registration)
        → Items (UnitAt b) j us
        → (es : List Action) × (broadcast_loop J (some n) b (length us) j t (at_history rs ms)
            ≡ done (at_history (units_history n us rs) ms) es)
    unfolding broadcast_loop
    broadcast_loop-history n [] j t rs at = ([], refl)
    broadcast_loop-history n (u ∷ us) j t rs at =
        let h : UnitAt b j u = Items-head (UnitAt b) j u us at in
        let (es, ih) =
          broadcast_loop-history n us (j + 1) (some u.type) (record { monitor = n; unit = u } ∷ rs)
            (Items-tail (UnitAt b) j u us at) in
        (
          (monitor_msg_insert n u.text u.type (insert_all rs)).1 ++ es,
          and_then-done _ (read_item-unit n u j t h) (
              and_then-done (broadcast_loop J (some n) b (length us) (j + 1) (some u.type))
                (insert_in-history n u rs ms) ih),
        )

    monitor_loop-history :
        (obj a : J.Json) (us : List BroadcastUnit)
        → J.get_object_item obj (codes "broadcast") ≡ some b
        → J.get_array_size b ≡ length us
        → Items (UnitAt b) 0 us
        → (ns : List Text) (j : ℕ) (rs : List Registration) → Items (TextAt a) j ns
        → (es : List Action) × (monitor_loop J obj a (length ns) j (at_history rs ms)
            ≡ done (at_history (m2m_history ns us rs) ms) es)
    unfolding monitor_loop read
    monitor_loop-history obj a us hb size units [] j rs at = ([], refl)
    monitor_loop-history obj a [] hb size units (n ∷ ns) j rs at =
        let h : TextAt a j n = Items-head (TextAt a) j n ns at in
        (
          [],
          and_then-done _ (ap read h.at)
              (rw (hb, size) (ap (λ h. done (at_history h ms) []) (sym (m2m_history-nil ns rs)))),
        )
    monitor_loop-history obj a (u ∷ us) hb size units (n ∷ ns) j rs at =
        let h : TextAt a j n = Items-head (TextAt a) j n ns at in
        let (es, e) = broadcast_loop-history n (u ∷ us) 0 none rs units in
        let (fs, ih) =
          monitor_loop-history obj a (u ∷ us) hb size units ns (j + 1) (units_history n (u ∷ us) rs)
            (Items-tail (TextAt a) j n ns at) in
        let e' =
          subst
            (λ v.
              broadcast_loop J v b (length (u ∷ us)) 0 none (at_history rs ms)
              ≡ done (at_history (units_history n (u ∷ us) rs) ms) es)
            (sym h.value) e in
        (
          es ++ fs,
          and_then-done _ (ap read h.at)
              (rw (hb, size) (and_then-done (monitor_loop J obj a (length ns) (j + 1)) e' ih)),
        )

  -- Let `monitor_msglist` be what a history of registrations leaves, and let the "monitor" and
  -- "broadcast" arrays of a rule hold message names and objects with one member, the kind and
  -- the text of a unit; all names fit their arrays. Then `ipcd_plugin_parse_m2m` reads the rule
  -- without a fault and leaves the processes as they were, and afterwards `ipcd_plugin_trigger`
  -- of any message executes what the history and the rule together register for that message,
  -- each unit once, the newest first, and returns 1, or does nothing and returns -1 if that is
  -- nothing.
  pub parse_m2m-trigger :
      (fails : Text → Bool) (stack src : Text) (ms : List Member) (obj a b : J.Json)
      (ns : List Text) (us : List BroadcastUnit) (rs : List Registration)
      → J.get_object_item obj (codes "monitor") ≡ some a
      → J.get_object_item obj (codes "broadcast") ≡ some b
      → J.get_array_size a ≡ length ns
      → J.get_array_size b ≡ length us
      → Items (TextAt a) 0 ns
      → Items (UnitAt b) 0 us
      → All Fits (m2m_history ns us rs)
      → (l : Option (List MonitorMsg)) × (es : List Action) × (parse_m2m J obj
            (record { monitor_msglist = insert_all rs; mlist = ms })
          ≡ done (record { monitor_msglist = l; mlist = ms }) es)
        × (trigger fails stack src l ms ≡ (
          sendflag fails stack src ms (registered src (m2m_history ns us rs)),
          exec_each fails stack src ms (registered src (m2m_history ns us rs)),
        ))
  unfolding parse_m2m
  parse_m2m-trigger fails stack src ms obj a b ns us rs ha hb na nb texts units fits =
      let (es, e) = monitor_loop-history b ms obj a us hb nb units ns 0 rs texts in
      let parsed : parse_m2m J obj (at_history rs ms)
          ≡ done (at_history (m2m_history ns us rs) ms) es =
        rw (parse_m2m, ha, na) e in
      (
        insert_all (m2m_history ns us rs),
        es,
        parsed,
        trigger-insert_all fails stack src ms (m2m_history ns us rs) fits,
      )
