-- ===== src/Plugin/Parse.antt =====
-- The reading of a plugin file's JSON tree, src/easyipc_plugin.c from `ipcd_plugin_parse_root` on.
-- The tree is src/cjson.c's, a copy of the cJSON library, and so a parameter.
use easyipc.Base.{
  ℕ, zero, suc, ◌+◌, ◌||◌, Option, none, some, List, [], ◌∷◌, ◌++◌, if◌then◌else◌, ◌≡◌, ap, ◌∙◌,
}
use easyipc.Base.Int.{ℤ, pos, negsuc}
use easyipc.Base.Text.{Text, str_eq, codes}
use easyipc.Wire.{progress, info}
use easyipc.Registry.{Member}
use easyipc.Plugin.{
  BroadcastType, msg, uiled, syscmd, shell, MonitorMsg, Action, logged, sender_mask, receiver_mask,
  monitor_msg_insert,
}

-- What the plugins read of a `cJSON`: the functions and the members of the structure, with `none`
-- for `NULL`.
pub record Cjson : Type 1 where
  pub Json : Type 0
  pub get_object_item : Json → Text → Option Json
  pub get_array_size : Json → ℕ
  pub get_array_item : Json → ℕ → Option Json
  pub valuestring : Json → Option Text
  pub child : Json → Option Json
  pub string : Json → Option Text

-- What has no defined behaviour: a read through `NULL`, and of `item_type` before it is set.
pub data Fault : Type 0 where
  null_read unset_read : Fault

pub data Outcome (A : Type 0) : Type 0 where
  fault : Fault → Outcome A
  done : A → List Action → Outcome A

-- The actions of the first part stand before those of the second.
unfoldable pub prepend : {A : Type 0} → List Action → Outcome A → Outcome A
prepend es (fault f) = fault f
prepend es (done a fs) = done a (es ++ fs)

unfoldable pub and_then : {A B : Type 0} → Outcome A → (A → Outcome B) → Outcome B
unfolding prepend
and_then (fault f) k = fault f
and_then (done a es) k = prepend es (k a)

-- Two parts that both end are one that ends.
pub and_then-done :
    {A B : Type 0} {r : Outcome A} (k : A → Outcome B) {a : A} {b : B} {es fs : List Action}
    → r ≡ done a es
    → k a ≡ done b fs
    → and_then r k ≡ done b (es ++ fs)
unfolding and_then prepend
and_then-done k {es} h g = ap (λ r. and_then r k) h ∙ ap (prepend es) g

-- A pointer that is read.
unfoldable pub read : {A : Type 0} → Option A → Outcome A
read none = fault null_read
read (some a) = done a []

-- The two lists that the files change.
pub record Targets : Type 0 where
  pub monitor_msglist : Option (List MonitorMsg)
  pub mlist : List Member

-- `item_type` after its four tests; it keeps its value at any other key.
unfoldable pub item_type_of : Text → Option BroadcastType → Option BroadcastType
item_type_of key t =
    let t₁ : Option BroadcastType = if str_eq key (codes "msg") then some msg else t in
    let t₂ : Option BroadcastType = if str_eq key (codes "uiled") then some uiled else t₁ in
    let t₃ : Option BroadcastType = if str_eq key (codes "syscmd") then some syscmd else t₂ in
    if str_eq key (codes "shell") then some shell else t₃

unfoldable pub set_type : Option BroadcastType → Outcome BroadcastType
set_type none = fault unset_read
set_type (some t) = done t []

-- The registration with the arguments that `ipcd_plugin_parse_m2m` has.
unfoldable pub insert_in : Text → Text → BroadcastType → Targets → Outcome Targets
unfolding monitor_msg_insert
insert_in monitor text t s =
    let (l, es) = monitor_msg_insert monitor text t s.monitor_msglist in
    done (record s { monitor_msglist = l }) es

pub data Mask : Type 0 where
  send recv : Mask

-- `strdup` and `dlist_attach` on `mask_sender` or `mask_receiver`
unfoldable pub add_mask : Mask → Text → Member → Member
add_mask send name m = record m { mask_sender = m.mask_sender ++ name ∷ [] }
add_mask recv name m = record m { mask_receiver = m.mask_receiver ++ name ∷ [] }

abbrev pub mask_note : Mask → Text → Member → Action
mask_note send name m = logged progress info (sender_mask name m.pname)
mask_note recv name m = logged progress info (receiver_mask name m.pname)

-- The loop of `ipcd_plugin_parse_mask` over the processes.
unfoldable pub mask_members : Mask → Option Text → Option Text → List Member → Outcome (List Member)
unfolding read and_then add_mask prepend
mask_members w pname mname [] = done [] []
mask_members w pname mname (m ∷ ms) = elim pname [
  | none ↦ fault null_read
  | some p ↦
      let rest = mask_members w (some p) mname ms in
      if str_eq p m.pname || str_eq p (codes "*")
      then (and_then (read mname) λ name.
          prepend (mask_note w name m ∷ [])
            (and_then rest λ ms'. done (add_mask w name m ∷ ms') []))
      else and_then rest λ ms'. done (m ∷ ms') []
]

module _ (J : Cjson) where
  -- The message, the text and the type of the item of "broadcast" at an index.
  unfoldable pub read_item :
      Option Text → J.Json → ℕ → Option BroadcastType → Outcome (Text × Text × BroadcastType)
  unfolding read and_then prepend item_type_of set_type
  read_item monitor broadcast j t = and_then (read (J.get_array_item broadcast j)) λ item.
      and_then (read (J.child item)) λ c. and_then (read (J.string c)) λ key.
        and_then (read monitor) λ name.
          and_then (read (J.valuestring c))
            λ text. and_then (set_type (item_type_of key t)) λ type. done (name, text, type) []

  -- The loop over the items of "broadcast", with the rounds left and the index.
  unfoldable pub broadcast_loop :
      Option Text → J.Json → ℕ → ℕ → Option BroadcastType → Targets → Outcome Targets
  unfolding read_item and_then prepend insert_in
  broadcast_loop monitor broadcast zero j t s = done s []
  broadcast_loop monitor broadcast (suc k) j t s =
      and_then (read_item monitor broadcast j t) λ (name, text, type).
        and_then (insert_in name text type s)
          λ s'. broadcast_loop monitor broadcast k (j + 1) (some type) s'

  -- The loop over the items of "monitor": without "broadcast", or with an empty one, it ends.
  unfoldable pub monitor_loop : J.Json → J.Json → ℕ → ℕ → Targets → Outcome Targets
  unfolding read and_then prepend broadcast_loop
  monitor_loop obj monitors zero i s = done s []
  monitor_loop obj monitors (suc k) i s = and_then (read (J.get_array_item monitors i)) λ item.
      elim (J.get_object_item obj (codes "broadcast")) [
        | none ↦ done s []
        | some b ↦ elim (J.get_array_size b) [
          | zero ↦ done s []
          | suc n ↦
              and_then (broadcast_loop (J.valuestring item) b (suc n) 0 none s)
                λ s'. monitor_loop obj monitors k (i + 1) s'
        ]
      ]

  -- `ipcd_plugin_parse_m2m`
  unfoldable pub parse_m2m : J.Json → Targets → Outcome Targets
  unfolding monitor_loop
  parse_m2m obj s = elim (J.get_object_item obj (codes "monitor")) [
    | none ↦ done s []
    | some ms ↦ monitor_loop obj ms (J.get_array_size ms) 0 s
  ]

  -- One item of "send" or "recv".
  unfoldable pub mask_item : Mask → J.Json → Targets → Outcome Targets
  unfolding mask_members and_then prepend
  mask_item w item s = elim (J.get_object_item item (codes "pname")) [
    | none ↦ done s []
    | some p ↦ elim (J.get_object_item item (codes "mname")) [
      | none ↦ done s []
      | some n ↦
          and_then (mask_members w (J.valuestring p) (J.valuestring n) s.mlist)
            λ ms. done (record s { mlist = ms }) []
    ]
  ]

  -- The loop over the items of "send" or "recv".
  unfoldable pub mask_loop : Mask → J.Json → ℕ → ℕ → Targets → Outcome Targets
  unfolding mask_item and_then prepend
  mask_loop w items zero i s = done s []
  mask_loop w items (suc k) i s = elim (J.get_array_item items i) [
    | none ↦ mask_loop w items k (i + 1) s
    | some item ↦ and_then (mask_item w item s) λ s'. mask_loop w items k (i + 1) s'
  ]

  unfoldable pub parse_masks : Mask → Option J.Json → Targets → Outcome Targets
  unfolding mask_loop
  parse_masks w none s = done s []
  parse_masks w (some items) s = mask_loop w items (J.get_array_size items) 0 s

  -- `ipcd_plugin_parse_mask`
  unfoldable pub parse_mask : J.Json → Targets → Outcome Targets
  unfolding parse_masks and_then prepend
  parse_mask obj s =
      and_then (parse_masks send (J.get_object_item obj (codes "send")) s)
        λ s'. parse_masks recv (J.get_object_item obj (codes "recv")) s'

  -- One item of "list".
  unfoldable pub parse_item : J.Json → Targets → Outcome Targets
  unfolding read and_then prepend parse_m2m parse_mask
  parse_item item s = elim (J.get_object_item item (codes "type")) [
    | none ↦ done s []
    | some t ↦ and_then (read (J.valuestring t)) λ name.
        if str_eq name (codes "m2m")
        then parse_m2m item s
        else (if str_eq name (codes "mask_msg") then parse_mask item s else done s [])
  ]

  unfoldable pub root_loop : J.Json → ℕ → ℕ → Targets → Outcome Targets
  unfolding parse_item and_then prepend
  root_loop items zero i s = done s []
  root_loop items (suc k) i s = elim (J.get_array_item items i) [
    | none ↦ root_loop items k (i + 1) s
    | some item ↦ and_then (parse_item item s) λ s'. root_loop items k (i + 1) s'
  ]

  -- `ipcd_plugin_parse_root`
  unfoldable pub parse_root : J.Json → Targets → Outcome (ℤ × Targets)
  unfolding root_loop and_then prepend
  parse_root root s = elim (J.get_object_item root (codes "list")) [
    | none ↦ done (negsuc 0, s) []
    | some items ↦ and_then (root_loop items (J.get_array_size items) 0 s) λ s'. done (pos 0, s') []
  ]
