-- ===== src/Plugin/Masked.antt =====
-- What a "mask_msg" rule of a plugin file puts into the process table; src/easyipc_plugin.c,
-- `ipcd_plugin_parse_mask`.
use easyipc.Base.{
  ℕ, ◌+◌, Bool, ◌||◌, Option, none, some, List, [], ◌∷◌, ◌++◌, ◌≡◌, refl, ap, sym, ◌∙◌, length, map,
  if◌then◌else◌, append_assoc, append-nil, inl, inr, Bool-cases,
}
use easyipc.Base.Text.{Text, str_eq, codes}
use easyipc.Registry.{Member}
use easyipc.Plugin.{MonitorMsg, Action}
use easyipc.Plugin.Parse.{
  Cjson, done, read, and_then, and_then-done, prepend, Targets, Mask, send, recv, add_mask,
  mask_note, mask_members, mask_item, mask_loop, parse_masks, parse_mask,
}
use easyipc.Plugin.Parsed.{Items, Items-head, Items-tail}

-- A rule with the name of a process, or "*", and that of a message.
abbrev pub addressed : Text → Text → Bool
addressed p pname = str_eq p pname || str_eq p (codes "*")

-- The messages that the rules mask for a process.
abbrev pub names_for : List (Text × Text) → Text → List Text
names_for [] name = []
names_for ((p, n) ∷ rs) name = if addressed p name then n ∷ names_for rs name else names_for rs name

abbrev pub masked : Mask → List (Text × Text) → Member → Member
masked send rs m = record m { mask_sender = m.mask_sender ++ names_for rs m.pname }
masked recv rs m = record m { mask_receiver = m.mask_receiver ++ names_for rs m.pname }

abbrev rule_on : Mask → Text × Text → Member → Member
rule_on w (p, n) m = if addressed p m.pname then add_mask w n m else m

mask_members-map :
    (w : Mask) (r : Text × Text) (ms : List Member)
    → (es : List Action) × (mask_members w (some r.0) (some r.1) ms
        ≡ done (map (rule_on w r) ms) es)
unfolding mask_members read and_then prepend
mask_members-map w r [] = ([], refl)
mask_members-map w r (m ∷ ms) =
    let (es, ih) = mask_members-map w r ms in
    elim (Bool-cases (addressed r.0 m.pname)) [
      | inl e ↦ (mask_note w r.1 m ∷ (es ++ []), rw (mask_members, ih, e))
      | inr e ↦ (es ++ [], rw (mask_members, ih, e))
    ]

masked-cons :
    (w : Mask) (r : Text × Text) (rs : List (Text × Text)) (m : Member)
    → masked w rs (rule_on w r m) ≡ masked w (r ∷ rs) m
unfolding add_mask
masked-cons send (p, n) rs m = elim (Bool-cases (addressed p m.pname)) [
  | inl e ↦ rw (e, append_assoc m.mask_sender (n ∷ []) (names_for rs m.pname))
  | inr e ↦ rw e
]
masked-cons recv (p, n) rs m = elim (Bool-cases (addressed p m.pname)) [
  | inl e ↦ rw (e, append_assoc m.mask_receiver (n ∷ []) (names_for rs m.pname))
  | inr e ↦ rw e
]

masked-nil : (w : Mask) (m : Member) → masked w [] m ≡ m
masked-nil send m = rw (append-nil m.mask_sender)
masked-nil recv m = rw (append-nil m.mask_receiver)

map-masked-nil : (w : Mask) (ms : List Member) → map (masked w []) ms ≡ ms
map-masked-nil w [] = refl
map-masked-nil w (m ∷ ms) = rw (masked-nil w m, map-masked-nil w ms)

map-masked-cons :
    (w : Mask) (r : Text × Text) (rs : List (Text × Text)) (ms : List Member)
    → map (masked w rs) (map (rule_on w r) ms) ≡ map (masked w (r ∷ rs)) ms
map-masked-cons w r rs [] = refl
map-masked-cons w r rs (m ∷ ms) = rw (masked-cons w r rs m, map-masked-cons w r rs ms)

module _ (J : Cjson) where
  -- An object with the two names of a rule.
  pub record RuleAt (items : J.Json) (i : ℕ) (r : Text × Text) : Type 0 where
    pub item : J.Json
    pub pname_obj : J.Json
    pub mname_obj : J.Json
    pub at : J.get_array_item items i ≡ some item
    pub pname : J.get_object_item item (codes "pname") ≡ some pname_obj
    pub mname : J.get_object_item item (codes "mname") ≡ some mname_obj
    pub process : J.valuestring pname_obj ≡ some r.0
    pub message : J.valuestring mname_obj ≡ some r.1

  -- A member "send" or "recv" that has the rules, or is not there.
  pub data Rules (o : Option J.Json) (rs : List (Text × Text)) : Type 0 where
    absent : o ≡ none → rs ≡ [] → Rules o rs
    present :
        (items : J.Json)
        → o ≡ some items
        → J.get_array_size items ≡ length rs
        → Items J (RuleAt items) 0 rs
        → Rules o rs

  module _ (l : Option (List MonitorMsg)) (w : Mask) where
    abbrev with_table : List Member → Targets
    with_table ms = record { monitor_msglist = l; mlist = ms }

    mask_item-rule :
        (items : J.Json) (j : ℕ) (r : Text × Text) (ms : List Member) (h : RuleAt items j r)
        → (es : List Action) × (mask_item J w h.item (with_table ms)
            ≡ done (with_table (map (rule_on w r) ms)) es)
    unfolding mask_item
    mask_item-rule items j r ms h =
        let (es, e) = mask_members-map w r ms in
        (es ++ [], rw (mask_item, h.pname, h.mname, h.process, h.message) (and_then-done _ e refl))

    mask_loop-rules :
        (items : J.Json) (rs : List (Text × Text)) (j : ℕ) (ms : List Member)
        → Items J (RuleAt items) j rs
        → (es : List Action) × (mask_loop J w items (length rs) j (with_table ms)
            ≡ done (with_table (map (masked w rs) ms)) es)
    unfolding mask_loop
    mask_loop-rules items [] j ms at =
        ([], ap (λ t. done (with_table t) []) (sym (map-masked-nil w ms)))
    mask_loop-rules items (r ∷ rs) j ms at =
        let h : RuleAt items j r = Items-head J (RuleAt items) j r rs at in
        let (es, e) = mask_item-rule items j r ms h in
        let (fs, ih) =
          mask_loop-rules items rs (j + 1) (map (rule_on w r) ms)
            (Items-tail J (RuleAt items) j r rs at) in
        (
          es ++ fs,
          rw (mask_loop, h.at)
              (and_then-done (mask_loop J w items (length rs) (j + 1)) e ih
                ∙ ap (λ t. done (with_table t) (es ++ fs)) (map-masked-cons w r rs ms)),
        )

    parse_masks-Rules :
        (o : Option J.Json) (rs : List (Text × Text)) (ms : List Member)
        → Rules o rs
        → (es : List Action) × (parse_masks J w o (with_table ms)
            ≡ done (with_table (map (masked w rs) ms)) es)
    unfolding parse_masks
    parse_masks-Rules o rs ms (absent e nil) = ([], rw (e, nil, map-masked-nil w ms))
    parse_masks-Rules o rs ms (present items e size at) =
        let (es, p) = mask_loop-rules items rs 0 ms at in (es, rw (e, size) p)

  -- Where "send" and "recv" of a rule are absent or arrays of objects with the names of a
  -- process and of a message, `ipcd_plugin_parse_mask` reads the rule without a fault, leaves
  -- `monitor_msglist` as it was, and puts behind the masks of each process the messages of those
  -- objects that name it or "*", in their order, for sending and for receiving apart.
  pub parse_mask-masked :
      (obj : J.Json) (ss rs : List (Text × Text)) (l : Option (List MonitorMsg)) (ms : List Member)
      → Rules (J.get_object_item obj (codes "send")) ss
      → Rules (J.get_object_item obj (codes "recv")) rs
      → (es : List Action) × (parse_mask J obj (record { monitor_msglist = l; mlist = ms })
          ≡ done
              (record {
                monitor_msglist = l;
                mlist = map (masked recv rs) (map (masked send ss) ms);
              })
              es)
  unfolding parse_mask
  parse_mask-masked obj ss rs l ms hs hr =
      let (es, e) = parse_masks-Rules l send (J.get_object_item obj (codes "send")) ss ms hs in
      let (fs, f) =
        parse_masks-Rules l recv (J.get_object_item obj (codes "recv")) rs (map (masked send ss) ms)
          hr in
      (es ++ fs, and_then-done _ e f)
