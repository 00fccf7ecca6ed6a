-- ===== src/Plugin/Registered.antt =====
-- What src/easyipc_plugin.c has registered after a history of `ipcd_plugin_monitor_msg_insert`: for
-- each message the units of its registrations, each of them once.
use easyipc.Base.{
  ◌<◌, Bool, true, ◌&&◌, ◌||◌, not, Option, none, some, List, [], ◌∷◌, ◌++◌, ◌≡◌, refl, ap, sym,
  ◌∙◌, arith, length, All, any, if◌then◌else◌, is_some, backwards,
}
use easyipc.Base.Text.{Text, str_eq, str_eq_iff, str_eq_sym, snprintf, snprintf-of_lt}
use easyipc.Registry.{msg_max_size}
use easyipc.Plugin.{
  BroadcastType, same_type, BroadcastUnit, MonitorMsg, plugin_msg_max_size, has_unit, new_unit,
  unit_insert, insert_at, new_monitor, created, monitor_msg_insert, find_monitor,
}

-- The arguments of one registration.
pub record Registration : Type 0 where
  pub monitor : Text
  pub unit : BroadcastUnit

-- The names fit their arrays.
abbrev pub Fits : Registration → Type 0
Fits r = (length r.monitor < msg_max_size) × (length r.unit.text < plugin_msg_max_size)

abbrev pub insert : Registration → Option (List MonitorMsg) → Option (List MonitorMsg)
insert r l = (monitor_msg_insert r.monitor r.unit.text r.unit.type l).0

-- The list after a history, whose last registration stands first.
unfoldable pub insert_all : List Registration → Option (List MonitorMsg)
insert_all [] = none
insert_all (r ∷ rs) = insert r (insert_all rs)

abbrev pub same_unit : BroadcastUnit → BroadcastUnit → Bool
same_unit a b = str_eq b.text a.text && same_type a.type b.type

-- The units that a history registers for a message, without repetition, the newest first.
unfoldable pub registered : Text → List Registration → List BroadcastUnit
registered name [] = []
registered name (r ∷ rs) =
    if str_eq r.monitor name && not (any (same_unit r.unit) (registered name rs))
    then r.unit ∷ registered name rs
    else registered name rs

-- The units of an entry, if there is one.
abbrev pub units_of : Option MonitorMsg → List BroadcastUnit
units_of none = []
units_of (some m) = m.broadcast_msglist

abbrev pub units : Text → Option (List MonitorMsg) → List BroadcastUnit
units name l = units_of (find_monitor name (created l))

abbrev changed : Bool → Registration → Option MonitorMsg → Option MonitorMsg
changed b r none = none
changed b r (some m) =
    if b then some (unit_insert r.monitor r.unit.text r.unit.type m).0 else some m

find-append :
    (name : Text) (ms : List MonitorMsg) (m : MonitorMsg)
    → find_monitor name (ms ++ m ∷ [])
      ≡ (if str_eq name m.monitor_msg_name then some m else find_monitor name ms)
unfolding find_monitor
find-append name [] m = refl
find-append name (a ∷ ms) m = ground (arith, find-append name ms m)

insert_at-find :
    (r : Registration) (ms : List MonitorMsg)
    → is_some (insert_at r.monitor r.unit.text r.unit.type ms) ≡ is_some (find_monitor r.monitor ms)
unfolding insert_at find_monitor
insert_at-find r [] = refl
insert_at-find r (m ∷ ms) = ground (arith, insert_at-find r ms)

unit_insert-name :
    (mon text : Text) (ty : BroadcastType) (m : MonitorMsg)
    → (unit_insert mon text ty m).0.monitor_msg_name ≡ m.monitor_msg_name
unfolding unit_insert
unit_insert-name mon text ty m = ground arith

find-same :
    (a b : Text) (ms : List MonitorMsg) → str_eq a b ≡ true → find_monitor b ms ≡ find_monitor a ms
find-same a b ms h = ap (λ n. find_monitor n ms) (sym ((str_eq_iff a b).0 h))

same-str_eq : (a b c : Text) → str_eq a c ≡ true → str_eq b c ≡ str_eq a b
same-str_eq a b c h = ap (str_eq b) (sym ((str_eq_iff a c).0 h)) ∙ str_eq_sym b a

same-left : (a b c : Text) → str_eq a b ≡ true → str_eq b c ≡ str_eq a c
same-left a b c h = ap (λ n. str_eq n c) (sym ((str_eq_iff a b).0 h))

abbrev kept_at {ℓ} : {B : Type ℓ} → Option (List MonitorMsg × B) → List MonitorMsg → List MonitorMsg
kept_at none ms = ms
kept_at (some (ms', es)) ms = ms'

-- The entry that the search finds is changed, and no other.
find-insert_at :
    (name : Text) (r : Registration) (ms : List MonitorMsg)
    → find_monitor name (kept_at (insert_at r.monitor r.unit.text r.unit.type ms) ms)
      ≡ changed (str_eq r.monitor name) r (find_monitor name ms)
unfolding insert_at find_monitor
find-insert_at name r [] = refl
find-insert_at name r (m ∷ ms) = ground (
  arith,
  insert_at-find r ms,
  find-same r.monitor name ms,
  same-left r.monitor name m.monitor_msg_name,
  same-str_eq r.monitor name m.monitor_msg_name,
  unit_insert-name r.monitor r.unit.text r.unit.type m,
  find-insert_at name r ms,
)

-- One registration adds its unit, if that is new, to the message that it names, and to no other.
units-insert :
    (name : Text) (r : Registration) (l : Option (List MonitorMsg))
    → Fits r
    → units name (insert r l) ≡ (
        if str_eq r.monitor name && not (has_unit r.unit.text r.unit.type (units name l))
        then units name l ++ r.unit ∷ []
        else units name l)
unfolding monitor_msg_insert new_monitor new_unit unit_insert has_unit
units-insert name r l fits =
    let t : snprintf plugin_msg_max_size r.unit.text ≡ r.unit.text =
      snprintf-of_lt plugin_msg_max_size r.unit.text fits.1 in
    let n : snprintf msg_max_size r.monitor ≡ r.monitor =
      snprintf-of_lt msg_max_size r.monitor fits.0 in
    ground (
      arith,
      t,
      n,
      insert_at-find r (created l),
      find-insert_at name r (created l),
      find-same r.monitor name (created l),
      find-append name (created l) (new_monitor r.monitor r.unit.text r.unit.type),
      str_eq_sym name r.monitor,
    )

has_unit-append :
    (u : BroadcastUnit) (bs : List BroadcastUnit) (b : BroadcastUnit)
    → has_unit u.text u.type (bs ++ b ∷ []) ≡ (same_unit u b || has_unit u.text u.type bs)
unfolding has_unit
has_unit-append u [] b = ground arith
has_unit-append u (a ∷ bs) b = ground (arith, has_unit-append u bs b)

has_unit-backwards :
    (u : BroadcastUnit) (bs : List BroadcastUnit)
    → has_unit u.text u.type (backwards bs) ≡ any (same_unit u) bs
unfolding has_unit
has_unit-backwards u [] = refl
has_unit-backwards u (b ∷ bs) =
    has_unit-append u (backwards bs) b ∙ ap (◌||◌ (same_unit u b)) (has_unit-backwards u bs)

-- After a history the entry of a message has the units registered for it, the newest last.
pub units-registered :
    (name : Text) (rs : List Registration)
    → All Fits rs
    → units name (insert_all rs) ≡ backwards (registered name rs)
unfolding insert_all registered find_monitor
units-registered name [] fits = refl
units-registered name (r ∷ rs) fits = ground (
  arith,
  units-insert name r (insert_all rs) fits.0,
  units-registered name rs fits.1,
  has_unit-backwards r.unit (registered name rs),
)
