-- ===== src/Plugin/Triggered.antt =====
-- `ipcd_plugin_trigger` of src/easyipc_plugin.c after any history of registrations.
use easyipc.Base.{
  Bool, Option, none, some, List, [], ◌∷◌, ◌++◌, ◌≡◌, refl, ap, sym, ◌∙◌, arith, All, backwards,
  append_assoc, append-nil,
}
use easyipc.Base.Int.{ℤ, pos, negsuc}
use easyipc.Base.Text.{Text}
use easyipc.Registry.{Member}
use easyipc.Plugin.{BroadcastUnit, MonitorMsg, Action, exec_unit, exec_units, find_monitor, trigger}
use easyipc.Plugin.Registered.{Registration, Fits, insert_all, registered, units, units-registered}

module _ (fails : Text → Bool) (stack src : Text) (ms : List Member) where
  -- The actions of the units, one after another.
  abbrev pub exec_each : List BroadcastUnit → List Action
  exec_each [] = []
  exec_each (b ∷ bs) = exec_unit fails stack src ms b ++ exec_each bs

  exec_units-append :
      (bs : List BroadcastUnit) (b : BroadcastUnit)
      → (exec_units fails stack src ms (bs ++ b ∷ [])).1
        ≡ exec_unit fails stack src ms b ++ (exec_units fails stack src ms bs).1
  unfolding exec_units
  exec_units-append [] b = sym (append-nil (exec_unit fails stack src ms b))
  exec_units-append (a ∷ bs) b =
      ap (λ es. es ++ exec_unit fails stack src ms a) (exec_units-append bs b)
      ∙ append_assoc (exec_unit fails stack src ms b) (exec_units fails stack src ms bs).1
          (exec_unit fails stack src ms a)

  exec_units-backwards :
      (bs : List BroadcastUnit) → (exec_units fails stack src ms (backwards bs)).1 ≡ exec_each bs
  unfolding exec_units
  exec_units-backwards [] = refl
  exec_units-backwards (b ∷ bs) =
      exec_units-append (backwards bs) b
      ∙ ap (◌++◌ (exec_unit fails stack src ms b)) (exec_units-backwards bs)

  -- What `ipcd_plugin_trigger` returns.
  abbrev pub sendflag : List BroadcastUnit → ℤ
  sendflag [] = negsuc 0
  sendflag (b ∷ bs) = pos 1

  sendflag-append : (bs : List BroadcastUnit) (b : BroadcastUnit) → sendflag (bs ++ b ∷ []) ≡ pos 1
  sendflag-append [] b = refl
  sendflag-append (a ∷ bs) b = refl

  sendflag-backwards : (bs : List BroadcastUnit) → sendflag (backwards bs) ≡ sendflag bs
  sendflag-backwards [] = refl
  sendflag-backwards (b ∷ bs) = sendflag-append (backwards bs) b

  exec_units-sendflag :
      (bs : List BroadcastUnit)
      → exec_units fails stack src ms bs ≡ (sendflag bs, (exec_units fails stack src ms bs).1)
  unfolding exec_units
  exec_units-sendflag [] = refl
  exec_units-sendflag (b ∷ bs) = refl

  trigger-exec_units :
      (l : Option (List MonitorMsg))
      → trigger fails stack src l ms ≡ exec_units fails stack src ms (units src l)
  unfolding trigger exec_units find_monitor
  trigger-exec_units none = refl
  trigger-exec_units (some l) = ground arith

  -- After any history of `ipcd_plugin_monitor_msg_insert` with names that fit their arrays,
  -- `ipcd_plugin_trigger` does what a map from messages to sets of units prescribes: it executes
  -- each unit that the history registers for the message once, the newest first, whatever was
  -- registered for other messages in between, and returns 1; where there is no such unit it does
  -- nothing and returns -1.
  pub trigger-insert_all :
      (rs : List Registration)
      → All Fits rs
      → trigger fails stack src (insert_all rs) ms
        ≡ (sendflag (registered src rs), exec_each (registered src rs))
  trigger-insert_all rs fits =
      trigger-exec_units (insert_all rs)
      ∙ ap (exec_units fails stack src ms) (units-registered src rs fits)
      ∙ exec_units-sendflag (backwards (registered src rs))
      ∙ ap (λ z. (z, (exec_units fails stack src ms (backwards (registered src rs))).1))
          (sendflag-backwards (registered src rs))
      ∙ ap (λ es. (sendflag (registered src rs), es)) (exec_units-backwards (registered src rs))
