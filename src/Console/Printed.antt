-- ===== src/Console/Printed.antt =====
-- What `eipcprint` of src/easyipc_console.c makes of the daemon's printing: from its options through
-- `ipcctl_analysis_core` to `ipcd_log_save_and_print`.
use easyipc.Base.{ℕ, ◌<◌, Bool, ◌&&◌, [], ◌∷◌, ◌≡◌, refl, length}
use easyipc.Base.Text.{Text, snprintf-of_lt, snprintf}
use easyipc.Wire.{LogType, Level}
use easyipc.Log.{Log, has_char, tlt_char, level_char, save_and_print}
use easyipc.Misc.{PrintPacket}
use easyipc.Plugin.Parse.{Cjson}
use easyipc.Control.{Control, print, Host, broadcast_off, replied, ctl_analysis_core}
use easyipc.Console.{sends, eipcprint, print_t, print_l, first_packet, set_type, set_level}

-- The types and levels that the daemon prints after a request.
abbrev pub printed_after : {Json : Type 0} → Control Json → LogType → Level → ℕ → Text → Log → Bool
printed_after c type level size text l = (save_and_print size c.flags type level text l).printed

module _ (J : Cjson) (host : Host J) (displays : Bool) (c : Control J.Json) where
  -- `eipcprint -t types -l levels`, with arguments shorter than 16 bytes, sends one request.
  -- `ipcctl_analysis_core` takes it and prints that broadcasting is off, and from then on
  -- `ipcd_log_save_and_print` prints a record exactly if the letters of its type and of its
  -- level are among these.
  pub eipcprint-printed :
      (types levels : Text)
      → length types < 16
      → length levels < 16
      → (p : PrintPacket) × (c' : Control J.Json) × (eipcprint displays
            (print_t types ∷ print_l levels ∷ [])
            first_packet
          ≡ sends (print p ∷ []))
        × (ctl_analysis_core J host (print p) c ≡ replied c' (broadcast_off ∷ []))
        × ((type : LogType) (level : Level) (size : ℕ) (text : Text) (l : Log)
            → printed_after c' type level size text l
              ≡ (has_char (tlt_char type) types && has_char (level_char level) levels))
  unfolding eipcprint ctl_analysis_core save_and_print
  eipcprint-printed types levels ht hl =
      let t : snprintf 16 types ≡ types = snprintf-of_lt 16 types ht in
      let v : snprintf 16 levels ≡ levels = snprintf-of_lt 16 levels hl in
      (
        set_level levels (set_type types first_packet),
        _,
        refl,
        refl,
        λ type level size text l. rw (t, v),
      )
