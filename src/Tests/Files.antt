-- ===== src/Tests/Files.antt =====
-- A configuration file of src/easyipc_conf_support.c.
use easyipc.Base.{◌≡◌, refl, some, List, [], ◌∷◌, arith, All}
use easyipc.Base.Text.{Text, codes, str_eq}
use easyipc.Config.{success, overflow, get_config_string_value}
use easyipc.Config.Values.{IsEntry}
use easyipc.Config.Files.{
  print_file, get_config_string_value-print_file, get_config_string_value-overflow,
}

abbrev settings : List (Text × Text)
settings =
    (codes "packet_max_size", codes "4096")
    ∷ (codes "ipc_log_save_path", codes "/tmp/aabb.log")
    ∷ []

settings-IsEntry : All IsEntry settings
settings-IsEntry =
    ((omega arith, refl, refl, omega arith), ((omega arith, refl, refl, omega arith), tt))

get_config_string_value-print_file_example :
    get_config_string_value 256
      (codes "Config")
      (codes "ipc_log_save_path")
      (some (print_file (codes "Config") settings))
    ≡ success (codes "/tmp/aabb.log")
unfolding str_eq
get_config_string_value-print_file_example =
    get_config_string_value-print_file 256 (codes "Config") (codes "ipc_log_save_path") settings
      (omega arith) refl (omega arith) settings-IsEntry (omega arith)

-- A number with leading zeros, for the array of 16 bytes.
abbrev long_settings : List (Text × Text)
long_settings = (codes "packet_max_size", codes "0000000000004096") ∷ []

get_config_string_value-overflow_example :
    get_config_string_value 16
      (codes "Config")
      (codes "packet_max_size")
      (some (print_file (codes "Config") long_settings))
    ≡ overflow
get_config_string_value-overflow_example =
    get_config_string_value-overflow 16 (codes "Config") (codes "packet_max_size")
      (codes "0000000000004096") [] (omega arith) refl (omega arith)
      ((omega arith, refl, refl, omega arith), tt) (omega arith)
