-- ===== src/Tests/Tables.antt =====
-- The process table of src/easyipc_daemon.c on concrete data.
use easyipc.Base.{ℕ, ◌≡◌, refl, Bool, true, false, List, [], ◌∷◌, ◌++◌, arith}
use easyipc.Base.Text.{Text, codes, str_eq}
use easyipc.Wire.{JoinInfo}
use easyipc.Registry.{Entry, Member, join_refused, join_accepted, join, new_member, new_entry}
use easyipc.Registry.Unique.{IsTable}
use easyipc.Registry.Join.{admission, refusal, join_lem, join-IsTable}
use easyipc.Registry.Rejoin.{count_pid, join_renews, join_skips}

abbrev pub joining : ℕ → Text → JoinInfo
joining pid name = record {
  pid = pid;
  name = name;
  api_port = 6001;
  msg_port = 6002;
  signal_no = 0;
}

abbrev pub member : ℕ → Text → Bool → List Entry → List Entry → Member
member pid name out msgs apis = record {
  pid = pid;
  live_cnt = 0;
  msg_port = 6002;
  api_port = 6001;
  pname = name;
  send_cnt = 0;
  recv_cnt = 0;
  suspended = out;
  pmsg_list = msgs;
  api_list = apis;
  host = 1;
  mask_sender = [];
  mask_receiver = [];
  daemon_cmd = [];
}

-- A camera with an API, and a display with a message.
abbrev pub camera : Member
camera = member 10 (codes "camera") false [] (new_entry (codes "zoom") ∷ [])

abbrev pub display : Member
display = member 11 (codes "display") false (new_entry (codes "frame") ∷ []) []

abbrev pub table : List Member
table = camera ∷ display ∷ []

pub table-IsTable : IsTable table
unfolding str_eq
table-IsTable = (refl, refl, (refl, refl, tt))

join_lem_example :
    join (joining 12 (codes "camera")) 1 table
    ≡ join_refused (refusal (joining 12 (codes "camera")) camera)
unfolding str_eq
join_lem_example = join_lem (joining 12 (codes "camera")) 1 table (refl, (refl, tt))

join-IsTable_example :
    IsTable (table ++ new_member (joining 12 (codes "audio")) 1 ∷ [])
    × (table ++ new_member (joining 12 (codes "audio")) 1 ∷ []
        ≡ table ++ new_member (joining 12 (codes "audio")) 1 ∷ [])
unfolding join str_eq
join-IsTable_example =
    join-IsTable (joining 12 (codes "audio")) 1 table (refl, (refl, tt)) (omega arith) table-IsTable
      (table ++ new_member (joining 12 (codes "audio")) 1 ∷ [])
      (admission (joining 12 (codes "audio"))) refl

-- A camera that was suspended.
abbrev lost : Member
lost = member 20 (codes "camera") true [] []

join_renews_example :
    join (joining 21 (codes "camera")) 1 ([] ++ lost ∷ display ∷ [])
    ≡ join_accepted
        (([] ++ display ∷ []) ++ new_member (joining 21 (codes "camera")) 1 ∷ [])
        (admission (joining 21 (codes "camera")))
unfolding str_eq
join_renews_example =
    join_renews (joining 21 (codes "camera")) 1 [] lost (display ∷ []) refl (ground arith) refl refl
      refl refl

lost_table-IsTable : IsTable ([] ++ lost ∷ display ∷ [])
unfolding str_eq
lost_table-IsTable = (refl, refl, (refl, refl, tt))

join_skips_example :
    (ns : List Member) × (join (joining 11 (codes "camera")) 1 ([] ++ lost ∷ display ∷ [])
      ≡ join_accepted ns (admission (joining 11 (codes "camera"))))
    × (count_pid 11 ([] ++ lost ∷ display ∷ []) ≡ 1)
    × (count_pid 11 ns ≡ 2)
join_skips_example =
    join_skips (joining 11 (codes "camera")) 1 [] lost display [] lost_table-IsTable refl refl refl
