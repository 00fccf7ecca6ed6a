-- ===== src/Console/Queried.antt =====
-- What `eipcmsg -q` of src/easyipc_console.c shows, from its arguments through
-- `ipcctl_analysis_core` of src/easyipc_daemon.c.
use easyipc.Base.{
  ℕ, zero, suc, ◌<◌, ◌≤◌, Bool, true, false, ◌&&◌, List, [], ◌∷◌, ◌++◌, ◌≡◌, refl, ap, sym, ◌∙◌,
  arith, length, map, is_some, All, if◌then◌else◌,
}
use easyipc.Base.Text.{Text, nonempty, snprintf, snprintf-of_lt}
use easyipc.Registry.{Entry, Member}
use easyipc.Misc.{strstri}
use easyipc.Misc.Listing.{
  Line, blank, arrow, matches, query_entries, query_members, is_message, msg_query,
}
use easyipc.Plugin.Parse.{Cjson}
use easyipc.Control.{Control, msg, Host, replied, line, ctl_analysis_core}
use easyipc.Console.{key_word_max_size, key_word_max_index, keywords, query}

-- A key word that is not empty and fits its array.
abbrev pub IsWord : Text → Type 0
IsWord w = (nonempty w ≡ true) × (length w < key_word_max_size)

-- All words occur in the name, upper and lower case alike.
abbrev pub contains_all : List Text → Text → Bool
contains_all [] name = true
contains_all (w ∷ ws) name = is_some (strstri name w) && contains_all ws name

-- The messages of a process, and of all processes, whose names contain all words.
abbrev pub hits_of : List Text → Text → List Entry → List Line
hits_of ws pname [] = []
hits_of ws pname (e ∷ es) =
    if contains_all ws e.msg_name
    then arrow pname e.msg_name ∷ hits_of ws pname es
    else hits_of ws pname es

abbrev pub hits : List Text → List Member → List Line
hits ws [] = []
hits ws (m ∷ ms) = hits_of ws m.pname m.pmsg_list ++ hits ws ms

matches-keywords :
    (k : ℕ) (ws : List Text) (name : Text)
    → All IsWord ws
    → length ws ≤ k
    → matches (keywords k ws) name ≡ contains_all ws name
unfolding matches keywords
matches-keywords zero [] name is h = refl
matches-keywords zero (w ∷ ws) name is h = absurd (omega arith)
matches-keywords (suc k) [] name is h = matches-keywords k [] name is (omega arith)
matches-keywords (suc k) (w ∷ ws) name is h =
    let fits : snprintf key_word_max_size w ≡ w = snprintf-of_lt key_word_max_size w is.0.1 in
    rw (fits, is.0.0, matches-keywords k ws name is.1 (omega arith))

module _ (vs ws : List Text) (same : (name : Text) → matches vs name ≡ contains_all ws name) where
  query_entries-hits :
      (pname : Text) (es : List Entry) → query_entries vs pname es ≡ hits_of ws pname es
  unfolding query_entries
  query_entries-hits pname [] = refl
  query_entries-hits pname (e ∷ es) = rw (same e.msg_name, query_entries-hits pname es)

  query_members-hits : (ms : List Member) → query_members vs ms ≡ hits ws ms
  unfolding query_members
  query_members-hits [] = refl
  query_members-hits (m ∷ ms) =
      rw (query_members, query_entries-hits m.pname m.pmsg_list, query_members-hits ms)

query-msg : (w : Text) (ws : List Text) → IsWord w → query (w ∷ ws) ≡ msg w (keywords 5 ws)
unfolding query keywords
query-msg w ws is = ap (λ v. msg v (keywords 5 ws)) (snprintf-of_lt key_word_max_size w is.1)

msg_query-hits :
    (w : Text) (ws : List Text) (ms : List Member)
    → All IsWord (w ∷ ws)
    → length ws < key_word_max_index
    → is_message w ms ≡ false
    → msg_query w (keywords 5 ws) ms ≡ blank ∷ (hits (w ∷ ws) ms ++ blank ∷ [])
unfolding msg_query keywords
msg_query-hits w ws ms is room new =
    let fits : snprintf key_word_max_size w ≡ w = snprintf-of_lt key_word_max_size w is.0.1 in
    let found : query_members (w ∷ keywords 5 ws) ms ≡ hits (w ∷ ws) ms =
      query_members-hits (w ∷ keywords 5 ws) (w ∷ ws)
        (λ name.
          ap (λ v. matches (v ∷ keywords 5 ws) name) (sym fits)
          ∙ matches-keywords 6 (w ∷ ws) name is (omega arith))
        ms in
    rw (msg_query, is.0.0, new, found)

module _ (J : Cjson) (host : Host J) (c : Control J.Json) where
  -- Let `eipcmsg -q` have one to six key words, none empty and each shorter than its array, of
  -- which the first is not exactly the name of a registered message. Then
  -- `ipcctl_analysis_core`, on its request, shows exactly the registered messages that contain
  -- all key words, upper and lower case alike, each with its process and in the order of the
  -- table, between two blank lines, and changes nothing.
  pub query-hits :
      (w : Text) (ws : List Text)
      → All IsWord (w ∷ ws)
      → length ws < key_word_max_index
      → is_message w c.plugins.targets.mlist ≡ false
      → ctl_analysis_core J host (query (w ∷ ws)) c
        ≡ replied c (map line (blank ∷ (hits (w ∷ ws) c.plugins.targets.mlist ++ blank ∷ [])))
  unfolding ctl_analysis_core
  query-hits w ws is room new =
      let ms = c.plugins.targets.mlist in
      ap (λ q. ctl_analysis_core J host q c) (query-msg w ws is.0)
      ∙ ap (λ ls. replied c (map line ls)) (msg_query-hits w ws ms is room new)
