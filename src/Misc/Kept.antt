-- ===== src/Misc/Kept.antt =====
-- From `ipcd_log_save_and_print` through the ring in memory to `ipcd_misc_cat`: src/easyipc_debug.c
-- and src/easyipc_misc.c.
use easyipc.Base.{
  ℕ, zero, suc, ◌+◌, ◌-◌, ◌<◌, false, some, List, [], ◌∷◌, ◌++◌, ◌≡◌, refl, ap, sym, subst, ◌∙◌,
  arith, map, drop, length, All, ltb,
}
use easyipc.Base.Text.{Text, snprintf-of_lt}
use easyipc.Log.{Log, kept, memory_push, print_max_size}
use easyipc.Log.Ring.{IsRing, last, push_all, push_all_lem, memory_push-IsRing, empty_log}
use easyipc.Log.Format.{Event, save_buf}
use easyipc.Misc.{PrintPacket, cat_memory, crlf}
use easyipc.Misc.Selected.{at_index}
use easyipc.Misc.Logged.{
  IsEvent, wanted_lines, save_buf-raw_text, length-raw_text, cat_memory-save_buf,
}

memory_push-index :
    (size : ℕ) (t : Text) (maxsize : ℕ) (l : Log) → (memory_push size t maxsize l).index ≡ l.index
unfolding memory_push
memory_push-index size t maxsize l = ground arith

push_all-IsRing :
    (size maxsize : ℕ) (ts : List Text) (l : Log)
    → IsRing size l
    → IsRing size (push_all size maxsize ts l)
unfolding push_all
push_all-IsRing size maxsize [] l r = r
push_all-IsRing size maxsize (t ∷ ts) l r =
    push_all-IsRing size maxsize ts (memory_push size t maxsize l)
      (memory_push-IsRing size t maxsize l r)

push_all-index :
    (size maxsize : ℕ) (ts : List Text) (l : Log) → (push_all size maxsize ts l).index ≡ l.index
unfolding push_all
push_all-index size maxsize [] l = refl
push_all-index size maxsize (t ∷ ts) l =
    push_all-index size maxsize ts (memory_push size t maxsize l)
    ∙ memory_push-index size t maxsize l

kept-save_buf : (e : Event) → IsEvent e → kept (save_buf e) print_max_size ≡ save_buf e
unfolding kept
kept-save_buf e is =
    let short : length (save_buf e) < 4092 =
      subst (λ t. length t < 4092) (sym (save_buf-raw_text e is)) (length-raw_text e is).1 in
    let small : ltb print_max_size (length (save_buf e) + 1) ≡ false = ground arith in
    rw small (snprintf-of_lt (length (save_buf e) + 1) (save_buf e) (omega arith))

map-kept :
    (es : List Event)
    → All IsEvent es
    → map (λ t. kept t print_max_size) (map save_buf es) ≡ map save_buf es
map-kept [] is = refl
map-kept (e ∷ es) is = rw (kept-save_buf e is.0, map-kept es is.1)

drop-map : (k : ℕ) (es : List Event) → drop k (map save_buf es) ≡ map save_buf (drop k es)
drop-map zero es = refl
drop-map (suc k) [] = refl
drop-map (suc k) (e ∷ es) = drop-map k es

length-map : (es : List Event) → length (map save_buf es) ≡ length es
length-map [] = refl
length-map (e ∷ es) = ap suc (length-map es)

All-drop : (k : ℕ) (es : List Event) → All IsEvent es → All IsEvent (drop k es)
All-drop zero es is = is
All-drop (suc k) [] is = tt
All-drop (suc k) (e ∷ es) is = All-drop k es is.1

-- The last events that a log of the size keeps.
abbrev pub kept_events : ℕ → List Event → List Event
kept_events size es = drop (length es - suc size) es

-- A log at the start of its walk is its list.
at_start :
    (l : Log) (ts : List Text)
    → l.log_list ≡ ts
    → l.log_size ≡ length ts
    → l.index ≡ 0
    → l ≡ at_index [] ts
at_start l ts h n z = λ i. record { log_list = h i; log_size = n i; index = z i }

-- The log after the events, each saved through the ring.
abbrev pub logged : ℕ → List Event → Log
logged size es = push_all size print_max_size (map save_buf es) empty_log

logged-list :
    (size : ℕ) (es : List Event)
    → All IsEvent es
    → (logged size es).log_list ≡ map save_buf (kept_events size es)
logged-list size es is =
    push_all_lem size print_max_size (map save_buf es) empty_log
      (record { counted = refl; bounded = omega arith })
    ∙ ap (last (suc size)) (map-kept es is)
    ∙ ap (λ n. drop (n - suc size) (map save_buf es)) (length-map es)
    ∙ drop-map (length es - suc size) es

logged-at_index :
    (size : ℕ) (es : List Event)
    → All IsEvent es
    → logged size es ≡ at_index [] (map save_buf (kept_events size es))
logged-at_index size es is =
    let ring =
      push_all-IsRing size print_max_size (map save_buf es) empty_log
        (record { counted = refl; bounded = omega arith }) in
    at_start (logged size es) (map save_buf (kept_events size es)) (logged-list size es is)
      (ring.counted ∙ ap length (logged-list size es is))
      (push_all-index size print_max_size (map save_buf es) empty_log)

-- Let each event be of a level other than D, under a name of one word of at most 32 bytes, with
-- a text of less than 4000 bytes without NUL, let the events be formatted and pushed in turn
-- into an empty log in memory, and let no key word be wanted. Then with fuel for more than the
-- kept events `ipcd_misc_cat` ends and leaves the log as it was. It shows, among the last
-- events, one more than the size of the log, those of the wanted program, type and level, each
-- whole, in their order and in the colour of the level.
pub cat_memory-kept_events :
    (p : PrintPacket) (size : ℕ) (es : List Event) (fuel last_color : ℕ) (stack : List ℕ)
    → p.key_word ≡ []
    → All IsEvent es
    → length (kept_events size es) < fuel
    → cat_memory fuel p last_color stack (logged size es)
      ≡ some (wanted_lines p (kept_events size es) ++ crlf, logged size es)
cat_memory-kept_events p size es fuel last_color stack h is room = rw (logged-at_index size es is) (
    cat_memory-save_buf p (kept_events size es) fuel last_color stack h
      (All-drop (length es - suc size) es is) room)
