-- ===== src/Examples/Requests.antt =====
-- The theorems on the parameters, the pictures and the streams, on small values.
use mikrollm.Base.{
  ℕ, ◌*◌, ◌≤◌, ◌≡◌, refl, Option, none, some, true, false, List, [], ◌∷◌, length, arith,
  if◌then◌else◌, ltb, list_beq,
}
use mikrollm.Base.Text.{Text, lit, is_empty}
use mikrollm.Catalog.Band.{Floats}
use mikrollm.Chat.Params.{Param, Schema, Composed, Element, max_refs, add_ref_files, remove_ref}
use mikrollm.Chat.Params.Laws.{length-add_ref_files}
use mikrollm.Chat.Params.Load.{
  Panel, Request, key_of, cached, load, answer, IsSound, IsReachable, opened, sent, answered,
  reachable-IsSound, load-order, load-overtaken,
}
use mikrollm.Chat.Stream.{Chunk, Reading, pump}
use mikrollm.Chat.Stream.Laws.{pump-pieces}

pub ltb_trans : (a b c : ℕ) → ltb a b ≡ true → ltb b c ≡ true → ltb a c ≡ true
ltb_trans a b c h k = ground arith

-- Numbers by the count of their digits, in tenths.
abbrev pub lengths : Floats
lengths = record {
  Num = ℕ;
  parse_float = λ t. if is_empty t then none else some (10 * length t);
  lt = ltb;
  zero = 0;
  half = 5;
  two = 20;
  ten = 100;
  lt_trans = ltb_trans;
  half-lt-two = refl;
  two-lt-ten = refl;
}

abbrev param : Text → Text → Param
param name typ = record { name = name; typ = typ; required = false; default = none; enum = [] }

abbrev pub schema : Schema
schema = record {
  parameters =
      param (lit "prompt") (lit "string")
      ∷ param (lit "input_image") (lit "image")
      ∷ param (lit "input_video") (lit "string")
      ∷ param (lit "seed") (lit "integer")
      ∷ [];
  required_parameters = lit "seed" ∷ [];
}

abbrev pub composed : Composed
composed = record { temp = []; max = [] }

abbrev pub typed : Element → Element
typed e = record e { value = lit "7" }

abbrev five : List Text
five = lit "1" ∷ lit "2" ∷ lit "3" ∷ lit "4" ∷ lit "5" ∷ []

length-add_ref_files_example :
    (length (add_ref_files (some (lit "6") ∷ some (lit "7") ∷ []) five five) ≤ max_refs)
    × (length (remove_ref 2 five) ≤ length five)
length-add_ref_files_example =
    length-add_ref_files (some (lit "6") ∷ some (lit "7") ∷ []) five five 2 (omega arith)
      (omega arith)

abbrev server : Text → Schema
server model =
    if is_empty model then record { parameters = []; required_parameters = [] } else schema

abbrev empty_panel : Panel
empty_panel = record { schema = none; cache = []; req = 0 }

abbrev asks : ℕ → Text → Request
asks n model = record { number = n; key = key_of (lit "chat") model; model = model }

m_sent : (load (lit "chat") (lit "m") empty_panel).1 ≡ some (asks 1 (lit "m"))
unfolding load cached lit
m_sent = refl

answered_once :
    IsReachable server
      (answer (asks 1 (lit "m")) (server (lit "m")) (load (lit "chat") (lit "m") empty_panel).0)
      (asks 1 (lit "m") ∷ [])
answered_once =
    answered [] [] (asks 1 (lit "m")) (sent (lit "chat") (lit "m") (asks 1 (lit "m")) opened m_sent)

reachable-IsSound_example :
    IsSound server
      (answer
        (asks 1 (lit "m"))
        (server (lit "m"))
        (load (lit "chat") (lit "m") empty_panel).0).cache
reachable-IsSound_example = reachable-IsSound server answered_once

m_there : is_empty (lit "m") ≡ false
unfolding lit
m_there = refl

n_there : is_empty (lit "n") ≡ false
unfolding lit
n_there = refl

nothing_cached : (k : Text) → cached k [] ≡ none
unfolding cached
nothing_cached k = refl

n_sent :
    (load (lit "chat") (lit "n") (load (lit "chat") (lit "m") empty_panel).0).1
    ≡ some (asks 2 (lit "n"))
unfolding load cached lit
n_sent = refl

load-order_example :
    ((answer (asks 2 (lit "n")) (server []) (
        answer
          (asks 1 (lit "m"))
          schema
          (load (lit "chat") (lit "n") (load (lit "chat") (lit "m") empty_panel).0).0)).schema
      ≡ some (server []))
    × ((answer (asks 1 (lit "m")) schema (
          answer
            (asks 2 (lit "n"))
            (server [])
            (load (lit "chat") (lit "n") (load (lit "chat") (lit "m") empty_panel).0).0)).schema
        ≡ some (server []))
load-order_example =
    load-order (lit "chat") (lit "m") (lit "chat") (lit "n") schema (server []) empty_panel
      (asks 1 (lit "m")) (asks 2 (lit "n")) m_there (nothing_cached _) n_there (nothing_cached _)
      m_sent n_sent

-- A panel with the schema of the model n in its cache.
abbrev n_panel : Panel
n_panel = record { schema = none; cache = (key_of (lit "chat") (lit "n"), server []) ∷ []; req = 4 }

m_missing : cached (key_of (lit "chat") (lit "m")) n_panel.cache ≡ none
unfolding cached key_of lit list_beq
m_missing = refl

n_cached : cached (key_of (lit "chat") (lit "n")) n_panel.cache ≡ some (server [])
unfolding cached key_of lit list_beq
n_cached = refl

m_asked : (load (lit "chat") (lit "m") n_panel).1 ≡ some (asks 5 (lit "m"))
unfolding load cached key_of lit list_beq
m_asked = refl

load-overtaken_example :
    ((load (lit "chat") (lit "n") (load (lit "chat") (lit "m") n_panel).0).0.schema
      ≡ some (server []))
    × ((answer
          (asks 5 (lit "m"))
          schema
          (load (lit "chat") (lit "n") (load (lit "chat") (lit "m") n_panel).0).0).schema
        ≡ some schema)
load-overtaken_example =
    load-overtaken (lit "chat") (lit "m") (lit "chat") (lit "n") schema (server []) n_panel
      (asks 5 (lit "m")) m_there m_missing n_there n_cached m_asked

abbrev as_content : Text → Option Chunk
as_content t =
    if is_empty t
    then none
    else some
        (record { reasoning = []; reasoning_content = []; content = t; whole = []; error = [] })

abbrev unread : Reading
unread = record { acc = []; think = []; buf = [] }

pump-pieces_example :
    pump as_content ((97 ∷ []) ∷ (10 ∷ 98 ∷ 10 ∷ []) ∷ []) unread
    ≡ pump as_content ((97 ∷ 10 ∷ 98 ∷ 10 ∷ []) ∷ []) unread
pump-pieces_example =
    pump-pieces as_content (97 ∷ []) (97 ∷ 10 ∷ 98 ∷ 10 ∷ []) ((10 ∷ 98 ∷ 10 ∷ []) ∷ []) [] unread
      refl
