-- ===== src/Chat/Params/Load.antt =====
-- `loadModelParams`: the schema of the chosen model, from the cache or from the server, and what the
-- answers do that come late.
use mikrollm.Base.{
  ℕ, ◌+◌, ◌≡◌, refl, Option, none, some, false, List, [], ◌∷◌, ◌++◌, All, if◌then◌else◌, ◌==◌,
  text_eq, nat_eq, arith, Bool-cases, inl, inr,
}
use mikrollm.Base.Text.{Text, lit, is_empty}
use mikrollm.Chat.Params.{Schema}

-- The variables `paramsSchema`, `paramsCache` (its keys and values) and `paramsReq`.
pub record Panel : Type 0 where
  pub schema : Option Schema
  pub cache : List (Text × Schema)
  pub req : ℕ

-- A request under way: what the closures of its handlers hold, and the model that it asks for.
pub record Request : Type 0 where
  pub number : ℕ
  pub key : Text
  pub model : Text

-- `genMode() + "|" + model`
unfoldable pub key_of : Text → Text → Text
unfolding lit
key_of mode model = mode ++ lit "|" ++ model

unfoldable pub cached : Text → List (Text × Schema) → Option Schema
cached k [] = none
cached k ((j, s) ∷ cache) = if j == k then some s else cached k cache

unfoldable pub keep_schema : Text → Schema → List (Text × Schema) → List (Text × Schema)
keep_schema k s [] = (k, s) ∷ []
keep_schema k s ((j, t) ∷ cache) = if j == k then (k, s) ∷ cache else (j, t) ∷ keep_schema k s cache

-- A call of `loadModelParams`: the panel behind it, and the request that it sends, if it sends one.
unfoldable pub load : Text → Text → Panel → Panel × Option Request
load mode model p =
    if is_empty model
    then (record p { schema = none }, none)
    else elim (cached (key_of mode model) p.cache) [
      | some s ↦ (record p { schema = some s }, none)
      | none ↦ (
        record p { req = p.req + 1 },
        some (record { number = p.req + 1; key = key_of mode model; model = model }),
      )
    ]

-- The answer to a request, and its failure.
unfoldable pub answer : Request → Schema → Panel → Panel
answer r s p =
    if r.number == p.req
    then record p { schema = some s; cache = keep_schema r.key s p.cache }
    else p

unfoldable pub lose : Request → Panel → Panel
lose r p =
    if r.number == p.req
    then record p { schema = some (record { parameters = []; required_parameters = [] }) }
    else p

-- A request that `load` may have made, by its key.
abbrev pub IsKeyed : Text → Request → Type 0
IsKeyed mode r = r.key ≡ key_of mode r.model

-- A cache whose every entry is the server's schema of the model in its key.
abbrev pub IsSound : (Text → Schema) → List (Text × Schema) → Type 0
IsSound server cache =
    All (λ e. (mode : Text) × (model : Text) × (e.0 ≡ key_of mode model) × (e.1 ≡ server model))
      cache

keep_schema-IsSound :
    (server : Text → Schema) (mode model : Text) (cache : List (Text × Schema))
    → IsSound server cache
    → IsSound server (keep_schema (key_of mode model) (server model) cache)
unfolding keep_schema
keep_schema-IsSound server mode model [] h = ((mode, model, refl, refl), tt)
keep_schema-IsSound server mode model ((j, t) ∷ cache) (e, h) =
    elim (Bool-cases (j == key_of mode model)) [
      | inl y ↦ rw y ((mode, model, refl, refl), h)
      | inr n ↦ rw n (e, keep_schema-IsSound server mode model cache h)
    ]

-- The panels that calls of `loadModelParams`, the server's answers and failures lead to, with the
-- requests that have been sent.
pub data IsReachable (server : Text → Schema) : Panel → List Request → Type 0 where
  opened : IsReachable server (record { schema = none; cache = []; req = 0 }) []
  quiet :
      {p : Panel} {rs : List Request} (mode model : Text)
      → IsReachable server p rs
      → (load mode model p).1 ≡ none
      → IsReachable server (load mode model p).0 rs
  sent :
      {p : Panel} {rs : List Request} (mode model : Text) (r : Request)
      → IsReachable server p rs
      → (load mode model p).1 ≡ some r
      → IsReachable server (load mode model p).0 (r ∷ rs)
  answered :
      {p : Panel} (rs ts : List Request) (r : Request)
      → IsReachable server p (rs ++ r ∷ ts)
      → IsReachable server (answer r (server r.model) p) (rs ++ r ∷ ts)
  failed :
      {p : Panel} (rs ts : List Request) (r : Request)
      → IsReachable server p (rs ++ r ∷ ts)
      → IsReachable server (lose r p) (rs ++ r ∷ ts)

load-cache : (mode model : Text) (p : Panel) → (load mode model p).0.cache ≡ p.cache
unfolding load
load-cache mode model p = ground arith

lose-cache : (r : Request) (p : Panel) → (lose r p).cache ≡ p.cache
unfolding lose
lose-cache r p = ground arith

abbrev AllKeyed : List Request → Type 0
AllKeyed rs = All (λ r. (mode : Text) × IsKeyed mode r) rs

load-AllKeyed :
    (mode model : Text) (p : Panel) (r : Request)
    → (load mode model p).1 ≡ some r
    → r.key ≡ key_of mode r.model
unfolding load
load-AllKeyed mode model p r h = ground arith

IsKeyed-at :
    (rs ts : List Request) (r : Request) → AllKeyed (rs ++ r ∷ ts) → (mode : Text) × IsKeyed mode r
IsKeyed-at [] ts r (k, h) = k
IsKeyed-at (q ∷ rs) ts r (k, h) = IsKeyed-at rs ts r h

answer-IsSound :
    (server : Text → Schema) (mode : Text) (r : Request) (p : Panel)
    → IsKeyed mode r
    → IsSound server p.cache
    → IsSound server (answer r (server r.model) p).cache
unfolding answer
answer-IsSound server mode r p k h = elim (Bool-cases (r.number == p.req)) [
  | inl y ↦ rw (y, k) (keep_schema-IsSound server mode r.model p.cache h)
  | inr n ↦ rw n h
]

reachable-IsSound' :
    (server : Text → Schema) {p : Panel} {rs : List Request}
    → IsReachable server p rs
    → IsSound server p.cache × AllKeyed rs
reachable-IsSound' server opened = (tt, tt)
reachable-IsSound' server (quiet {p} mode model w q) =
    rw (load-cache mode model p) (reachable-IsSound' server w)
reachable-IsSound' server (sent {p} mode model r w q) =
    let (s, k) = reachable-IsSound' server w in
    (rw (load-cache mode model p) s, ((mode, load-AllKeyed mode model p r q), k))
reachable-IsSound' server (answered {p} rs ts r w) =
    let (s, ks) = reachable-IsSound' server w in
    let (mode, k) = IsKeyed-at rs ts r ks in (answer-IsSound server mode r p k s, ks)
reachable-IsSound' server (failed {p} rs ts r w) = rw (lose-cache r p) (reachable-IsSound' server w)

-- Whatever models are chosen and whichever of the requests are answered or lost, in any order and
-- more than once, the cache holds under the key of a mode and a model only the schema that the
-- server gives for a model with that key.
pub reachable-IsSound :
    (server : Text → Schema) {p : Panel} {rs : List Request}
    → IsReachable server p rs
    → IsSound server p.cache
reachable-IsSound server w = (reachable-IsSound' server w).0

load-sent :
    (mode model : Text) (p : Panel)
    → is_empty model ≡ false
    → cached (key_of mode model) p.cache ≡ none
    → load mode model p ≡ (
      record p { req = p.req + 1 },
      some (record { number = p.req + 1; key = key_of mode model; model = model }),
    )
unfolding load
load-sent mode model p there missing = rw (there, missing) refl

answer-schema :
    (r : Request) (s : Schema) (p : Panel)
    → (answer r s p).schema ≡ (if r.number == p.req then some s else p.schema)
unfolding answer
answer-schema r s p = ground arith

answer-req : (r : Request) (s : Schema) (p : Panel) → (answer r s p).req ≡ p.req
unfolding answer
answer-req r s p = ground arith

-- The panel after loads of two models that are not in the cache.
abbrev pub AfterTwo : Panel → Panel → Request → Request → Type 0
AfterTwo p q a b = (q.req ≡ p.req + 2) × (a.number ≡ p.req + 1) × (b.number ≡ p.req + 2)

after_two :
    (mode first mode' second : Text) (p : Panel) (a b : Request)
    → is_empty first ≡ false
    → cached (key_of mode first) p.cache ≡ none
    → is_empty second ≡ false
    → cached (key_of mode' second) p.cache ≡ none
    → (load mode first p).1 ≡ some a
    → (load mode' second (load mode first p).0).1 ≡ some b
    → AfterTwo p (load mode' second (load mode first p).0).0 a b
unfolding load
after_two mode first mode' second p a b e1 c1 e2 c2 h1 h2 = ground arith

-- If two models are chosen one after the other and neither is in the cache, then once both requests
-- are answered the page has the schema of the second one, in whichever order the answers come.
pub load-order :
    (mode first mode' second : Text) (s t : Schema) (p : Panel) (a b : Request)
    → is_empty first ≡ false
    → cached (key_of mode first) p.cache ≡ none
    → is_empty second ≡ false
    → cached (key_of mode' second) p.cache ≡ none
    → (load mode first p).1 ≡ some a
    → (load mode' second (load mode first p).0).1 ≡ some b
    → ((answer b t (answer a s (load mode' second (load mode first p).0).0)).schema ≡ some t)
      × ((answer a s (answer b t (load mode' second (load mode first p).0).0)).schema ≡ some t)
load-order mode first mode' second s t p a b e1 c1 e2 c2 h1 h2 =
    let q = (load mode' second (load mode first p).0).0 in
    let (n, x, y) = after_two mode first mode' second p a b e1 c1 e2 c2 h1 h2 in
    (
      ground (arith, answer-schema b t (answer a s q), answer-req a s q, n, x, y),
      ground
          (arith, answer-schema a s (answer b t q), answer-schema b t q, answer-req b t q, n, x, y),
    )

-- If a model is chosen that is not in the cache, and then one that is, the page has the schema of
-- the second one only until the first one's request is answered: the answer replaces it, since a
-- choice from the cache does not count as a request.
pub load-overtaken :
    (mode first mode' second : Text) (s t : Schema) (p : Panel) (a : Request)
    → is_empty first ≡ false
    → cached (key_of mode first) p.cache ≡ none
    → is_empty second ≡ false
    → cached (key_of mode' second) p.cache ≡ some t
    → (load mode first p).1 ≡ some a
    → ((load mode' second (load mode first p).0).0.schema ≡ some t)
      × ((answer a s (load mode' second (load mode first p).0).0).schema ≡ some s)
unfolding load answer
load-overtaken mode first mode' second s t p a e1 c1 e2 c2 h1 = ground arith
