-- ===== src/Chat/Session/Laws.antt =====
-- How many requests each chat has under way, and what the operations do to that.
use mikrollm.Base.{
  ℕ, suc, ◌+◌, ◌≤◌, ◌≡◌, refl, Option, none, some, Bool, true, false, List, [], ◌∷◌, if◌then◌else◌,
  ◌==◌, text_eq, eq_iff, arith, Bool-cases, inl, inr,
}
use mikrollm.Base.Text.{Text}
use mikrollm.Chat.Store.{App}
use mikrollm.Chat.Store.View.{skeleton, addr, IsConsistent}
use mikrollm.Chat.Session.{Session, requested, without_one, Event, opens, closes}
use mikrollm.Chat.Session.Status.{status, set_status}
use mikrollm.Chat.Session.Lock.{Mirrors, close_status}

-- How many requests of a chat are under way.
unfoldable pub count : Text → List Text → ℕ
count id [] = 0
count id (r ∷ rs) = if r == id then suc (count id rs) else count id rs

-- A chat that is there is busy for its one request; one that was closed has at most one left.
abbrev pub Served : Option Bool → ℕ → Type 0
Served none n = n ≤ 1
Served (some b) n = n ≡ (if b then 1 else 0)

abbrev pub AllServed : App → List Text → Type 0
AllServed s rs = (j : Text) → Served (status j s.chats) (count j rs)

pub record IsSound (s : Session) : Type 0 where
  pub consistent : IsConsistent s.app
  pub mirrored : Mirrors s.locked s.app
  pub served : AllServed s.app s.requests

-- An id that `newChat` draws is the id of no chat and of no request that is under way.
abbrev pub IsFresh : Event → Session → Type 0
IsFresh (opens fresh) s =
    (addr fresh (skeleton s.app.chats) ≡ none) × (requested fresh s.requests ≡ false)
IsFresh (closes fresh id) s = requested fresh s.requests ≡ false
IsFresh _ s = Unit

pub count-requested : (id : Text) (rs : List Text) → requested id rs ≡ false → count id rs ≡ 0
unfolding count requested
count-requested id [] h = refl
count-requested id (r ∷ rs) h = ground (arith, count-requested id rs)

requested-count : (id : Text) (rs : List Text) → requested id rs ≡ true → 1 ≤ count id rs
unfolding count requested
requested-count id [] h = absurd (cc h)
requested-count id (r ∷ rs) h = ground (arith, requested-count id rs)

-- Where the chat `id` had a request under way it has one less.
count-without_one :
    (j id : Text) (rs : List Text)
    → 1 ≤ count id rs
    → (if j == id then 1 else 0) + count j (without_one id rs) ≡ count j rs
unfolding count without_one
count-without_one j id [] h = absurd (omega arith)
count-without_one j id (r ∷ rs) h =
    ground (arith, eq_iff r id, eq_iff r j, eq_iff j id, count-without_one j id rs)

Served-le : (o : Option Bool) (n : ℕ) → Served o n → n ≤ 1
Served-le none n h = h
Served-le (some true) n h = omega arith
Served-le (some false) n h = omega arith

pub Served-same : (o p : Option Bool) (n : ℕ) → p ≡ o → Served o n → Served p n
Served-same o p n e h = rw e h

pub Served-closed :
    (sole : Bool) (fresh id j : Text) (st : Text → Option Bool) (n : ℕ)
    → ((j == fresh) ≡ true → n ≡ 0)
    → Served (st j) n
    → Served (close_status sole fresh id st j) n
Served-closed true fresh id j st n free h = elim (Bool-cases (j == fresh)) [
  | inl y ↦ rw y (free y)
  | inr e ↦ rw e (Served-le (st j) n h)
]
Served-closed false fresh id j st n free h = elim (Bool-cases (j == id)) [
  | inl y ↦ rw y (Served-le (st j) n h)
  | inr e ↦ rw e h
]

-- A chat that was not busy gets a request.
pub Served-started :
    (id j : Text) (o : Option Bool) (rs : List Text)
    → ((j == id) ≡ true → o ≡ some false)
    → Served o (count j rs)
    → Served (set_status id true j o) (count j (id ∷ rs))
unfolding count
Served-started id j none rs idle h = elim (Bool-cases (j == id)) [
  | inl y ↦ absurd (cc (idle y))
  | inr n ↦ ground (arith, eq_iff id j, eq_iff j id)
]
Served-started id j (some b) rs idle h = elim (Bool-cases (j == id)) [
  | inl y ↦ ground (arith, eq_iff id j, eq_iff j id, idle y)
  | inr n ↦ ground (arith, eq_iff id j, eq_iff j id)
]

-- The request of a chat ends, and the chat is busy no more.
pub Served-ended :
    (id j : Text) (o : Option Bool) (rs : List Text)
    → requested id rs ≡ true
    → Served o (count j rs)
    → Served (set_status id false j o) (count j (without_one id rs))
Served-ended id j o rs r h = by_status o h
  where
    fewer : (if j == id then 1 else 0) + count j (without_one id rs) ≡ count j rs
    fewer = count-without_one j id rs (requested-count id rs r)

    by_status :
        (o : Option Bool)
        → Served o (count j rs)
        → Served (set_status id false j o) (count j (without_one id rs))
    by_status none k = ground (arith, fewer)
    by_status (some b) k = ground (arith, fewer, eq_iff j id, requested-count id rs r)
