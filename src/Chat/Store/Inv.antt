-- ===== src/Chat/Store/Inv.antt =====
-- Skeletons that grow, shrink and are looked up, and writes to the arrays of a chat.
pub mod Moves
use mikrollm.Base.{
  ℕ, zero, suc, ◌+◌, ◌<◌, ◌≤◌, ◌≡◌, ◌≢◌, refl, sym, ap, ◌∙◌, Option, none, some, Bool, true, false,
  not, ◌&&◌, ◌||◌, List, [], ◌∷◌, ◌++◌, map, if◌then◌else◌, ◌==◌, ◌!=◌, text_eq, nat_eq, eq_iff,
  select, arith, Bool-cases, inl, inr, Option-cases,
}
use mikrollm.Base.Text.{Text}
use mikrollm.Chat.{Message}
use mikrollm.Chat.Store.{Chat, App, write}
use mikrollm.Chat.Store.View.{Skeleton, skeleton, addr, HasNo, IsProper, read}

HasNo-addr : (a : ℕ) (id : Text) (sk : Skeleton) → HasNo a sk → addr id sk ≡ some a → ⊥
unfolding addr
HasNo-addr a id [] h e = cc
HasNo-addr a id ((k, b) ∷ sk) h e = ground (arith, HasNo-addr a id sk h.1)

-- No two chats share an array.
pub addr_inj :
    (n a : ℕ) (i j : Text) (sk : Skeleton)
    → IsProper n sk
    → addr i sk ≡ some a
    → addr j sk ≡ some a
    → i ≡ j
unfolding addr
addr_inj n a i j [] h p q = cc
addr_inj n a i j ((k, b) ∷ sk) h p q =
    ground
      (arith, eq_iff k i, eq_iff k j, HasNo-addr a i sk, HasNo-addr a j sk, addr_inj n a i j sk h.3)

pub addr-lt : (n a : ℕ) (id : Text) (sk : Skeleton) → IsProper n sk → addr id sk ≡ some a → a < n
unfolding addr
addr-lt n a id [] h e = cc
addr-lt n a id ((k, b) ∷ sk) h e = ground (arith, addr-lt n a id sk h.3)

-- A write to the array of one chat changes the thread of that chat, and no other.
pub read-write :
    (n a : ℕ) (id j : Text) (sk : Skeleton) (ms : List Message) (heap : ℕ → List Message)
    → IsProper n sk
    → addr id sk ≡ some a
    → read (write a ms heap) (addr j sk) ≡ (if j == id then some ms else read heap (addr j sk))
unfolding read
read-write n a id j sk ms heap h e = ground (arith, eq_iff j id, addr_inj n a id j sk h e)

-- A write to an address that no chat has changes no thread.
pub read-write_unused :
    (n a : ℕ) (j : Text) (sk : Skeleton) (ms : List Message) (heap : ℕ → List Message)
    → IsProper n sk
    → n ≤ a
    → read (write a ms heap) (addr j sk) ≡ read heap (addr j sk)
unfolding read
read-write_unused n a j sk ms heap h le = ground (arith, addr-lt n a j sk h)

HasNo-weaken : (a n : ℕ) (sk : Skeleton) → IsProper n sk → n ≤ a → HasNo a sk
HasNo-weaken a n [] h le = tt
HasNo-weaken a n ((k, b) ∷ sk) h le = (omega (arith, h.1), HasNo-weaken a n sk h.3 le)

pub addr-snoc :
    (j id : Text) (a : ℕ) (sk : Skeleton)
    → addr id sk ≡ none
    → addr j (sk ++ (id, a) ∷ []) ≡ (if j == id then some a else addr j sk)
unfolding addr
addr-snoc j id a [] h = ground (arith, eq_iff id j, eq_iff j id)
addr-snoc j id a ((k, b) ∷ sk) h =
    ground (arith, eq_iff k j, eq_iff k id, eq_iff j id, addr-snoc j id a sk)

HasNo-snoc :
    (b a : ℕ) (id : Text) (sk : Skeleton) → HasNo b sk → b ≢ a → HasNo b (sk ++ (id, a) ∷ [])
HasNo-snoc b a id [] h ne = (ne, tt)
HasNo-snoc b a id ((k, c) ∷ sk) h ne = (h.0, HasNo-snoc b a id sk h.1 ne)

-- A chat with a new id and a new array keeps the skeleton proper.
pub IsProper-snoc :
    (n m a : ℕ) (id : Text) (sk : Skeleton)
    → IsProper n sk
    → addr id sk ≡ none
    → n ≤ a
    → a < m
    → IsProper m (sk ++ (id, a) ∷ [])
unfolding addr
IsProper-snoc n m a id [] h e le lt = (refl, lt, tt, tt)
IsProper-snoc n m a id ((k, b) ∷ sk) h e le lt =
    let rest : addr id sk ≡ none = ground arith in
    (
      ground (arith, eq_iff k id, addr-snoc k id a sk),
      omega (arith, h.1),
      HasNo-snoc b a id sk h.2 (omega (arith, h.1)),
      IsProper-snoc n m a id sk h.3 rest le lt,
    )

pub addr-select :
    (j id : Text) (cs : List Chat)
    → addr j (skeleton (select (λ c. c.id != id) cs))
      ≡ (if j == id then none else addr j (skeleton cs))
unfolding addr
addr-select j id [] = ground arith
addr-select j id (c ∷ cs) =
    ground (arith, eq_iff c.id j, eq_iff c.id id, eq_iff j id, addr-select j id cs)

HasNo-select :
    (a : ℕ) (id : Text) (cs : List Chat)
    → HasNo a (skeleton cs)
    → HasNo a (skeleton (select (λ c. c.id != id) cs))
HasNo-select a id [] h = tt
HasNo-select a id (c ∷ cs) h = ground (arith, HasNo-select a id cs h.1)

-- Dropping a chat keeps the skeleton proper.
pub IsProper-select :
    (n : ℕ) (id : Text) (cs : List Chat)
    → IsProper n (skeleton cs)
    → IsProper n (skeleton (select (λ c. c.id != id) cs))
IsProper-select n id [] h = tt
IsProper-select n id (c ∷ cs) h =
    ground (
      arith,
      addr-select c.id id cs,
      HasNo-select c.messages id cs h.2,
      IsProper-select n id cs h.3,
    )
