-- ===== src/Chat/Store/Steps/Close.antt =====
-- The close-button of a tab.
use mikrollm.Base.{
  ℕ, ◌≡◌, refl, ap, ◌∙◌, Option, none, some, Bool, true, false, List, [], ◌∷◌, if◌then◌else◌, ◌==◌,
  ◌!=◌, text_eq, eq_iff, arith, Bool-cases, inl, inr, Option-cases, select, last?,
}
use mikrollm.Base.Text.{Text, is_empty}
use mikrollm.Chat.{Message}
use mikrollm.Chat.Store.{Chat, Bag, App, persist}
use mikrollm.Chat.Store.Ops.{switch_chat, new_chat, close_chat}
use mikrollm.Chat.Store.View.{
  skeleton, addr, IsProper, IsConsistent, read, thread, Same-IsConsistent, Same-thread,
  snapshot_chat-Same_missing,
}
use mikrollm.Chat.Store.Inv.{addr-select, IsProper-select}
use mikrollm.Chat.Store.Inv.Moves.{
  Switched-IsConsistent, Switched-thread, switch_chat-Switched, Grown-IsConsistent, Grown-thread,
  new_chat-Grown, persist-Same,
}

-- The threads after a chat is closed; a fresh empty one replaces the sole chat.
abbrev pub close_threads :
    Bool → Text → Text → (Text → Option (List Message)) → Text → Option (List Message)
close_threads sole fresh id th j =
    if sole then (if j == fresh then some [] else none) else if j == id then none else th j

abbrev rest : Text → App → App
rest id s = record s { chats = select (λ c. c.id != id) s.chats }

unfoldable pub Closed : App → App → Text → Text → Type 0
Closed s t fresh id =
    IsConsistent t
    × ((j : Text)
        → thread t j
          ≡ close_threads (is_empty (select (λ c. c.id != id) s.chats)) fresh id (thread s) j)

pub last?-addr :
    (cs : List Chat) (c : Chat) → last? cs ≡ some c → (a : ℕ) × (addr c.id (skeleton cs) ≡ some a)
unfolding addr
last?-addr [] c h = cc
last?-addr (d ∷ []) c h = (d.messages, ground (arith, eq_iff d.id c.id))
last?-addr (d ∷ e ∷ cs) c h = elim (Bool-cases (d.id == c.id)) [
  | inl y ↦ (d.messages, rw y refl)
  | inr n ↦ let (a, found) = last?-addr (e ∷ cs) c h in (a, rw n found)
]

pub last?-none : (cs : List Chat) → last? cs ≡ none → cs ≡ []
last?-none [] h = refl
last?-none (d ∷ []) h = cc
last?-none (d ∷ e ∷ cs) h = cc (last?-none (e ∷ cs) h)

pub last?-nonempty : (cs : List Chat) (c : Chat) → last? cs ≡ some c → is_empty cs ≡ false
last?-nonempty [] c h = cc
last?-nonempty (d ∷ cs) c h = refl

thread-rest :
    (s : App) (id j : Text) → thread (rest id s) j ≡ (if j == id then none else thread s j)
unfolding thread read
thread-rest s id j = ground (arith, addr-select j id s.chats)

module _ (takes : Bag → Bool) (fresh id : Text) (s : App) (h : IsConsistent s) where
  IsProper-rest : IsProper s.next (skeleton (rest id s).chats)
  IsProper-rest = IsProper-select s.next id s.chats h.proper

  missing_of_nil : (x : Text) → (rest id s).chats ≡ [] → addr x (skeleton (rest id s).chats) ≡ none
  unfolding addr
  missing_of_nil x e = rw e refl

  no_thread : (j : Text) → (rest id s).chats ≡ [] → thread (rest id s) j ≡ none
  unfolding thread read
  no_thread j e = rw (missing_of_nil j e) refl

  close_sole :
      (rest id s).chats ≡ []
      → IsConsistent (new_chat takes fresh (rest id s))
        × ((j : Text)
            → thread (new_chat takes fresh (rest id s)) j ≡ (if j == fresh then some [] else none))
  close_sole e =
      let free = missing_of_nil fresh e in
      let same = snapshot_chat-Same_missing (rest id s) (missing_of_nil s.active e) in
      let grown = new_chat-Grown takes (rest id s) fresh same free in
      (
        Grown-IsConsistent grown IsProper-rest free,
        λ j.
            Grown-thread grown IsProper-rest free j
            ∙ ap (λ (o : Option (List Message)). if j == fresh then some [] else o) (no_thread j e),
      )

  close_active :
      (c : Chat)
      → last? (rest id s).chats ≡ some c
      → (s.active == id) ≡ true
      → IsConsistent (switch_chat takes c.id (rest id s))
        × ((j : Text) → thread (switch_chat takes c.id (rest id s)) j ≡ thread (rest id s) j)
  close_active c l e =
      let (a, found) = last?-addr (rest id s).chats c l in
      let gone : addr s.active (skeleton (rest id s).chats) ≡ none =
        ground (arith, addr-select s.active id s.chats) in
      let other : (c.id == s.active) ≡ false = ground (arith, eq_iff c.id s.active) in
      let moved =
        switch_chat-Switched takes (rest id s) c.id a IsProper-rest
          (snapshot_chat-Same_missing (rest id s) gone) other found in
      (Switched-IsConsistent moved IsProper-rest found, Switched-thread moved)

  close_other :
      (s.active == id) ≡ false
      → IsConsistent (persist takes (rest id s))
        × ((j : Text) → thread (persist takes (rest id s)) j ≡ thread (rest id s) j)
  close_other e =
      let aliased : addr s.active (skeleton (rest id s).chats) ≡ some s.messages =
        ground (arith, addr-select s.active id s.chats, h.aliased) in
      let same = persist-Same takes (rest id s) aliased in
      (
        Same-IsConsistent same (record { proper = IsProper-rest; aliased = aliased }),
        Same-thread same,
      )

  pub close_chat-Closed : Closed s (close_chat takes fresh id s) fresh id
  unfolding close_chat Closed
  close_chat-Closed = elim (Option-cases (last? (rest id s).chats)) [
    | inl nothing ↦
        let e = last?-none (rest id s).chats nothing in
        let (c, t) = close_sole e in rw (nothing, close_chat) (c, λ j. t j ∙ rw e refl)
    | inr (c, l) ↦
        rw (l, close_chat)
          (rw (last?-nonempty _ c l) (elim (Bool-cases (s.active == id)) [
            | inl y ↦ rw y (let (k, t) = close_active c l y in (k, λ j. t j ∙ thread-rest s id j))
            | inr n ↦ rw n (let (k, t) = close_other n in (k, λ j. t j ∙ thread-rest s id j))
          ]))
  ]
