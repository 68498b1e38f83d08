-- ===== src/Page/Install.antt =====
-- pwa.js: the button that installs the console as an app, and the offer of the browser that it keeps.
use mikrollm.Base.{
  ℕ, zero, suc, ◌≡◌, refl, Option, none, some, Bool, true, false, List, [], ◌∷◌, ◌==◌, nat_eq, any,
  all, arith,
}

-- The variable `deferred` with the offer it holds, whether the button is hidden, and the offers whose
-- choice the user has not yet made, with every prompt that was shown, the last one first.
pub record Install : Type 0 where
  pub deferred : Option ℕ
  pub hidden : Bool
  pub choosing : ℕ
  pub prompts : List ℕ

-- The browser offers to install, tells that it has, the user clicks, the user has chosen.
pub data Event : Type 0 where
  offers : ℕ → Event
  installed clicks chosen : Event

unfoldable pub drop_offer : Install → Install
drop_offer s = record s { deferred = none; hidden = true }

abbrev pub prompt_for : Option ℕ → Install → Install
prompt_for none s = s
prompt_for (some e) s = record s { choosing = suc s.choosing; prompts = e ∷ s.prompts }

-- `userChoice.finally`; without a prompt there is no choice.
abbrev settle : ℕ → Install → Install
settle zero s = s
settle (suc n) s = drop_offer (record s { choosing = n })

unfoldable pub happen : Event → Install → Install
happen (offers e) s = record s { deferred = some e; hidden = false }
happen installed s = drop_offer s
happen clicks s = prompt_for s.deferred s
happen chosen s = settle s.choosing s

unfoldable pub history : List Event → Install → Install
history [] s = s
history (e ∷ es) s = history es (happen e s)

abbrev pub is_none : Option ℕ → Bool
is_none none = true
is_none (some e) = false

-- The page as it is loaded.
abbrev pub loaded : Install
loaded = record { deferred = none; hidden = true; choosing = 0; prompts = [] }

-- The offers that the browser has made, the last one first, after `past` ones.
abbrev pub offered : List Event → List ℕ → List ℕ
offered [] past = past
offered (offers e ∷ es) past = offered es (e ∷ past)
offered (installed ∷ es) past = offered es past
offered (clicks ∷ es) past = offered es past
offered (chosen ∷ es) past = offered es past

-- An offer is one of `past`.
abbrev pub is_past : List ℕ → ℕ → Bool
is_past past e = any (λ o. o == e) past

abbrev pub IsHeld : List ℕ → Option ℕ → Type 0
IsHeld past none = Unit
IsHeld past (some e) = is_past past e ≡ true

-- The script holds, and has prompted for, offers of `past` only.
pub record IsHonest (past : List ℕ) (s : Install) : Type 0 where
  pub held : IsHeld past s.deferred
  pub asked : all (is_past past) s.prompts ≡ true

all-past :
    (e : ℕ) (past ps : List ℕ) → all (is_past past) ps ≡ true → all (is_past (e ∷ past)) ps ≡ true
all-past e past [] h = refl
all-past e past (p ∷ ps) h = ground (arith, all-past e past ps)

prompt_for-IsHonest :
    (past : List ℕ) (o : Option ℕ) (s : Install)
    → IsHeld past o
    → IsHonest past s
    → IsHonest past (prompt_for o s)
prompt_for-IsHonest past none s held h = h
prompt_for-IsHonest past (some e) s held h = record {
  held = h.held;
  asked = rw (held, h.asked) refl;
}

settle-IsHonest :
    (past : List ℕ) (n : ℕ) (s : Install) → IsHonest past s → IsHonest past (settle n s)
unfolding drop_offer
settle-IsHonest past zero s h = h
settle-IsHonest past (suc n) s h = record { held = tt; asked = h.asked }

history-IsHonest :
    (past : List ℕ) (es : List Event) (s : Install)
    → IsHonest past s
    → IsHonest (offered es past) (history es s)
unfolding history happen drop_offer
history-IsHonest past [] s h = h
history-IsHonest past (offers e ∷ es) s h =
    history-IsHonest (e ∷ past) es (happen (offers e) s)
      (record { held = ground arith; asked = all-past e past s.prompts h.asked })
history-IsHonest past (installed ∷ es) s h =
    history-IsHonest past es (happen installed s) (record { held = tt; asked = h.asked })
history-IsHonest past (clicks ∷ es) s h =
    history-IsHonest past es (happen clicks s) (prompt_for-IsHonest past s.deferred s h.held h)
history-IsHonest past (chosen ∷ es) s h =
    history-IsHonest past es (happen chosen s) (settle-IsHonest past s.choosing s h)

happen-hidden :
    (e : Event) (s : Install)
    → s.hidden ≡ is_none s.deferred
    → (happen e s).hidden ≡ is_none (happen e s).deferred
unfolding happen drop_offer
happen-hidden (offers e) s h = refl
happen-hidden installed s h = refl
happen-hidden clicks s h = clicked s.deferred
  where
    clicked : (o : Option ℕ) → (prompt_for o s).hidden ≡ is_none (prompt_for o s).deferred
    clicked none = h
    clicked (some e) = h
happen-hidden chosen s h = ended s.choosing
  where
    ended : (n : ℕ) → (settle n s).hidden ≡ is_none (settle n s).deferred
    ended zero = h
    ended (suc n) = refl

history-hidden :
    (es : List Event) (s : Install)
    → s.hidden ≡ is_none s.deferred
    → (history es s).hidden ≡ is_none (history es s).deferred
unfolding history
history-hidden [] s h = h
history-hidden (e ∷ es) s h = history-hidden es (happen e s) (happen-hidden e s h)

-- Whatever the browser tells and the user does, from the page as it is loaded: the button is hidden if
-- and only if the script holds no offer, and the offer that it holds and those that it has prompted for
-- are offers that the browser made.
pub history-loaded :
    (es : List Event)
    → ((history es loaded).hidden ≡ is_none (history es loaded).deferred)
      × IsHonest (offered es []) (history es loaded)
history-loaded es = (
  history-hidden es loaded refl,
  history-IsHonest [] es loaded (record { held = tt; asked = refl }),
)
