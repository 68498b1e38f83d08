-- ===== src/Board/Live.antt =====
-- How the board of queues keeps asking for them (`tick` of `queueBoard`), and what it shows.
use mikrollm.Base.{
  ℕ, zero, suc, ◌+◌, ◌≡◌, refl, ◌∙◌, Option, none, some, false, List, [], ◌∷◌, if◌then◌else◌, ◌==◌,
  nat_eq, arith,
}
use mikrollm.Base.Text.{Text}
use mikrollm.Board.{Queue, board_html}

-- The content of `#q-list`, the requests under way, and the timers that will call `tick`.
pub record Live : Type 0 where
  pub inner_html : Text
  pub requests : ℕ
  pub timers : ℕ

-- A request is answered, or fails in one of its steps; a timer fires.
pub data Event : Type 0 where
  answers : List Queue → Event
  fails fires : Event

unfoldable pub tick : Live → Live
tick b = record b { requests = suc b.requests }

abbrev pub one_less : ℕ → ℕ
one_less zero = zero
one_less (suc n) = n

-- The last `then` of a request: `setTimeout(tick, 1000)`.
unfoldable pub wait_again : Live → Live
wait_again b = record b { requests = one_less b.requests; timers = suc b.timers }

module _ (digits : ℕ → Text) where
  -- An event that cannot happen changes nothing.
  unfoldable pub happen : Event → Live → Live
  happen (answers qs) b =
      if b.requests == 0 then b else wait_again (record b { inner_html = board_html digits qs })
  happen fails b = if b.requests == 0 then b else wait_again b
  happen fires b = if b.timers == 0 then b else tick (record b { timers = one_less b.timers })

  unfoldable pub history : List Event → Live → Live
  history [] b = b
  history (e ∷ es) b = history es (happen e b)

  -- The page as it is loaded, after the first `tick`.
  abbrev pub begun : Text → Live
  begun old = tick (record { inner_html = old; requests = 0; timers = 0 })

  abbrev asks : Live → ℕ
  asks b = b.requests + b.timers

  one_less_lem : (n : ℕ) → (n == 0) ≡ false → suc (one_less n) ≡ n
  one_less_lem zero h = absurd (cc h)
  one_less_lem (suc n) h = refl

  happen-asks : (e : Event) (b : Live) → asks (happen e b) ≡ asks b
  unfolding happen wait_again tick
  happen-asks (answers qs) b = ground (arith, one_less_lem b.requests)
  happen-asks fails b = ground (arith, one_less_lem b.requests)
  happen-asks fires b = ground (arith, one_less_lem b.timers)

  asks-begun : (old : Text) → asks (begun old) ≡ 1
  unfolding tick
  asks-begun old = refl

  history-asks : (es : List Event) (b : Live) → asks (history es b) ≡ asks b
  unfolding history
  history-asks [] b = refl
  history-asks (e ∷ es) b = history-asks es (happen e b) ∙ happen-asks e b

  -- Rounds of the board: each request is answered or fails, and its timer fires.
  abbrev pub rounds : List (Option (List Queue)) → List Event
  rounds [] = []
  rounds (none ∷ rs) = fails ∷ fires ∷ rounds rs
  rounds (some qs ∷ rs) = answers qs ∷ fires ∷ rounds rs

  -- What the last answer says.
  abbrev pub last_shown : Text → List (Option (List Queue)) → Text
  last_shown old [] = old
  last_shown old (none ∷ rs) = last_shown old rs
  last_shown old (some qs ∷ rs) = last_shown (board_html digits qs) rs

  history-rounds :
      (rs : List (Option (List Queue))) (old : Text)
      → history (rounds rs) (begun old) ≡ begun (last_shown old rs)
  unfolding history happen wait_again tick
  history-rounds [] old = refl
  history-rounds (none ∷ rs) old = history-rounds rs old
  history-rounds (some qs ∷ rs) old = history-rounds rs (board_html digits qs)

  -- However requests and timers are ordered, the board has at every time either one request under way
  -- or one timer that will make one, so it asks forever and never twice at once. After any number of
  -- rounds, with answers and failures, it shows what the last answer says, or what it showed before if
  -- there was none, and has its next request under way.
  pub history-board :
      (es : List Event) (rs : List (Option (List Queue))) (old : Text)
      → ((history es (begun old)).requests + (history es (begun old)).timers ≡ 1)
        × (history (rounds rs) (begun old) ≡ begun (last_shown old rs))
  history-board es rs old = (history-asks es (begun old) ∙ asks-begun old, history-rounds rs old)
