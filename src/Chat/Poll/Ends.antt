-- ===== src/Chat/Poll/Ends.antt =====
-- A poll comes to an end: once the time limit is past, every tick either ends it or leaves one
-- `.catch` less.
use mikrollm.Base.{
  ℕ, zero, suc, ◌+◌, ◌<◌, ◌≤◌, ◌≡◌, refl, Bool, true, false, not, ◌&&◌, List, [], ◌∷◌, ◌++◌, All,
  length, ltb, arith, Bool-cases, inl, inr,
}
use mikrollm.Base.Text.{Text}
use mikrollm.Chat.Store.Steps.{Action}
use mikrollm.Chat.Poll.{
  Kind, Moment, Outcome, waiting, done, abort_error, timed_out, fatal, Poll, Move, stops, goes,
  Verdict, ready, broken, unready, Reply, rate_limited, video_job_status, retry, give_up, conclude,
  hear, tick, follow, ticks, poll,
}
use mikrollm.Chat.Poll

abbrev pub is_over : Outcome → Bool
is_over waiting = false
is_over _ = true

-- A moment past the time limit, whether or not the signal is aborted.
abbrev pub IsPast : Kind → Moment → Type 0
IsPast k m = k.max_wait < m.elapsed

-- A move that ends the poll, or that goes on under at most one more `.catch`.
abbrev Bounded : ℕ → Move → Type 0
Bounded h (stops o acts) = is_over o ≡ true
Bounded h (goes acts h' d) = h' ≤ suc h

-- A move that ends the poll, or that goes on under one `.catch` less.
abbrev Falling : ℕ → Move → Type 0
Falling h (stops o acts) = is_over o ≡ true
Falling h (goes acts h' d) = h' < h

module _ (to_lower : Text → Text) (digits : ℕ → Text) (k : Kind) (id : Text) where
  conclude-Bounded :
      (a : Action) (v : Verdict) (h d : ℕ) → Bounded h (conclude to_lower digits k id a v h d)
  unfolding conclude
  conclude-Bounded a (ready f) h d = refl
  conclude-Bounded a (broken t) h d = refl
  conclude-Bounded a unready h d = omega arith

  hear-Bounded : (r : Reply) (h d : ℕ) → Bounded h (hear to_lower digits k id r h d)
  unfolding hear retry
  hear-Bounded Poll.stopped h d = refl
  hear-Bounded Poll.lost h d = omega arith
  hear-Bounded (Poll.answered ok j ms) h d = elim (Bool-cases (not ok && rate_limited j)) [
    | inl y ↦ rw y (omega arith)
    | inr n ↦ rw n (conclude-Bounded _ (k.verdict (video_job_status to_lower j) j) h d)
  ]

  give_up-Bounded : (h d : ℕ) → Bounded h (give_up to_lower digits k id h d)
  unfolding give_up retry
  give_up-Bounded zero d = refl
  give_up-Bounded (suc h) d = omega arith

  tick-Bounded : (m : Moment) (h d : ℕ) → Bounded h (tick to_lower digits k id m h d)
  unfolding tick
  tick-Bounded m h d = elim (Bool-cases m.aborted) [
    | inl y ↦ rw y refl
    | inr n ↦ rw n (elim (Bool-cases (ltb k.max_wait m.elapsed)) [
      | inl y ↦ rw y (give_up-Bounded h d)
      | inr n' ↦ rw n' (hear-Bounded m.reply h d)
    ])
  ]

  give_up-Falling : (h d : ℕ) → Falling h (give_up to_lower digits k id h d)
  unfolding give_up retry
  give_up-Falling zero d = refl
  give_up-Falling (suc h) d = omega arith

  tick-Falling : (m : Moment) (h d : ℕ) → IsPast k m → Falling h (tick to_lower digits k id m h d)
  unfolding tick
  tick-Falling m h d late = elim (Bool-cases m.aborted) [
    | inl y ↦ rw y refl
    | inr n ↦ rw (n, passed) (give_up-Falling h d)
  ]
    where
      passed : ltb k.max_wait m.elapsed ≡ true
      passed = ground (arith, late)

  follow_past :
      (v : Move) (rest : ℕ → ℕ → Poll) (h : ℕ)
      → Falling h v
      → ((h' d : ℕ) → h' < h → is_over (rest h' d).outcome ≡ true)
      → is_over (follow to_lower digits k id v rest).outcome ≡ true
  unfolding follow
  follow_past (stops o acts) rest h b later = b
  follow_past (goes acts h' d) rest h b later = later h' d b

  past_ends :
      (ms : List Moment) (h d : ℕ)
      → All (IsPast k) ms
      → h < length ms
      → is_over (ticks to_lower digits k id ms h d).outcome ≡ true
  unfolding ticks
  past_ends [] h d p enough = absurd (omega (arith, enough))
  past_ends (m ∷ ms) h d (late, p) enough =
      follow_past (tick to_lower digits k id m h d) (ticks to_lower digits k id ms) h
        (tick-Falling m h d late) (λ h' d' less. past_ends ms h' d' p (omega (arith, enough, less)))

  follow_ends :
      (v : Move) (rest : ℕ → ℕ → Poll) (h : ℕ)
      → Bounded h v
      → ((h' d : ℕ) → h' ≤ suc h → is_over (rest h' d).outcome ≡ true)
      → is_over (follow to_lower digits k id v rest).outcome ≡ true
  unfolding follow
  follow_ends (stops o acts) rest h b later = b
  follow_ends (goes acts h' d) rest h b later = later h' d b

  ticks_end :
      (early late : List Moment) (h d : ℕ)
      → All (IsPast k) late
      → h + length early < length late
      → is_over (ticks to_lower digits k id (early ++ late) h d).outcome ≡ true
  unfolding ticks
  ticks_end [] late h d p enough = past_ends late h d p (omega (arith, enough))
  ticks_end (m ∷ early) late h d p enough =
      follow_ends (tick to_lower digits k id m h d) (ticks to_lower digits k id (early ++ late)) h
        (tick-Bounded m h d) (λ h' d' le. ticks_end early late h' d' p (omega (arith, enough, le)))

  -- A poll that finds more moments past the time limit than it had ticks before has ended.
  pub poll_ends :
      (early late : List Moment)
      → All (IsPast k) late
      → length early < length late
      → is_over (poll to_lower digits k id (early ++ late)).outcome ≡ true
  unfolding poll
  poll_ends early late p enough = ticks_end early late 0 k.first_delay p (omega (arith, enough))
