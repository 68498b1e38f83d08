-- ===== src/Chat/Poll/Laws.antt =====
-- The waits of a poll and its end at the time limit: `pollVideo` and `pollImage`.
use mikrollm.Base.{
  ℕ, zero, suc, ◌+◌, ◌<◌, ◌≤◌, ◌≡◌, refl, ap, Bool, false, not, ◌&&◌, List, [], ◌∷◌, ◌++◌, length,
  All, ltb, arith, Bool-cases, inl, inr,
}
use mikrollm.Base.Text.{Text}
use mikrollm.Chat.Poll.{
  Job, unready, Kind, poll_video, poll_image, answered, Moment, timed_out, Poll, Move, stops, goes,
  grown, retry, give_up, conclude, hear, tick, follow, ticks, poll, rate_limited, video_job_status,
}
use mikrollm.Chat.Poll.Waits.{Between, ticks_waits}

-- A moment past the time limit, where the signal is not aborted.
abbrev pub IsLate : Kind → Moment → Type 0
IsLate k m = (m.aborted ≡ false) × (k.max_wait < m.elapsed)

-- A move on to a further tick, under one more handler.
abbrev IsOnward : ℕ → Move → Type 0
IsOnward h (stops o acts) = ⊥
IsOnward h (goes acts h' d) = h' ≡ suc h

module _ (to_lower : Text → Text) (digits : ℕ → Text) (k : Kind) (chat_id : Text) where
  late_waits :
      (late : List Moment) (h d : ℕ)
      → All (IsLate k) late
      → h < length late
      → ((ticks to_lower digits k chat_id late h d).outcome ≡ timed_out)
        × (length (ticks to_lower digits k chat_id late h d).waits ≡ h)
  unfolding ticks follow tick give_up retry
  late_waits [] h d late enough = ground (arith, enough)
  late_waits (m ∷ ms) zero d ((n, l), late) enough = ground arith
  late_waits (m ∷ ms) (suc h) d ((n, l), late) enough =
      ground (arith, late_waits ms h (grown k d) late)

  -- Answers that neither end the job nor fail it.
  pub record IsOpen (m : Moment) : Type 0 where
    pub ok : Bool
    pub job : Job
    pub at : ℕ
    pub running : m.aborted ≡ false
    pub in_time : m.elapsed ≤ k.max_wait
    pub heard : m.reply ≡ answered ok job at
    pub undecided : k.verdict (video_job_status to_lower job) job ≡ unready

  open_tick : (m : Moment) (h d : ℕ) → IsOpen m → IsOnward h (tick to_lower digits k chat_id m h d)
  unfolding tick hear conclude
  open_tick m h d o =
      let soon : ltb k.max_wait m.elapsed ≡ false = ground (arith, o.in_time) in
      elim (Bool-cases (not o.ok && rate_limited o.job)) [
        | inl y ↦ rw (o.running, soon, o.heard, y) refl
        | inr n ↦ rw (o.running, soon, o.heard, n, o.undecided) refl
      ]

  -- A poll that has timed out after `n` waits.
  abbrev pub TimesOut : ℕ → Poll → Type 0
  TimesOut n p = (p.outcome ≡ timed_out) × (length p.waits ≡ n)

  follow-TimesOut :
      (v : Move) (rest : ℕ → ℕ → Poll) (h n : ℕ)
      → IsOnward h v
      → ((d : ℕ) → TimesOut n (rest (suc h) d))
      → TimesOut (suc n) (follow to_lower digits k chat_id v rest)
  unfolding follow
  follow-TimesOut (stops o acts) rest h n onward later = elim onward [ ]
  follow-TimesOut (goes acts h' d) rest h n onward later =
      let there : TimesOut n (rest h' d) = rw onward (later d) in (there.0, ap suc there.1)

  timeout_waits :
      (early late : List Moment) (h d : ℕ)
      → All IsOpen early
      → All (IsLate k) late
      → h + length early < length late
      → TimesOut
          (length early + (h + length early))
          (ticks to_lower digits k chat_id (early ++ late) h d)
  unfolding ticks
  timeout_waits [] late h d opened l enough =
      let (o, w) = late_waits late h d l (omega (arith, enough)) in (o, omega (arith, w))
  timeout_waits (m ∷ early) late h d (o, opened) l enough =
      let (out, w) =
        follow-TimesOut (tick to_lower digits k chat_id m h d)
          (ticks to_lower digits k chat_id (early ++ late)) h
          (length early + (suc h + length early)) (open_tick m h d o)
          (λ d'. timeout_waits early late (suc h) d' opened l (omega (arith, enough))) in
      (out, omega (arith, w))

-- Every wait of `pollVideo` is between 5 and 10 seconds and every wait of `pollImage` between 2 and
-- 8, whatever the server answers.
pub poll_waits :
    (to_lower : Text → Text) (digits : ℕ → Text) (chat_id vid src : Text) (ms : List Moment)
    → All (Between 5000 10000) (poll to_lower digits (poll_video vid src) chat_id ms).waits
      × All (Between 2000 8000) (poll to_lower digits poll_image chat_id ms).waits
unfolding poll poll_video poll_image
poll_waits to_lower digits chat_id vid src ms = (
  ticks_waits to_lower digits (poll_video vid src) chat_id (omega arith) (omega arith) (omega arith)
      ms 0 5000 (omega arith),
  ticks_waits to_lower digits poll_image chat_id (omega arith) (omega arith) (omega arith) ms 0 2000
      (omega arith),
)

-- A poll whose answers are undecided until the time limit, and that finds more late moments than it
-- had answers, ends in the error on the time limit, but only after as many further waits as it had
-- answers: the error of a late tick goes to the `.catch` of every tick before it, and each of them
-- waits and tries again.
pub poll-timeout :
    (to_lower : Text → Text) (digits : ℕ → Text) (k : Kind) (chat_id : Text)
    (early late : List Moment)
    → All (IsOpen to_lower digits k chat_id) early
    → All (IsLate k) late
    → length early < length late
    → ((poll to_lower digits k chat_id (early ++ late)).outcome ≡ timed_out)
      × (length (poll to_lower digits k chat_id (early ++ late)).waits
          ≡ length early + length early)
unfolding poll
poll-timeout to_lower digits k chat_id early late o l enough =
    let (out, w) =
      timeout_waits to_lower digits k chat_id early late 0 k.first_delay o l
        (omega (arith, enough)) in
    (out, omega (arith, w))
