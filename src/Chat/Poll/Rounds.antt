-- ===== src/Chat/Poll/Rounds.antt =====
-- What a poll says to the chats: texts and ends for one chat alone, the last of them an end exactly
-- when the poll is done.
use mikrollm.Base.{
  ℕ, zero, suc, ◌≡◌, refl, ◌∙◌, Bool, true, false, not, ◌&&◌, List, [], ◌∷◌, ◌++◌, ◌==◌, text_eq,
  eq_refl, ltb, arith, Bool-cases, inl, inr,
}
use mikrollm.Base.Text.{Text}
use mikrollm.Chat.Store.Steps.{Action, pending, finish}
use mikrollm.Chat.Poll.{
  Job, Kind, Moment, Outcome, waiting, done, abort_error, timed_out, fatal, Poll, Move, stops, goes,
  Verdict, ready, broken, unready, Reply, rate_limited, video_job_status, retry, give_up, conclude,
  hear, tick, follow, ticks, poll, poll_image, poll_video,
}
use mikrollm.Chat.Poll

-- Whether every action is a text or an end for one chat.
abbrev pub own : Text → List Action → Bool
own id [] = true
own id (pending j t ∷ acts) = j == id && own id acts
own id (finish j f ∷ acts) = j == id && own id acts
own id (_ ∷ acts) = false

-- Whether the last action is an end; `b` for no action.
abbrev pub closed : Bool → List Action → Bool
closed b [] = b
closed b (finish j f ∷ acts) = closed true acts
closed b (_ ∷ acts) = closed false acts

abbrev pub is_done : Outcome → Bool
is_done done = true
is_done _ = false

pub own-append : (id : Text) (xs ys : List Action) → own id (xs ++ ys) ≡ (own id xs && own id ys)
own-append id [] ys = refl
own-append id (x ∷ xs) ys = ground (arith, own-append id xs ys)

pub closed-append : (b : Bool) (xs ys : List Action) → closed b (xs ++ ys) ≡ closed (closed b xs) ys
closed-append b [] ys = refl
closed-append b (finish j f ∷ xs) ys = closed-append true xs ys
closed-append b (pending j t ∷ xs) ys = closed-append false xs ys
closed-append b (x ∷ xs) ys = closed-append false xs ys

-- Actions on one chat whose last is the end exactly when they are done.
abbrev pub Rounds : Text → Bool → List Action → Type 0
Rounds id over acts = (own id acts ≡ true) × (closed false acts ≡ over)

abbrev RoundsMove : Text → Move → Type 0
RoundsMove id (stops o acts) = Rounds id (is_done o) acts
RoundsMove id (goes acts h d) = Rounds id false acts

module _ (to_lower : Text → Text) (digits : ℕ → Text) (k : Kind) (id : Text) where
  retry-Rounds : (h d : ℕ) → RoundsMove id (retry to_lower digits k id h d)
  unfolding retry
  retry-Rounds h d = (ground (arith, eq_refl id), refl)

  give_up-Rounds : (h d : ℕ) → RoundsMove id (give_up to_lower digits k id h d)
  unfolding give_up
  give_up-Rounds zero d = (refl, refl)
  give_up-Rounds (suc h) d = retry-Rounds h d

  conclude-Rounds :
      (t : Text) (v : Verdict) (h d : ℕ)
      → RoundsMove id (conclude to_lower digits k id (pending id t) v h d)
  unfolding conclude
  conclude-Rounds t (ready f) h d = (ground (arith, eq_refl id), refl)
  conclude-Rounds t (broken x) h d = (ground (arith, eq_refl id), refl)
  conclude-Rounds t unready h d = (ground (arith, eq_refl id), refl)

  hear-Rounds : (r : Reply) (h d : ℕ) → RoundsMove id (hear to_lower digits k id r h d)
  unfolding hear
  hear-Rounds Poll.stopped h d = (refl, refl)
  hear-Rounds Poll.lost h d = retry-Rounds h d
  hear-Rounds (Poll.answered ok j ms) h d = elim (Bool-cases (not ok && rate_limited j)) [
    | inl y ↦ rw y (ground (arith, eq_refl id), refl)
    | inr n ↦ rw n (conclude-Rounds _ (k.verdict (video_job_status to_lower j) j) h d)
  ]

  tick-Rounds : (m : Moment) (h d : ℕ) → RoundsMove id (tick to_lower digits k id m h d)
  unfolding tick
  tick-Rounds m h d = elim (Bool-cases m.aborted) [
    | inl y ↦ rw y (refl, refl)
    | inr n ↦ rw n (elim (Bool-cases (ltb k.max_wait m.elapsed)) [
      | inl y ↦ rw y (give_up-Rounds h d)
      | inr n' ↦ rw n' (hear-Rounds m.reply h d)
    ])
  ]

  follow-Rounds :
      (v : Move) (rest : ℕ → ℕ → Poll)
      → RoundsMove id v
      → ((h d : ℕ) → Rounds id (is_done (rest h d).outcome) (rest h d).said)
      → Rounds id
          (is_done (follow to_lower digits k id v rest).outcome)
          (follow to_lower digits k id v rest).said
  unfolding follow
  follow-Rounds (stops o acts) rest here later = here
  follow-Rounds (goes acts h d) rest here later =
      let said = (rest h d).said in
      let both = own-append id acts said in
      let last = closed-append false acts said in
      (ground (arith, both, here.0, (later h d).0), last ∙ rw here.1 (later h d).1)

  ticks-Rounds :
      (ms : List Moment) (h d : ℕ)
      → Rounds id
          (is_done (ticks to_lower digits k id ms h d).outcome)
          (ticks to_lower digits k id ms h d).said
  unfolding ticks
  ticks-Rounds [] h d = (refl, refl)
  ticks-Rounds (m ∷ ms) h d =
      follow-Rounds (tick to_lower digits k id m h d) (ticks to_lower digits k id ms)
        (tick-Rounds m h d) (ticks-Rounds ms)

  pub poll-Rounds :
      (ms : List Moment)
      → Rounds id
          (is_done (poll to_lower digits k id ms).outcome)
          (poll to_lower digits k id ms).said
  unfolding poll
  poll-Rounds ms = ticks-Rounds ms 0 k.first_delay
