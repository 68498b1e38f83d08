-- ===== src/Chat/Poll/Finishes.antt =====
-- How often a poll finishes the answer of its chat.
use mikrollm.Base.{
  ℕ, zero, suc, ◌+◌, ◌≡◌, refl, not, ◌&&◌, List, [], ◌∷◌, ◌++◌, ltb, arith, Bool-cases, inl, inr,
}
use mikrollm.Base.Text.{Text}
use mikrollm.Chat.Store.Steps.{Action, pending, finish}
use mikrollm.Chat.Poll.{
  Verdict, ready, broken, unready, Kind, Reply, stopped, lost, answered, Moment, Outcome, done,
  Poll, Move, stops, goes, retry, give_up, conclude, hear, tick, follow, ticks, poll, rate_limited,
  video_job_status,
}

-- Whether an action is the finish of the answer.
abbrev pub finishes : List Action → ℕ
finishes [] = 0
finishes (finish id f ∷ rest) = suc (finishes rest)
finishes (_ ∷ rest) = finishes rest

-- One for a poll that is done, none for another.
abbrev pub finishes_at : Outcome → ℕ
finishes_at done = 1
finishes_at _ = 0

-- The finishes among what a move says.
abbrev IsTold : Move → Type 0
IsTold (stops o acts) = finishes acts ≡ finishes_at o
IsTold (goes acts h d) = finishes acts ≡ 0

pub finishes-append : (xs ys : List Action) → finishes (xs ++ ys) ≡ finishes xs + finishes ys
finishes-append [] ys = omega arith
finishes-append (x ∷ xs) ys = ground (arith, finishes-append xs ys)

module _ (to_lower : Text → Text) (digits : ℕ → Text) (k : Kind) (chat_id : Text) where
  finishes-follow :
      (v : Move) (rest : ℕ → ℕ → Poll)
      → IsTold v
      → ((h d : ℕ) → finishes (rest h d).said ≡ finishes_at (rest h d).outcome)
      → finishes (follow to_lower digits k chat_id v rest).said
        ≡ finishes_at (follow to_lower digits k chat_id v rest).outcome
  unfolding follow
  finishes-follow (stops o acts) rest told later = told
  finishes-follow (goes acts h d) rest told later =
      let both = finishes-append acts (rest h d).said in ground (arith, both, told, later h d)

  conclude-IsTold :
      (id text : Text) (v : Verdict) (h d : ℕ)
      → IsTold (conclude to_lower digits k chat_id (pending id text) v h d)
  unfolding conclude
  conclude-IsTold id text (ready f) h d = refl
  conclude-IsTold id text (broken t) h d = refl
  conclude-IsTold id text unready h d = refl

  hear-IsTold : (r : Reply) (h d : ℕ) → IsTold (hear to_lower digits k chat_id r h d)
  unfolding hear retry
  hear-IsTold stopped h d = refl
  hear-IsTold lost h d = refl
  hear-IsTold (answered ok j ms) h d = elim (Bool-cases (not ok && rate_limited j)) [
    | inl y ↦ rw y refl
    | inr n ↦ rw n (conclude-IsTold chat_id _ (k.verdict (video_job_status to_lower j) j) h d)
  ]

  give_up-IsTold : (h d : ℕ) → IsTold (give_up to_lower digits k chat_id h d)
  unfolding give_up retry
  give_up-IsTold zero d = refl
  give_up-IsTold (suc h) d = refl

  tick-IsTold : (m : Moment) (h d : ℕ) → IsTold (tick to_lower digits k chat_id m h d)
  unfolding tick
  tick-IsTold m h d = elim (Bool-cases m.aborted) [
    | inl y ↦ rw y refl
    | inr n ↦ rw n (elim (Bool-cases (ltb k.max_wait m.elapsed)) [
      | inl y ↦ rw y (give_up-IsTold h d)
      | inr n' ↦ rw n' (hear-IsTold m.reply h d)
    ])
  ]

  -- A poll finishes the answer of its chat once if it comes to an end with a result, and never
  -- otherwise.
  pub finishes-ticks :
      (ms : List Moment) (h d : ℕ)
      → finishes (ticks to_lower digits k chat_id ms h d).said
        ≡ finishes_at (ticks to_lower digits k chat_id ms h d).outcome
  unfolding ticks
  finishes-ticks [] h d = refl
  finishes-ticks (m ∷ ms) h d =
      finishes-follow (tick to_lower digits k chat_id m h d) _ (tick-IsTold m h d)
        (finishes-ticks ms)

-- A poll finishes the answer of its chat exactly once if it comes to a result, and not at all while
-- it waits or when it is aborted, out of time or refused for good.
pub finishes-poll :
    (to_lower : Text → Text) (digits : ℕ → Text) (k : Kind) (chat_id : Text) (ms : List Moment)
    → finishes (poll to_lower digits k chat_id ms).said
      ≡ finishes_at (poll to_lower digits k chat_id ms).outcome
unfolding poll
finishes-poll to_lower digits k chat_id ms =
    finishes-ticks to_lower digits k chat_id ms 0 k.first_delay
