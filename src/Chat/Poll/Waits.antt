-- ===== src/Chat/Poll/Waits.antt =====
-- How long a poll waits between two ticks.
use mikrollm.Base.{
  ℕ, zero, suc, ◌≤◌, not, ◌&&◌, List, [], ◌∷◌, All, ltb, arith, Bool-cases, inl, inr,
}
use mikrollm.Base.Text.{Text}
use mikrollm.Chat.Store.Steps.{Action}
use mikrollm.Chat.Poll.{
  Verdict, ready, broken, unready, Kind, Reply, stopped, lost, answered, Moment, Poll, Move, stops,
  goes, retry, give_up, conclude, hear, tick, follow, ticks, rate_limited, video_job_status,
}

abbrev pub Between : ℕ → ℕ → ℕ → Type 0
Between low high n = (low ≤ n) × (n ≤ high)

abbrev IsSound : Kind → Move → Type 0
IsSound k (stops o acts) = Unit
IsSound k (goes acts handlers delay) = Between k.first_delay k.longest delay

module _ (to_lower : Text → Text) (digits : ℕ → Text) (k : Kind) (chat_id : Text)
    (growth_ok : k.first_delay ≤ k.longest) (limit_ok : k.limit_delay ≤ k.longest)
    (cap_ok : k.longest ≤ k.limit_longest) where
  retry-IsSound :
      (h d : ℕ)
      → Between k.first_delay k.longest d
      → IsSound k (retry to_lower digits k chat_id h d)
  unfolding retry
  retry-IsSound h d b = ground arith

  conclude-IsSound :
      (a : Action) (v : Verdict) (h d : ℕ)
      → Between k.first_delay k.longest d
      → IsSound k (conclude to_lower digits k chat_id a v h d)
  unfolding conclude
  conclude-IsSound a (ready f) h d b = tt
  conclude-IsSound a (broken t) h d b = tt
  conclude-IsSound a unready h d b = ground arith

  hear-IsSound :
      (r : Reply) (h d : ℕ)
      → Between k.first_delay k.longest d
      → IsSound k (hear to_lower digits k chat_id r h d)
  unfolding hear
  hear-IsSound stopped h d b = tt
  hear-IsSound lost h d b = retry-IsSound h d b
  hear-IsSound (answered ok j ms) h d b = elim (Bool-cases (not ok && rate_limited j)) [
    | inl y ↦ rw y (ground arith)
    | inr n ↦ rw n (conclude-IsSound _ (k.verdict (video_job_status to_lower j) j) h d b)
  ]

  tick-IsSound :
      (m : Moment) (h d : ℕ)
      → Between k.first_delay k.longest d
      → IsSound k (tick to_lower digits k chat_id m h d)
  unfolding tick give_up
  tick-IsSound m h d b = elim (Bool-cases m.aborted) [
    | inl y ↦ rw y tt
    | inr n ↦ rw n (elim (Bool-cases (ltb k.max_wait m.elapsed)) [
      | inl y ↦ rw y (late h)
      | inr n' ↦ rw n' (hear-IsSound m.reply h d b)
    ])
  ]
    where
      late : (h : ℕ) → IsSound k (give_up to_lower digits k chat_id h d)
      late zero = tt
      late (suc h) = retry-IsSound h d b

  follow_waits :
      (v : Move) (rest : ℕ → ℕ → Poll)
      → IsSound k v
      → ((h d : ℕ)
          → Between k.first_delay k.longest d
          → All (Between k.first_delay k.longest) (rest h d).waits)
      → All (Between k.first_delay k.longest) (follow to_lower digits k chat_id v rest).waits
  unfolding follow
  follow_waits (stops o acts) rest s later = tt
  follow_waits (goes acts h d) rest s later = (s, later h d s)

  pub ticks_waits :
      (ms : List Moment) (h d : ℕ)
      → Between k.first_delay k.longest d
      → All (Between k.first_delay k.longest) (ticks to_lower digits k chat_id ms h d).waits
  unfolding ticks
  ticks_waits [] h d b = tt
  ticks_waits (m ∷ ms) h d b =
      follow_waits (tick to_lower digits k chat_id m h d) _ (tick-IsSound m h d b) (ticks_waits ms)
