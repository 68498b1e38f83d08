-- ===== src/Jobs/Watch/Laws.antt =====
-- What holds of the page however the requests, timers and clicks are ordered: `pollJobs`, `renderJobs`,
-- `hideJobBanner`.
use mikrollm.Base.{
  ℕ, suc, ◌+◌, ◌<◌, ◌≤◌, ◌≡◌, refl, Option, none, some, head?, select, all, Bool, true, false, not,
  ◌||◌, ◌&&◌, List, [], ◌∷◌, if◌then◌else◌, ◌==◌, ◌!=◌, nat_eq, any, length, length-select, arith,
  Bool-cases, inl, inr,
}
use mikrollm.Base.Text.{Text}
use mikrollm.Html.Pieces.{html}
use mikrollm.Jobs.{banner_pieces, Job, Jobs, is_running, latest, Banner, show_banner}
use mikrollm.Jobs.Watch.{
  Page, on_some, cleared, set_job_timer, poll_jobs, hide_job_banner, show_jobs, watch, render_jobs,
  Event, call, fires, answers, fails, hides, one_less, happen, history,
}

-- The calls of `pollJobs` by handlers.
abbrev pub calls : List Event → ℕ
calls [] = 0
calls (call ∷ es) = suc (calls es)
calls (_ ∷ es) = calls es

calls-cons : (e : Event) (es : List Event) → calls (e ∷ es) ≡ calls (e ∷ []) + calls es
calls-cons call es = omega arith
calls-cons (fires t) es = omega arith
calls-cons (answers d) es = omega arith
calls-cons fails es = omega arith
calls-cons hides es = omega arith

-- The requests under way and the timers that will make one.
abbrev pub polls : Page → ℕ
polls p = p.requests + length p.timers

-- The banner, if there is one, is not hidden and tells of a job that runs.
abbrev pub ShowsJob : (ℕ → Text) → Option Banner → Type 0
ShowsJob digits none = Unit
ShowsJob digits (some b) =
    (b.hidden ≡ false)
    × (j : Job) × (is_running j ≡ true)
    × (b.inner_html ≡ html (banner_pieces digits j))

-- A page that knows of a running job is still asking, shows it, and has no timer set that would hide it.
pub record IsWatchful (digits : ℕ → Text) (p : Page) : Type 0 where
  pub asks : p.watched ≡ true → 1 ≤ polls p
  pub shows : p.watched ≡ true → ShowsJob digits p.banner
  pub keeps : (p.watched && p.hide_timer) ≡ false

-- An answer that says that jobs run tells of a job that runs: the server looks for one to say so, right
-- after it has listed the jobs.
abbrev pub is_coherent : Event → Bool
is_coherent (answers d) = not d.running || any is_running d.jobs
is_coherent _ = true

first_running :
    (js : List Job)
    → any is_running js ≡ true
    → (j : Job) × (head? (select is_running js) ≡ some j) × (is_running j ≡ true)
first_running [] y = absurd (cc y)
first_running (j ∷ js) y = elim (Bool-cases (is_running j)) [
  | inl run ↦ rw run (j, refl, run)
  | inr idle ↦ rw idle (first_running js (ground (arith, y, idle)))
]

ShowsJob-show_banner :
    (digits : ℕ → Text) (j : Job) (b : Option Banner)
    → is_running j ≡ true
    → ShowsJob digits (on_some (show_banner digits (some j)) b)
unfolding show_banner
ShowsJob-show_banner digits j none run = tt
ShowsJob-show_banner digits j (some b) run = (refl, j, run, refl)

cleared-less :
    (t : ℕ) (ts : List ℕ) → any (λ u. u == t) ts ≡ true → length (cleared t ts) < length ts
unfolding cleared
cleared-less t [] h = ground (arith, h)
cleared-less t (u ∷ ts) h = ground (arith, h, cleared-less t ts, length-select (λ v. v != t) ts)

module _ (digits : ℕ → Text) where
  poll_jobs-polls : (p : Page) → polls (poll_jobs p) ≤ suc (polls p)
  unfolding poll_jobs cleared
  poll_jobs-polls p = omega (arith, length-select (λ u. u != p.job_timer) p.timers)

  happen-polls : (e : Event) (p : Page) → polls (happen digits e p) ≤ calls (e ∷ []) + polls p
  unfolding happen render_jobs watch show_jobs set_job_timer
  happen-polls call p = omega (arith, poll_jobs-polls p)
  happen-polls (fires t) p = elim (Bool-cases (any (λ u. u == t) p.timers)) [
    | inl y ↦ rw y (
        omega (
          arith,
          poll_jobs-polls (record p { timers = cleared t p.timers }),
          cleared-less t p.timers y,
        ))
    | inr n ↦ rw n (omega arith)
  ]
  happen-polls (answers d) p = ground arith
  happen-polls fails p = ground arith
  happen-polls hides p = unfold hide_job_banner in ground arith

  -- The end of `renderJobs` sets the page right if the banner is shown for a running job.
  watch-IsWatchful :
      (d : Jobs) (p : Page)
      → (d.running ≡ true → ShowsJob digits p.banner)
      → IsWatchful digits (watch digits d p)
  unfolding watch set_job_timer
  watch-IsWatchful d p shown = elim (Bool-cases d.running) [
    | inl y ↦ rw y record { asks = λ _. omega arith; shows = λ _. shown y; keeps = refl }
    | inr n ↦ rw n (elim (Bool-cases p.watched) [
      | inl y ↦
          rw y record { asks = λ on. absurd (cc on); shows = λ on. absurd (cc on); keeps = refl }
      | inr off ↦ rw off record {
        asks = λ on. absurd (cc on);
        shows = λ on. absurd (cc on);
        keeps = ground (arith, off);
      }
    ])
  ]

  -- The banner after an answer that says that jobs run.
  show_jobs-shown :
      (d : Jobs) (p : Page)
      → is_coherent (answers d) ≡ true
      → d.running ≡ true
      → ShowsJob digits (show_jobs digits d.jobs p).banner
  unfolding show_jobs latest
  show_jobs-shown d p fit run =
      let (j, first, runs) = first_running d.jobs (ground (arith, fit, run)) in
      rw first (ShowsJob-show_banner digits j p.banner runs)

  happen-IsWatchful :
      (e : Event) (p : Page)
      → is_coherent e ≡ true
      → IsWatchful digits p
      → IsWatchful digits (happen digits e p)
  unfolding happen render_jobs set_job_timer poll_jobs hide_job_banner
  happen-IsWatchful call p fit h = record {
    asks = λ _. omega arith;
    shows = h.shows;
    keeps = h.keeps;
  }
  happen-IsWatchful (fires t) p fit h = elim (Bool-cases (any (λ u. u == t) p.timers)) [
    | inl y ↦ rw y record { asks = λ _. omega arith; shows = h.shows; keeps = h.keeps }
    | inr n ↦ rw n h
  ]
  happen-IsWatchful (answers d) p fit h = elim (Bool-cases (p.requests == 0)) [
    | inl y ↦ rw y h
    | inr n ↦ rw n (
        watch-IsWatchful d (show_jobs digits d.jobs (record p { requests = one_less p.requests }))
          (show_jobs-shown d (record p { requests = one_less p.requests }) fit))
  ]
  happen-IsWatchful fails p fit h = elim (Bool-cases (p.requests == 0)) [
    | inl y ↦ rw y h
    | inr n ↦ rw n record { asks = λ _. omega arith; shows = h.shows; keeps = h.keeps }
  ]
  happen-IsWatchful hides p fit h = hides_if p.hide_timer refl
    where
      hides_if :
          (b : Bool) → p.hide_timer ≡ b → IsWatchful digits (if b then hide_job_banner p else p)
      hides_if true y = record {
        asks = h.asks;
        shows = λ on. absurd (ground (arith, on, y, h.keeps));
        keeps = ground arith;
      }
      hides_if false n = h

-- Let every answer that says that jobs run tell of a job that runs. However requests, timers and clicks
-- are ordered, a page that was watchful stays so: while it knows of a running job it has a request
-- under way or a timer that will make one, its banner, if it has one, is on show and tells of a job
-- with the status of one that runs, and no timer is set that hides it; and the requests and timers
-- of the polling are never more than at the start and one for each time that a handler started the
-- polling since.
pub history-IsWatchful :
    (digits : ℕ → Text) (es : List Event) (p : Page)
    → all is_coherent es ≡ true
    → IsWatchful digits p
    → IsWatchful digits (history digits es p) × (polls (history digits es p) ≤ calls es + polls p)
unfolding history
history-IsWatchful digits [] p fit h = (h, omega arith)
history-IsWatchful digits (e ∷ es) p fit h =
    let (still, few) =
      history-IsWatchful digits es (happen digits e p) (ground (arith, fit))
        (happen-IsWatchful digits e p (ground (arith, fit)) h) in
    (still, omega (arith, few, happen-polls digits e p, calls-cons e es))
