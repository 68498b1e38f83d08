-- ===== src/Jobs/Watch.antt =====
-- How the page watches the background jobs: `pollJobs`, the end of `renderJobs` and `hideJobBanner`,
-- with the timers and requests that they leave behind.
pub mod Laws
use mikrollm.Base.{
  ℕ, zero, suc, Option, none, some, Bool, true, false, not, ◌&&◌, ◌||◌, List, [], ◌∷◌, map,
  if◌then◌else◌, ◌==◌, ◌!=◌, nat_eq, any, select,
}
use mikrollm.Jobs.{
  Job, Jobs, is_failed, latest, pull_job, Banner, show_banner, PullForm, show_pull, LoadButton,
  show_loading,
}

-- The page: what it shows, the number of requests under way, the timers that will call `pollJobs`,
-- the variable `jobTimer` (0 for none), the next id of a timer, `watchedRunning`, whether the timer
-- that hides the banner is set, and the number of timers that reload the page.
pub record Page : Type 0 where
  pub banner : Option Banner
  pub pull_form : Option PullForm
  pub buttons : List LoadButton
  pub has_chat : Bool
  pub requests : ℕ
  pub timers : List ℕ
  pub job_timer : ℕ
  pub next_timer : ℕ
  pub watched : Bool
  pub hide_timer : Bool
  pub reloads : ℕ

abbrev pub on_some {ℓ} : {A : Type ℓ} → (A → A) → Option A → Option A
on_some f none = none
on_some f (some a) = some (f a)

-- `clearTimeout(jobTimer)`
unfoldable pub cleared : ℕ → List ℕ → List ℕ
cleared t ts = select (λ u. u != t) ts

-- `jobTimer = setTimeout(pollJobs, …)`: the timer that the variable held before stays.
unfoldable pub set_job_timer : Page → Page
set_job_timer p = record p {
  job_timer = p.next_timer;
  timers = p.next_timer ∷ p.timers;
  next_timer = suc p.next_timer;
}

unfoldable pub poll_jobs : Page → Page
poll_jobs p = record p {
  timers = cleared p.job_timer p.timers;
  job_timer = 0;
  requests = suc p.requests;
}

unfoldable pub hide_job_banner : Page → Page
hide_job_banner p = record p {
  banner = on_some (λ (b : Banner). record b { hidden = true }) p.banner;
  hide_timer = false;
}

-- What happens to the page in its polling: a handler calls `pollJobs`, a timer of `pollJobs` fires, a
-- request of `pollJobs` is answered or fails, the timer of the banner fires. The answers to a model
-- button's own request are not among these events (the module Jobs.Actions has them), nor are the
-- reload timers, whose firing replaces the page.
pub data Event : Type 0 where
  call : Event
  fires : ℕ → Event
  answers : Jobs → Event
  fails : Event
  hides : Event

abbrev one_less : ℕ → ℕ
one_less zero = zero
one_less (suc n) = n

module _ (digits : ℕ → List ℕ) where
  -- What `renderJobs` shows.
  unfoldable pub show_jobs : List Job → Page → Page
  show_jobs js p = record p {
    banner = on_some (show_banner digits (latest p.watched js)) p.banner;
    pull_form = on_some (show_pull (pull_job js)) p.pull_form;
    buttons = map (show_loading js) p.buttons;
  }

  -- The end of `renderJobs`.
  unfoldable pub watch : Jobs → Page → Page
  watch d p =
      if d.running
      then set_job_timer (record p { watched = true; hide_timer = false })
      else if p.watched
      then record p {
        watched = false;
        hide_timer = true;
        reloads = if any is_failed d.jobs || p.has_chat then p.reloads else suc p.reloads;
      }
      else p

  unfoldable pub render_jobs : Jobs → Page → Page
  render_jobs d p = watch d (show_jobs d.jobs p)

  -- An event that cannot happen changes nothing.
  unfoldable pub happen : Event → Page → Page
  happen call p = poll_jobs p
  happen (fires t) p =
      if any (λ u. u == t) p.timers then poll_jobs (record p { timers = cleared t p.timers }) else p
  happen (answers d) p =
      if p.requests == 0 then p else render_jobs d (record p { requests = one_less p.requests })
  happen fails p =
      if p.requests == 0 then p else set_job_timer (record p { requests = one_less p.requests })
  happen hides p = if p.hide_timer then hide_job_banner p else p

  unfoldable pub history : List Event → Page → Page
  history [] p = p
  history (e ∷ es) p = history es (happen e p)
