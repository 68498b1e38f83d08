-- ===== src/Examples/Pages.antt =====
-- The theorems on the buttons of models and on the small helpers, on small pages.
use mikrollm.Base.{◌≡◌, none, true, false, List, [], ◌∷◌}
use mikrollm.Base.Text.{lit}
use mikrollm.Jobs.{Job, Jobs, LoadButton}
use mikrollm.Jobs.Watch.{Page, Event, call, answers, history}
use mikrollm.Jobs.Actions.{ModelButton, told, name_of, click}
use mikrollm.Jobs.Actions.Laws.{Clicks, click_lem}
use mikrollm.Page.Copy.{quiet, copies, timeouts, final_label, copies_lem}
use mikrollm.Page.Install.{
  Install, history as install_history, offers, clicks, chosen, loaded, is_none, IsHonest, offered,
  history-loaded,
}

abbrev load_button : LoadButton
load_button = record { id = lit "1"; name = lit "llama"; disabled = false; label = lit "в RAM" }

abbrev loader : ModelButton
loader = record { action = lit "load"; from = []; button = load_button }

abbrev pressed_button : LoadButton
pressed_button = record load_button { disabled = true; label = lit "загрузка…" }

abbrev page : Page
page = record {
  banner = none;
  pull_form = none;
  buttons = pressed_button ∷ [];
  has_chat = false;
  requests = 0;
  timers = [];
  job_timer = 0;
  next_timer = 1;
  watched = false;
  hide_timer = false;
  reloads = 0;
}

click_lem_example :
    Clicks
      (λ question. true)
      (name_of (λ id. none) loader)
      (told true [])
      loader
      page
      (click (λ id. none) (λ question. true) loader)
click_lem_example = click_lem (λ id. none) (λ question. true) (told true []) loader page

abbrev failed_load : Job
failed_load = record {
  kind = lit "load";
  status = lit "error";
  backend = lit "mac-1";
  backend_id = lit "1";
  model = lit "llama";
  percent = 0;
  error = lit "нет места";
  message = [];
  log = [];
}

abbrev ended : Jobs
ended = record { jobs = failed_load ∷ []; running = false }

abbrev running : Jobs
running = record {
  jobs = record failed_load { status = lit "running"; error = [] } ∷ [];
  running = true;
}

abbrev loads_on : List Event
loads_on = call ∷ answers running ∷ call ∷ answers ended ∷ []

copies_lem_example :
    timeouts 2 (copies 2 (quiet (lit "Копировать"))) ≡ quiet (final_label 1 (lit "Копировать"))
copies_lem_example = copies_lem 1 (lit "Копировать")

abbrev after_offers : Install
after_offers = install_history (offers 5 ∷ clicks ∷ chosen ∷ offers 6 ∷ []) loaded

history-loaded_example :
    (after_offers.hidden ≡ is_none after_offers.deferred)
    × IsHonest (offered (offers 5 ∷ clicks ∷ chosen ∷ offers 6 ∷ []) []) after_offers
history-loaded_example = history-loaded (offers 5 ∷ clicks ∷ chosen ∷ offers 6 ∷ [])
