-- ===== src/Examples/Playground.antt =====
-- The theorems on the log, the chats, the models and the polls, on small pages.
use mikrollm.Base.{
  ℕ, ◌+◌, ◌≡◌, refl, none, some, Bool, true, false, List, [], ◌∷◌, All, arith, length, list_beq,
}
use mikrollm.Base.Text.{Text, lit, is_empty, contains}
use mikrollm.Logs.{SelectBox, LogControls, LogPage, apply, read_url, start, reset}
use mikrollm.Logs.Laws.{HasBlanks, start-apply}
use mikrollm.Chat.{chat, image, user}
use mikrollm.Chat.Models.{
  ModelOption, Composer, serves, selected_option, filter_models, first_from, media_kind,
}
use mikrollm.Chat.Models.Laws.{CanServe, filter_models_lem}
use mikrollm.Chat.Store.{Bag, App, absent}
use mikrollm.Chat.Store.Ops.{Fields, blank_message}
use mikrollm.Chat.Store.View.{IsConsistent, addr}
use mikrollm.Chat.Store.Steps.{close, step, Implements, step_lem}
use mikrollm.Chat.Poll.{
  no_error, Job, answered, lost, Moment, timed_out, poll_image, poll_video, poll, video_job_status,
  is_done, is_failed, rate_limited, image_verdict,
}
use mikrollm.Chat.Poll.Waits.{Between}
use mikrollm.Chat.Poll.Laws.{IsLate, IsOpen, poll_waits, poll-timeout}

abbrev pub same : Text → Text
same t = t

abbrev all_or : List Text → SelectBox
all_or vs = record { options = [] ∷ vs; index = 1 }

abbrev log_controls : LogControls
log_controls = record {
  q = lit " gpt ";
  status = all_or (lit "err" ∷ []);
  model = all_or (lit "m" ∷ []);
  backend = all_or [];
  key = all_or [];
  ms = all_or (lit "slow" ∷ []);
}

abbrev log_page : LogPage
log_page = record {
  controls = log_controls;
  rows =
      record {
        hay = some (lit "gpt-4");
        kind = some (lit "err");
        model = some (lit "m");
        backend = none;
        key = none;
        ms = some (lit "1500");
        hidden = false;
      }
      ∷ [];
  count = (0, 0);
  empty_hidden = false;
  url = [];
}

log_blanks : HasBlanks log_controls
log_blanks = record { status = refl; model = refl; backend = refl; key = refl; ms = refl }

start-apply_example :
    start same (record (apply same log_page) { controls = reset log_controls })
    ≡ record (apply same log_page) {
      controls = read_url same (apply same log_page).url (reset log_controls);
    }
start-apply_example = start-apply same refl log_page log_blanks

abbrev composer : Composer
composer = record {
  options =
      record { value = lit "talk"; media = none; hidden = false }
      ∷ record { value = lit "draw"; media = some (lit "image"); hidden = true }
      ∷ [];
  selected = some 0;
  mode = image;
  refs = [];
}

composer_serves : CanServe composer
unfolding serves media_kind contains lit list_beq
composer_serves = refl

-- The option that the filter selects in place of the hidden one.
abbrev drawing : ModelOption
drawing = record { value = lit "draw"; media = some (lit "image"); hidden = false }

drawing_selected : selected_option (filter_models composer) ≡ some drawing
unfolding selected_option filter_models first_from serves media_kind contains lit list_beq
drawing_selected = refl

drawing_valued : is_empty drawing.value ≡ false
unfolding lit
drawing_valued = refl

filter_models_lem_example :
    (serves (filter_models composer).mode drawing ≡ true)
    × (false ≡ false)
    × ((filter_models composer).mode ≡ image)
    × ((filter_models composer).refs ≡ [])
filter_models_lem_example =
    filter_models_lem composer drawing composer_serves drawing_selected drawing_valued

abbrev pub app : App
app = record {
  chats =
      record {
        id = lit "one";
        title = lit "Новый чат";
        messages = 0;
        model = lit "talk";
        mode = chat;
        updated = 0;
        busy = false;
        running = false;
        gen_kind = [];
      }
      ∷ record {
        id = lit "two";
        title = lit "Новый чат";
        messages = 1;
        model = lit "draw";
        mode = image;
        updated = 0;
        busy = false;
        running = false;
        gen_kind = [];
      }
      ∷ [];
  active = lit "one";
  messages = 0;
  heap = λ a. blank_message user (lit "привет") ∷ [];
  next = 2;
  composer = composer;
  saved = absent;
  now = 7;
}

abbrev pub takes_all : Bag → Bool
takes_all b = true

pub app-IsConsistent : IsConsistent app
unfolding addr lit list_beq
app-IsConsistent = record {
  proper = (refl, omega arith, (omega arith, tt), (refl, omega arith, tt, tt));
  aliased = refl;
}

step_lem_example : Implements (close [] (lit "one")) app (step takes_all (close [] (lit "one")) app)
step_lem_example = step_lem takes_all (close [] (lit "one")) app app-IsConsistent tt

abbrev answer : Fields
answer = record { content = lit "да"; think = none; picture = none; film = none }

abbrev pub digits : ℕ → Text
digits n = (48 + n) ∷ []

abbrev pub queued : Job
queued = record {
  error = no_error;
  message = [];
  status = lit "queued";
  state = [];
  inner_status = [];
  inner_state = [];
  queue_ahead = some 3;
  first_datum = none;
}

abbrev pub soon : Moment
soon = record { aborted = false; elapsed = 2300; reply = answered true queued 2400 }

abbrev pub too_late : Moment
too_late = record { aborted = false; elapsed = 1200001; reply = lost }

soon-IsOpen : IsOpen same digits poll_image (lit "one") soon
unfolding poll_image video_job_status image_verdict is_done is_failed rate_limited contains lit
    list_beq
soon-IsOpen = record {
  ok = true;
  job = queued;
  at = 2400;
  running = refl;
  in_time = omega arith;
  heard = refl;
  undecided = refl;
}

too_late-IsLate : IsLate poll_image too_late
unfolding poll_image
too_late-IsLate = (refl, omega arith)

poll-timeout_example :
    ((poll same digits poll_image (lit "one") (soon ∷ too_late ∷ too_late ∷ [])).outcome
      ≡ timed_out)
    × (length (poll same digits poll_image (lit "one") (soon ∷ too_late ∷ too_late ∷ [])).waits ≡ 2)
poll-timeout_example =
    poll-timeout same digits poll_image (lit "one") (soon ∷ []) (too_late ∷ too_late ∷ [])
      (soon-IsOpen, tt) (too_late-IsLate, (too_late-IsLate, tt)) (omega arith)

poll_waits_example :
    All
      (Between 5000 10000)
      (poll same digits (poll_video (lit "v") (lit "/v")) (lit "one") (soon ∷ [])).waits
    × All (Between 2000 8000) (poll same digits poll_image (lit "one") (soon ∷ [])).waits
poll_waits_example = poll_waits same digits (lit "one") (lit "v") (lit "/v") (soon ∷ [])
