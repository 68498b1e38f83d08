-- ===== src/Examples/Submissions.antt =====
-- The theorems on submissions, requests for media, background jobs and the form of a backend, on small
-- pages.
use mikrollm.Base.{
  arith, ◌++◌, ◌+◌, ◌≤◌, ◌≡◌, ◌≢◌, refl, Option, none, some, true, false, List, [], ◌∷◌, map,
  if◌then◌else◌, ◌==◌, nat_eq, all, list_beq,
}
use mikrollm.Base.Text.{Text, lit, is_empty, trim}
use mikrollm.Chat.{image, video}
use mikrollm.Chat.Models.{model_value}
use mikrollm.Chat.Params.{elements, render_params, collect_extra_params}
use mikrollm.Chat.Submit.{submit}
use mikrollm.Chat.Submit.Laws.{Submits, Ends, request_mode, submit_lem}
use mikrollm.Chat.Submit.Payload.{payload}
use mikrollm.Chat.Submit.Payload.Laws.{Says, payload_lem}
use mikrollm.Chat.Submit.Media.{answered, lost, on_response, run_media}
use mikrollm.Chat.Submit.Media.Ends.{run_media-ends}
use mikrollm.Chat.Submit.Media.Settles.{play, Settles, run_media-Settles}
use mikrollm.Chat.Poll.Ends.{is_over}
use mikrollm.Chat.Poll.Finishes.{finishes}
use mikrollm.Chat.Stream.{Chunk}
use mikrollm.Chat.Submit.Talk.{streams, done, run_talk}
use mikrollm.Chat.Submit.Talk.Laws.{has_ended, run_talk-Settles}
use mikrollm.Jobs.{Job, is_running}
use mikrollm.Jobs.Watch.{Page, Event, call, fires, answers, fails, hides, history}
use mikrollm.Jobs.Watch.Laws.{IsWatchful, is_coherent, polls, calls, history-IsWatchful}
use mikrollm.Backend.{Form, choose_kind}
use mikrollm.Backend.Laws.{is_own, choose_kind-choose_kind}
use mikrollm.Examples.Playground.{
  app, takes_all, app-IsConsistent, same, digits, queued, soon, too_late,
}
use mikrollm.Examples.Requests.{lengths, composed, schema, typed}

submit_lem_example :
    Submits app (submit takes_all false (lit " кот ") app)
    × Ends false
        (is_empty (model_value app.composer))
        (trim (lit " кот "))
        app.composer.refs
        (request_mode app)
        (submit takes_all false (lit " кот ") app).1
submit_lem_example = submit_lem takes_all false (lit " кот ") app app-IsConsistent

abbrev shot : List Text
shot = lit "data:a" ∷ []

payload_lem_example :
    Says lengths
      (λ n. n == 0)
      video
      (lit "film")
      (lit "кот")
      shot
      (payload lengths
        (λ n. n == 0)
        video
        (lit "film")
        (lit "кот")
        []
        (collect_extra_params lengths (map typed (elements (render_params composed schema))))
        true
        shot)
payload_lem_example =
    payload_lem lengths (λ n. n == 0) composed schema typed (λ e. refl) video (lit "film")
      (lit "кот") [] true shot

abbrev films : Text → Text
films id = lit "/v/"

run_media-Settles_example :
    Settles same
      (lit "one")
      (lit "two")
      (is_over (on_response same digits films (lit "one") image (lost (lit "сеть")) []).outcome)
      app
      (play takes_all (run_media same digits films (lit "one") image (lost (lit "сеть")) []) app)
run_media-Settles_example =
    run_media-Settles takes_all same digits films (lit "one") (lit "two") image (lost (lit "сеть"))
      [] app app-IsConsistent

run_media-ends_example :
    finishes (
      run_media same digits films
        (lit "one")
        image
        (answered true (lit "j") queued [])
        ((soon ∷ []) ++ (too_late ∷ too_late ∷ [])))
    ≡ 1
run_media-ends_example =
    run_media-ends same digits films (lit "one") image (answered true (lit "j") queued [])
      (soon ∷ []) (too_late ∷ too_late ∷ []) (omega arith) (omega arith, (omega arith, tt))

abbrev as_chunk : Text → Option Chunk
as_chunk t =
    some (record { reasoning = []; reasoning_content = []; content = t; whole = []; error = [] })

run_talk-Settles_example :
    Settles same
      (lit "one")
      (lit "two")
      (has_ended (streams ((lit "да" ++ 10 ∷ [], false) ∷ []) (some done)))
      app
      (play takes_all
        (run_talk as_chunk (lit "one") (streams ((lit "да" ++ 10 ∷ [], false) ∷ []) (some done)))
        app)
run_talk-Settles_example =
    run_talk-Settles takes_all same as_chunk (lit "one") (lit "two")
      (streams ((lit "да" ++ 10 ∷ [], false) ∷ []) (some done)) app app-IsConsistent

abbrev pulling : Job
pulling = record {
  kind = lit "pull";
  status = lit "running";
  backend = lit "mac-1";
  backend_id = lit "1";
  model = lit "llama";
  percent = 5;
  error = [];
  message = [];
  log = [];
}

abbrev page : Page
page = record {
  banner = some (record { hidden = true; is_err = false; is_ok = false; inner_html = [] });
  pull_form = none;
  buttons = [];
  has_chat = false;
  requests = 0;
  timers = [];
  job_timer = 0;
  next_timer = 1;
  watched = false;
  hide_timer = false;
  reloads = 0;
}

page-IsWatchful : IsWatchful digits page
page-IsWatchful = record { asks = λ on. absurd (cc on); shows = λ on. absurd (cc on); keeps = refl }

abbrev events : List Event
events =
    call ∷ answers (record { jobs = pulling ∷ []; running = true }) ∷ fires 1 ∷ fails ∷ hides ∷ []

events-coherent : all is_coherent events ≡ true
unfolding is_running lit list_beq
events-coherent = refl

history-IsWatchful_example :
    IsWatchful digits (history digits events page)
    × (polls (history digits events page) ≤ calls events + polls page)
history-IsWatchful_example = history-IsWatchful digits events page events-coherent page-IsWatchful

abbrev form : Form
form = record {
  kind = lit "ollama";
  url = [];
  placeholder = [];
  hint = [];
  token_required = false;
  token_label = [];
}

form-url : form.url ≢ lit "/"
unfolding lit
form-url e = absurd (cc e)

choose_kind-choose_kind_example :
    (choose_kind (lit "vllm") (choose_kind (lit "grok") form) ≡ choose_kind (lit "vllm") form)
    × ((if is_own form.url then (choose_kind (lit "vllm") form).url else form.url) ≡ form.url)
choose_kind-choose_kind_example = choose_kind-choose_kind (lit "grok") (lit "vllm") form form-url
