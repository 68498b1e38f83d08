-- ===== src/Examples/Reloads.antt =====
-- The theorems on a reload of the playground and on its panels, on a page with two chats.
use mikrollm.Base.{◌+◌, ◌*◌, ◌≡◌, refl, none, some, true, false, [], ◌∷◌, length, list_beq}
use mikrollm.Base.Text.{Text, lit, is_empty, trim, contains}
use mikrollm.Html.Markup.{marks}
use mikrollm.Chat.{chat, user}
use mikrollm.Chat.Store.{App, PackedChat, pack, persist, snapshot_chat, store, update_chat, bag}
use mikrollm.Chat.Store.View.{thread}
use mikrollm.Chat.Store.Reload.{HasDistinct, stored}
use mikrollm.Chat.Store.Reload.RoundTrip.{repacked, restore-persist}
use mikrollm.Chat.Submit.{submit, try_send, media_mode, waiting}
use mikrollm.Chat.Store.Ops.{
  Fields, blank_message, restore, switch_chat, restore_saved, restore_bag, unpack, current,
  last_by_id, load_composer,
}
use mikrollm.Chat.Models.{
  model_value, option_media, media_kind, filter_models, sync_mode_to_model, set_model, option_from,
  serves,
}
use mikrollm.Chat.Session.{lock_shown, requested, without_one, Session, shows, sends, ends, happen}
use mikrollm.Chat.Session.Status.{status}
use mikrollm.Chat.Session.Laws.{IsSound}
use mikrollm.Chat.Session.Sound.{IsLed, rest, after}
use mikrollm.Chat.Session.Opened.{opened, is_true, opened_lem}
use mikrollm.Chat.Session.Stop.{stop}
use mikrollm.Chat.Session.Stop.Target.{stop_lem}
use mikrollm.Chat.Panels.{tabs_html, queue_html, chat_jobs}
use mikrollm.Chat.Panels.Markup.{id_marks, marks_panels}
use mikrollm.Chat.Panels.Queue.{busy_of, listed, waits}
use mikrollm.Chat.Panels.Queue.Reload.{listed-restore}
use mikrollm.Examples.Playground.{app, takes_all, app-IsConsistent, same}

-- The page before the chats are read again.
abbrev blank : App
blank = record app { chats = []; saved = (persist takes_all app).saved; next = 0 }

abbrev packed : Text → PackedChat
packed id = record {
  id = id;
  title = lit "Новый чат";
  model = lit "talk";
  mode = chat;
  updated = 3;
  messages = blank_message user (lit "привет") ∷ [];
}

-- An entry whose active chat is gone.
abbrev stored_page : App
stored_page = record blank {
  saved = bag (record { active = lit "x"; chats = packed (lit "a") ∷ packed (lit "b") ∷ [] });
}

stored_page-HasDistinct : HasDistinct takes_all (lit "new") stored_page.saved
unfolding stored lit list_beq
stored_page-HasDistinct = (refl, (refl, tt))

abbrev opened_page : Session
opened_page = opened takes_all (lit "new") none stored_page

-- The other chat is shown, a question is sent in it, and its answer comes.
abbrev asked_page : Session
asked_page =
    happen takes_all (sends false (lit "кот")) (happen takes_all (shows (lit "b")) opened_page)

abbrev yes_answer : Fields
yes_answer = record { content = lit "да"; think = none; picture = none; film = none }

abbrev answered_page : Session
answered_page = happen takes_all (ends (lit "b") yes_answer) asked_page

asked_page-IsLed : IsLed takes_all opened_page asked_page
asked_page-IsLed = after (sends false (lit "кот")) (after (shows (lit "b")) rest tt) tt

answered_page-IsLed : IsLed takes_all opened_page answered_page
answered_page-IsLed = after (ends (lit "b") yes_answer) asked_page-IsLed tt

answered_page-quiet : is_empty answered_page.requests ≡ true
unfolding happen opened list_beq lock_shown requested without_one submit try_send media_mode waiting
    trim contains store update_chat switch_chat restore_saved restore_bag unpack current last_by_id
    load_composer model_value option_media media_kind filter_models sync_mode_to_model set_model
    option_from serves restore persist snapshot_chat
answered_page-quiet = refl

asked_page-locked : asked_page.locked ≡ true
unfolding happen opened list_beq lock_shown requested without_one submit try_send media_mode waiting
    trim contains store update_chat switch_chat restore_saved restore_bag unpack current last_by_id
    load_composer model_value option_media media_kind filter_models sync_mode_to_model set_model
    option_from serves restore persist snapshot_chat
asked_page-locked = refl

stop_lem_example :
    (stop (some (lit "a")) asked_page.app ≡ some asked_page.app.active)
    × (requested asked_page.app.active asked_page.requests ≡ true)
stop_lem_example =
    stop_lem takes_all (lit "new") none stored_page asked_page (some (lit "a"))
      stored_page-HasDistinct refl asked_page-IsLed asked_page-locked

opened_lem_example :
    IsSound answered_page
    × (answered_page.locked ≡ false)
    × (is_true (status (lit "a") answered_page.app.chats) ≡ false)
opened_lem_example =
    opened_lem takes_all (lit "new") none stored_page answered_page (lit "a")
      stored_page-HasDistinct refl answered_page-IsLed answered_page-quiet

restore-persist_example :
    ((j : Text)
      → thread (restore takes_all (lit "new") none blank) j
        ≡ repacked (takes_all (pack true (snapshot_chat app))) (thread app j))
    × ((restore takes_all (lit "new") none blank).active ≡ app.active)
unfolding lit
restore-persist_example =
    restore-persist takes_all (lit "new") none app blank app-IsConsistent refl refl refl

listed-restore_example :
    (busy_of (lit "one") (restore takes_all (lit "new") none blank).chats ≡ false)
    × (listed same (lit "one") (restore takes_all (lit "new") none blank)
        ≡ waits (thread app (lit "one")))
unfolding lit
listed-restore_example =
    listed-restore takes_all same (lit "new") (lit "one") none app blank app-IsConsistent refl refl
      refl

marks_panels_example :
    (marks (tabs_html app) ≡ 12 + 24 * length app.chats + 2 * id_marks (λ c. c.id) app.chats)
    × (marks (queue_html (chat_jobs same app))
        ≡ 6 + 24 * length (chat_jobs same app) + id_marks (λ j. j.id) (chat_jobs same app))
marks_panels_example = marks_panels app (chat_jobs same app)
