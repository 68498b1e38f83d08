-- ===== src/Chat/Panels.antt =====
-- The panels beside a thread: the tabs (`renderTabs`), the queue of running generations
-- (`renderChatQueue`) and the history (`renderHist`).
pub mod Markup
pub mod Queue
use mikrollm.Base.{
  ℕ, ◌+◌, Option, none, some, Bool, true, false, not, ◌&&◌, ◌||◌, List, [], ◌∷◌, ◌++◌, map,
  if◌then◌else◌, ◌==◌, text_eq, last?, take, length,
}
use mikrollm.Base.Text.{Text, lit, is_empty, either, contains}
use mikrollm.Html.Pieces.{Piece, tag, words, raw, html}
use mikrollm.Chat.{Message, Role, user, assistant}
use mikrollm.Chat.Store.{Chat, App}

-- The strings that `map` gives, joined.
abbrev pub joined {ℓ} : {A : Type ℓ} → (A → Text) → List A → Text
joined f [] = []
joined f (a ∷ as') = f a ++ joined f as'

-- The tab of a chat, from whether it is the active one and busy, its id and its title.
unfoldable pub tab_pieces : Bool → Bool → Text → Text → List Piece
unfolding lit
tab_pieces active busy id title =
    tag "<button type=\"button\" class=\"chat-tab"
    ∷ tag (if active then " active" else "")
    ∷ tag (if busy then " is-busy" else "")
    ∷ tag "\" data-id=\""
    ∷ raw id
    ∷ tag "\"><span>"
    ∷ words (either title (lit "Новый чат"))
    ∷ tag "</span><span class=\"chat-tab-x\" data-close=\""
    ∷ raw id
    ∷ tag "\" title=\"закрыть\">×</span></button>"
    ∷ []

unfoldable pub tab_html : Bool → Chat → Text
tab_html active c = html (tab_pieces active c.busy c.id c.title)

abbrev pub new_tab : List Piece
new_tab =
    tag
      "<button type=\"button\" class=\"chat-tab-new\" id=\"chat-tab-new\" title=\"Новый чат\">+</button>"
    ∷ []

unfoldable pub tabs_html : App → Text
tabs_html s = joined (λ c. tab_html (c.id == s.active) c) s.chats ++ html new_tab

-- A line of the queue.
pub record Job : Type 0 where
  pub id : Text
  pub kind : Text
  pub prompt : Text
  pub status : Text

-- The last prompt of the user that is not empty, over `found` so far.
unfoldable pub prompt_from : Text → List Message → Text
prompt_from found [] = found
prompt_from found (m ∷ ms) =
    prompt_from (elim m.role [ user ↦ either m.content found | assistant ↦ found ]) ms

unfoldable pub last_pending : List Message → Bool
last_pending ms = elim (last? ms) [ none ↦ false | some m ↦ m.pending ]

-- `!!(c.busy || (last && last.pending))`
abbrev pub is_pending : Bool → List Message → Bool
is_pending busy ms = busy || last_pending ms

-- What `renderHist` writes in place of the content of a message.
abbrev pub has_image : Message → Bool
has_image m = m.had_image || elim m.picture [ none ↦ false | some _ ↦ true ]

abbrev pub has_film : Message → Bool
has_film m = elim m.film [ none ↦ false | some _ ↦ true ]

module _ (to_lower : Text → Text) where
  -- The kind of a generation that has none, by the last message; `/видео/i` and `/изображ/i` are
  -- searched in the text in lower case.
  unfoldable pub guess_kind : Option Message → Text
  unfolding lit
  guess_kind none = lit "чат"
  guess_kind (some m) =
      if has_film m || contains (to_lower m.content) (lit "видео")
      then lit "видео"
      else if elim m.picture [ none ↦ false | some _ ↦ true ]
          || contains (to_lower m.content) (lit "изображ")
      then lit "изображение"
      else lit "чат"

  unfoldable pub job_of : List Message → Chat → Job
  unfolding lit
  job_of ms c = record {
    id = c.id;
    kind = if is_empty c.gen_kind then guess_kind (last? ms) else c.gen_kind;
    prompt = either (prompt_from [] ms) (either c.title (lit "генерация"));
    status = elim (last? ms) [
      | none ↦ lit "идёт"
      | some m ↦ if m.pending && not (is_empty m.content) then m.content else lit "идёт"
    ];
  }

  unfoldable pub jobs_of : (ℕ → List Message) → List Chat → List Job
  jobs_of heap [] = []
  jobs_of heap (c ∷ cs) =
      let ms = heap c.messages in
      let rest = jobs_of heap cs in if is_pending c.busy ms then job_of ms c ∷ rest else rest

  unfoldable pub chat_jobs : App → List Job
  chat_jobs s = jobs_of s.heap s.chats

unfoldable pub job_pieces : Job → List Piece
job_pieces j =
    tag "<li data-chat=\""
    ∷ raw j.id
    ∷ tag "\"><span class=\"pill\">"
    ∷ words j.kind
    ∷ tag "</span><span class=\"q-prev\">"
    ∷ words j.prompt
    ∷ tag "</span><span class=\"muted\">"
    ∷ words j.status
    ∷ tag "</span></li>"
    ∷ []

unfoldable pub job_html : Job → Text
job_html j = html (job_pieces j)

unfoldable pub queue_html : List Job → Text
queue_html [] = html (tag "<p class=\"muted\">Сейчас ничего не генерируется.</p>" ∷ [])
queue_html (j ∷ js) =
    html (tag "<ul class=\"chat-q-jobs\">" ∷ [])
    ++ (joined job_html (j ∷ js) ++ html (tag "</ul>" ∷ []))

-- The first prompt of a thread, which the history shows as its task.
unfoldable pub task_of : List Message → Text
task_of [] = []
task_of (m ∷ ms) =
    let rest = task_of ms in elim m.role [ user ↦ either m.content rest | assistant ↦ rest ]

unfoldable pub hist_text : Message → Text
unfolding lit
hist_text m =
    if has_film m
    then lit "видео"
    else if has_image m
    then lit "изображение"
    else if m.pending
    then either m.content (lit "генерация…")
    else m.content

unfoldable pub hist_line : Message → Text
unfolding lit
hist_line m =
    elim m.role [ user ↦ lit "Вы: " | assistant ↦ lit "Модель: " ] ++ take 80 (hist_text m)

-- The panel of the history: the task, empty if it is hidden, whether the note is hidden, the lines
-- with whether each is marked as the task, and whether the input asks for an edit.
pub record History : Type 0 where
  pub task : Text
  pub note_hidden : Bool
  pub lines : List (Text × Bool)
  pub edits : Bool

abbrev pub is_user : Role → Bool
is_user user = true
is_user assistant = false

unfoldable pub hist_lines : List Message → List (Text × Bool)
hist_lines [] = []
hist_lines (m ∷ ms) = (hist_line m, is_user m.role) ∷ map (λ n. (hist_line n, false)) ms

unfoldable pub render_hist : List Message → History
unfolding lit
render_hist ms = record {
  task = if is_empty (task_of ms) then [] else lit "Задача: " ++ task_of ms;
  note_hidden = not (is_empty ms);
  lines = hist_lines ms;
  edits = not (is_empty ms);
}
