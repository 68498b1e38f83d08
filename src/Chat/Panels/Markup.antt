-- ===== src/Chat/Panels/Markup.antt =====
-- The markup characters of the tabs and of the queue: `renderTabs`, `renderChatQueue`.
use mikrollm.Base.{
  ℕ, ◌+◌, ◌*◌, ◌≡◌, refl, Bool, true, false, List, [], ◌∷◌, ◌++◌, ◌==◌, text_eq, length, arith,
}
use mikrollm.Base.Text.{Text, lit}
use mikrollm.Html.Markup.{marks, marks-append}
use mikrollm.Html.Pieces.{tag, piece_html, html, tag_marks, raw_marks, marks-html}
use mikrollm.Chat.Store.{Chat, App}
use mikrollm.Chat.Panels.{
  joined, tab_pieces, tab_html, new_tab, tabs_html, Job, job_pieces, job_html, queue_html,
}

-- The markup characters of the ids of a list.
abbrev pub id_marks {ℓ} : {A : Type ℓ} → (A → Text) → List A → ℕ
id_marks id [] = 0
id_marks id (a ∷ rest) = marks (id a) + id_marks id rest

tag_marks-tab :
    (active busy : Bool) (id title : Text) → tag_marks (tab_pieces active busy id title) ≡ 24
unfolding tab_pieces tag_marks marks lit
tag_marks-tab true true id title = refl
tag_marks-tab true false id title = refl
tag_marks-tab false true id title = refl
tag_marks-tab false false id title = refl

raw_marks-tab :
    (active busy : Bool) (id title : Text)
    → raw_marks (tab_pieces active busy id title) ≡ marks id + (marks id + 0)
unfolding tab_pieces raw_marks
raw_marks-tab active busy id title = refl

tag_marks-job : (j : Job) → tag_marks (job_pieces j) ≡ 24
unfolding job_pieces tag_marks marks lit
tag_marks-job j = refl

raw_marks-job : (j : Job) → raw_marks (job_pieces j) ≡ marks j.id + 0
unfolding job_pieces raw_marks
raw_marks-job j = refl

marks-tabs :
    (s : App) (cs : List Chat)
    → marks (joined (λ c. tab_html (c.id == s.active) c) cs)
      ≡ 24 * length cs + 2 * id_marks (λ c. c.id) cs
unfolding tab_html
marks-tabs s [] = unfold marks in refl
marks-tabs s (c ∷ cs) = omega (
  arith,
  marks-append (tab_html (c.id == s.active) c) (joined (λ c. tab_html (c.id == s.active) c) cs),
  marks-html (tab_pieces (c.id == s.active) c.busy c.id c.title),
  tag_marks-tab (c.id == s.active) c.busy c.id c.title,
  raw_marks-tab (c.id == s.active) c.busy c.id c.title,
  marks-tabs s cs,
)

marks-tabs_html :
    (s : App) → marks (tabs_html s) ≡ 12 + 24 * length s.chats + 2 * id_marks (λ c. c.id) s.chats
unfolding tabs_html
marks-tabs_html s =
    let new_marks : marks (html new_tab) ≡ 12 = unfold html piece_html marks lit in refl in
    omega (
      arith,
      marks-append (joined (λ c. tab_html (c.id == s.active) c) s.chats) (html new_tab),
      new_marks,
      marks-tabs s s.chats,
    )

marks-jobs : (js : List Job) → marks (joined job_html js) ≡ 24 * length js + id_marks (λ j. j.id) js
unfolding job_html
marks-jobs [] = unfold marks in refl
marks-jobs (j ∷ js) = omega (
  arith,
  marks-append (job_html j) (joined job_html js),
  marks-html (job_pieces j),
  tag_marks-job j,
  raw_marks-job j,
  marks-jobs js,
)

marks-queue_html :
    (js : List Job) → marks (queue_html js) ≡ 6 + 24 * length js + id_marks (λ j. j.id) js
unfolding queue_html
marks-queue_html [] = unfold html piece_html marks lit in refl
marks-queue_html (j ∷ js) =
    let start : marks (html (tag "<ul class=\"chat-q-jobs\">" ∷ [])) ≡ 4 =
      unfold html piece_html marks lit in refl in
    let end : marks (html (tag "</ul>" ∷ [])) ≡ 2 = unfold html piece_html marks lit in refl in
    omega (
      arith,
      marks-append (html (tag "<ul class=\"chat-q-jobs\">" ∷ []))
          (joined job_html (j ∷ js) ++ html (tag "</ul>" ∷ [])),
      marks-append (joined job_html (j ∷ js)) (html (tag "</ul>" ∷ [])),
      start,
      end,
      marks-jobs (j ∷ js),
    )

-- However many chats there are and whatever their titles, prompts and answers, the tabs hold 24 markup
-- characters for each chat, 12 for the button of a new one, and twice those of each id, and the queue
-- of generations 24 for each, 6 around them, and those of each id: the ids are the only texts that can
-- add markup.
pub marks_panels :
    (s : App) (js : List Job)
    → (marks (tabs_html s) ≡ 12 + 24 * length s.chats + 2 * id_marks (λ c. c.id) s.chats)
      × (marks (queue_html js) ≡ 6 + 24 * length js + id_marks (λ j. j.id) js)
marks_panels s js = (marks-tabs_html s, marks-queue_html js)
