-- ===== src/Board.antt =====
-- The board of queues (`queueBoard`): the markup of its cards.
pub mod Laws
pub mod Live
use mikrollm.Base.{
  ℕ, String, Bool, not, ◌&&◌, List, [], ◌∷◌, ◌++◌, if◌then◌else◌, ◌==◌, text_eq, nat_eq, leb, take,
  select,
}
use mikrollm.Base.Text.{Text, lit, is_empty, join}
use mikrollm.Html.Pieces.{Piece, tag, board_words, raw, html}

-- A step of a queue, a job and a queue as the server tells of them; `cap` 0 stands for none, and empty
-- texts for missing fields.
pub record Lane : Type 0 where
  pub alias : Text
  pub provider : Text
  pub busy : ℕ
  pub cap : ℕ
  pub percent : ℕ
  pub healthy : Bool

pub record Job : Type 0 where
  pub seq : ℕ
  pub status : Text
  pub provider : Text
  pub backend : Text
  pub model : Text
  pub preview : Text
  pub key_prefix : Text

pub record Queue : Type 0 where
  pub name : Text
  pub alias : Text
  pub waiting : ℕ
  pub running : ℕ
  pub steps : List Lane
  pub jobs : List Job

-- The statuses that have a word, with their words.
unfoldable pub labels : List (Text × String)
unfolding lit
labels =
    (lit "waiting", "ждет")
    ∷ (lit "running", "идёт")
    ∷ (lit "done", "готово")
    ∷ (lit "error", "ошибка")
    ∷ (lit "dropped", "сброшен")
    ∷ (lit "overflow", "запас")
    ∷ (lit "canceled", "отмена")
    ∷ []

abbrev pub word_of : Text → List (Text × String) → Piece
word_of s [] = raw s
word_of s ((k, w) ∷ rest) = if k == s then tag w else word_of s rest

-- `stLabel`: a status without a word is put in as it is.
unfoldable pub st_label : Text → Piece
st_label s = word_of s labels

unfoldable pub where_of : Job → Piece
unfolding lit
where_of j =
    if j.status == lit "waiting"
    then tag "в очереди"
    else board_words
        (join (lit " · ") (select (λ t. not (is_empty t)) (j.provider ∷ j.backend ∷ j.model ∷ [])))

module _ (digits : ℕ → Text) where
  unfoldable pub lane_pieces : Lane → List Piece
  unfolding lit
  lane_pieces l =
      tag "<div class=\"q-lane"
      ∷ tag (if not (l.cap == 0) && leb l.cap l.busy then " is-full" else "")
      ∷ tag (if l.healthy then "" else " is-down")
      ∷ tag "\"><div class=\"q-lane-h\">"
      ∷ board_words l.alias
      ∷ tag "</div><div class=\"q-lane-p\">"
      ∷ board_words (if is_empty l.provider then lit "—" else l.provider)
      ∷ tag (if l.healthy then "" else " · нет связи")
      ∷ tag "</div><div class=\"q-bar\"><span style=\"width:"
      ∷ raw (digits l.percent)
      ∷ tag "%\"></span></div><div class=\"q-lane-n\">"
      ∷ raw (digits l.busy)
      ∷ tag "/"
      ∷ raw (digits l.cap)
      ∷ tag "</div></div>"
      ∷ []

  unfoldable pub preview_pieces : Text → List Piece
  preview_pieces [] = []
  preview_pieces (c ∷ t) = tag "<span class=\"q-prev\">" ∷ board_words (c ∷ t) ∷ tag "</span>" ∷ []

  unfoldable pub job_pieces : Job → List Piece
  job_pieces j =
      (tag "<li><span class=\"seq\">#"
        ∷ raw (digits j.seq)
        ∷ tag "</span><span class=\"st-"
        ∷ board_words j.status
        ∷ tag "\">"
        ∷ st_label j.status
        ∷ tag "</span>"
        ∷ [])
      ++ (preview_pieces j.preview
          ++ (tag "<span>"
              ∷ where_of j
              ∷ tag "</span><span class=\"muted\">"
              ∷ raw j.key_prefix
              ∷ tag "</span></li>"
              ∷ []))

  abbrev pub pieces_of {ℓ} : {A : Type ℓ} → (A → List Piece) → List A → List Piece
  pieces_of f [] = []
  pieces_of f (a ∷ rest) = f a ++ pieces_of f rest

  unfoldable pub lanes_pieces : List Lane → List Piece
  lanes_pieces [] = tag "<p class=\"muted\">нет шагов</p>" ∷ []
  lanes_pieces (l ∷ ls) = pieces_of lane_pieces (l ∷ ls)

  unfoldable pub jobs_pieces : List Job → List Piece
  jobs_pieces [] = []
  jobs_pieces (j ∷ js) =
      (tag "<ul class=\"q-jobs\">" ∷ []) ++ (pieces_of job_pieces (j ∷ js) ++ (tag "</ul>" ∷ []))

  unfoldable pub queue_pieces : Queue → List Piece
  queue_pieces q =
      (tag "<article class=\"q-card\"><div class=\"q-title\"><span class=\"host-name\">"
        ∷ board_words q.name
        ∷ tag "</span> <code>"
        ∷ board_words q.alias
        ∷ tag "</code><span class=\"pill\">ждет "
        ∷ raw (digits q.waiting)
        ∷ tag "</span><span class=\"pill ram\">идёт "
        ∷ raw (digits q.running)
        ∷ tag "</span></div><div class=\"q-lanes\">"
        ∷ [])
      ++ (lanes_pieces q.steps
          ++ ((tag "</div>" ∷ []) ++ (jobs_pieces (take 12 q.jobs) ++ (tag "</article>" ∷ []))))

  unfoldable pub board_html : List Queue → Text
  board_html [] =
      html (tag "<p class=\"muted\">Очередь пуста. Создайте её на вкладке «Очереди».</p>" ∷ [])
  board_html (q ∷ qs) = html (pieces_of queue_pieces (q ∷ qs))
