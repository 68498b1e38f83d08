-- ===== src/Board/Laws.antt =====
-- The markup characters of the board of queues, and which texts of the server can add some.
use mikrollm.Base.{
  ℕ, ◌+◌, ◌≡◌, refl, ap, ◌∙◌, Bool, List, [], ◌∷◌, ◌++◌, if◌then◌else◌, ◌==◌, text_eq, any, take,
  arith, String, Bool-cases, inl, inr,
}
use mikrollm.Base.Text.{Text, lit}
use mikrollm.Html.Markup.{marks}
use mikrollm.Html.Pieces.{
  Piece, tag, words, board_words, raw, html, tag_marks, raw_marks, marks-html,
}
use mikrollm.Board.{
  Lane, Job, Queue, labels, word_of, st_label, where_of, lane_pieces, preview_pieces, job_pieces,
  pieces_of, lanes_pieces, jobs_pieces, queue_pieces, board_html,
}

raw_marks-append : (ps qs : List Piece) → raw_marks (ps ++ qs) ≡ raw_marks ps + raw_marks qs
unfolding raw_marks
raw_marks-append [] qs = omega arith
raw_marks-append (tag t ∷ ps) qs = raw_marks-append ps qs
raw_marks-append (words t ∷ ps) qs = raw_marks-append ps qs
raw_marks-append (board_words t ∷ ps) qs = raw_marks-append ps qs
raw_marks-append (raw t ∷ ps) qs = omega (arith, raw_marks-append ps qs)

-- Whether a status has a word.
abbrev pub is_labelled : Text → List (Text × String) → Bool
is_labelled s ls = any (λ (e : Text × String). e.0 == s) ls

-- The markup characters that a job of a queue adds: those of its key, and those of a status that has
-- no word.
abbrev pub leak_of : Job → ℕ
leak_of j = (if is_labelled j.status labels then 0 else marks j.status) + marks j.key_prefix

abbrev pub leaks_of : List Job → ℕ
leaks_of [] = 0
leaks_of (j ∷ js) = leak_of j + leaks_of js

abbrev pub leaks : List Queue → ℕ
leaks [] = 0
leaks (q ∷ qs) = leaks_of (take 12 q.jobs) + leaks qs

-- The pieces of a board.
abbrev pub board_pieces : (ℕ → Text) → List Queue → List Piece
board_pieces digits [] =
    tag "<p class=\"muted\">Очередь пуста. Создайте её на вкладке «Очереди».</p>" ∷ []
board_pieces digits (q ∷ qs) = pieces_of digits (queue_pieces digits) (q ∷ qs)

word_of-raw :
    (s : Text) (ls : List (Text × String)) (ps : List Piece)
    → raw_marks (word_of s ls ∷ ps) ≡ (if is_labelled s ls then 0 else marks s) + raw_marks ps
unfolding raw_marks
word_of-raw s [] ps = refl
word_of-raw s ((k, w) ∷ ls) ps = elim (Bool-cases (k == s)) [
  | inl y ↦ rw y (omega arith)
  | inr n ↦ rw n (word_of-raw s ls ps)
]

where_of-raw : (j : Job) (ps : List Piece) → raw_marks (where_of j ∷ ps) ≡ raw_marks ps
unfolding where_of raw_marks
where_of-raw j ps = elim (Bool-cases (j.status == lit "waiting")) [
  | inl y ↦ rw y refl
  | inr n ↦ rw n refl
]

module _ (digits : ℕ → Text) (plain : (n : ℕ) → marks (digits n) ≡ 0) where
  preview-raw : (t : Text) → raw_marks (preview_pieces digits t) ≡ 0
  unfolding preview_pieces raw_marks
  preview-raw [] = refl
  preview-raw (c ∷ t) = refl

  lane-raw : (l : Lane) → raw_marks (lane_pieces digits l) ≡ 0
  unfolding lane_pieces raw_marks
  lane-raw l = omega (arith, plain l.percent, plain l.busy, plain l.cap)

  job-raw : (j : Job) → raw_marks (job_pieces digits j) ≡ leak_of j
  unfolding job_pieces raw_marks st_label
  job-raw j =
      let end =
        tag "<span>"
        ∷ where_of j
        ∷ tag "</span><span class=\"muted\">"
        ∷ raw j.key_prefix
        ∷ tag "</span></li>"
        ∷ [] in
      omega (
        arith,
        plain j.seq,
        word_of-raw j.status labels (tag "</span>" ∷ (preview_pieces digits j.preview ++ end)),
        raw_marks-append (preview_pieces digits j.preview) end,
        preview-raw j.preview,
        where_of-raw j
            (tag "</span><span class=\"muted\">" ∷ raw j.key_prefix ∷ tag "</span></li>" ∷ []),
      )

  lanes-raw : (ls : List Lane) → raw_marks (pieces_of digits (lane_pieces digits) ls) ≡ 0
  lanes-raw [] = unfold raw_marks in refl
  lanes-raw (l ∷ ls) =
      raw_marks-append (lane_pieces digits l) (pieces_of digits (lane_pieces digits) ls)
      ∙ omega (arith, lane-raw l, lanes-raw ls)

  steps-raw : (ls : List Lane) → raw_marks (lanes_pieces digits ls) ≡ 0
  unfolding lanes_pieces
  steps-raw [] = unfold raw_marks in refl
  steps-raw (l ∷ ls) = lanes-raw (l ∷ ls)

  all_jobs-raw : (js : List Job) → raw_marks (pieces_of digits (job_pieces digits) js) ≡ leaks_of js
  all_jobs-raw [] = unfold raw_marks in refl
  all_jobs-raw (j ∷ js) =
      raw_marks-append (job_pieces digits j) (pieces_of digits (job_pieces digits) js)
      ∙ omega (arith, job-raw j, all_jobs-raw js)

  jobs-raw : (js : List Job) → raw_marks (jobs_pieces digits js) ≡ leaks_of js
  unfolding jobs_pieces raw_marks
  jobs-raw [] = refl
  jobs-raw (j ∷ js) =
      raw_marks-append (pieces_of digits (job_pieces digits) (j ∷ js)) (tag "</ul>" ∷ [])
      ∙ omega (arith, all_jobs-raw (j ∷ js))

  queue-raw : (q : Queue) → raw_marks (queue_pieces digits q) ≡ leaks_of (take 12 q.jobs)
  unfolding queue_pieces raw_marks
  queue-raw q =
      let shown = jobs_pieces digits (take 12 q.jobs) in
      omega (
        arith,
        plain q.waiting,
        plain q.running,
        steps-raw q.steps,
        jobs-raw (take 12 q.jobs),
        raw_marks-append (lanes_pieces digits q.steps)
            (tag "</div>" ∷ (shown ++ (tag "</article>" ∷ []))),
        raw_marks-append shown (tag "</article>" ∷ []),
      )

  queues-raw : (qs : List Queue) → raw_marks (pieces_of digits (queue_pieces digits) qs) ≡ leaks qs
  queues-raw [] = unfold raw_marks in refl
  queues-raw (q ∷ qs) =
      raw_marks-append (queue_pieces digits q) (pieces_of digits (queue_pieces digits) qs)
      ∙ omega (arith, queue-raw q, queues-raw qs)

  board-raw : (qs : List Queue) → raw_marks (board_pieces digits qs) ≡ leaks qs
  board-raw [] = unfold raw_marks in refl
  board-raw (q ∷ qs) = queues-raw (q ∷ qs)

board_html-pieces :
    (digits : ℕ → Text) (qs : List Queue) → board_html digits qs ≡ html (board_pieces digits qs)
unfolding board_html
board_html-pieces digits [] = refl
board_html-pieces digits (q ∷ qs) = refl

-- Whatever the queues, if numbers have no markup characters, the board holds those of its literals and
-- those that the twelve jobs shown of each queue leak: the characters of the prefix of the key, and of
-- a status that has no word. The names, providers, models and previews add none.
pub marks-board_html :
    (digits : ℕ → Text)
    → ((n : ℕ) → marks (digits n) ≡ 0)
    → (qs : List Queue)
    → marks (board_html digits qs) ≡ tag_marks (board_pieces digits qs) + leaks qs
marks-board_html digits plain qs =
    ap marks (board_html-pieces digits qs)
    ∙ marks-html (board_pieces digits qs)
    ∙ ap (λ n. tag_marks (board_pieces digits qs) + n) (board-raw digits plain qs)
