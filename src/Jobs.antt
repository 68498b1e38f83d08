-- ===== src/Jobs.antt =====
-- The background jobs of the page (`renderJobs`): which job the banner, the form for downloads and the
-- buttons of the models show, and what they show of it.
pub mod Watch
pub mod Actions
use mikrollm.Base.{
  ℕ, zero, Option, none, some, Bool, true, false, not, ◌&&◌, ◌||◌, List, [], ◌∷◌, ◌++◌, map,
  if◌then◌else◌, ◌==◌, text_eq, any, find, head?, select,
}
use mikrollm.Base.Text.{Text, lit, is_empty, either, starts_with}
use mikrollm.Html.Pieces.{Piece, tag, words, raw, html}

-- A job as the server tells of it; empty texts stand for missing fields.
pub record Job : Type 0 where
  pub kind : Text
  pub status : Text
  pub backend : Text
  pub backend_id : Text
  pub model : Text
  pub percent : ℕ
  pub error : Text
  pub message : Text
  pub log : Text

-- The answer of the server: `data.jobs` and `data.running`.
pub record Jobs : Type 0 where
  pub jobs : List Job
  pub running : Bool

unfoldable pub is_running : Job → Bool
unfolding lit
is_running j = j.status == lit "running"

unfoldable pub is_pull : Job → Bool
unfolding lit
is_pull j = j.kind == lit "pull"

unfoldable pub is_load : Job → Bool
unfolding lit
is_load j = j.kind == lit "load"

unfoldable pub is_done : Job → Bool
unfolding lit
is_done j = j.status == lit "done"

unfoldable pub is_failed : Job → Bool
unfolding lit
is_failed j = j.status == lit "error"

abbrev pub or_first : Option Job → Option Job → Option Job
or_first none other = other
or_first (some j) other = some j

-- The job of the banner: the first one that runs, or the first of all while the page still watches.
unfoldable pub latest : Bool → List Job → Option Job
latest watched js = or_first (head? (select is_running js)) (if watched then head? js else none)

-- The job of the form for downloads: a running download first.
unfoldable pub pull_job : List Job → Option Job
pull_job js = or_first (head? (select is_pull (select is_running js))) (head? (select is_pull js))

-- `#job-banner`.
pub record Banner : Type 0 where
  pub hidden : Bool
  pub is_err : Bool
  pub is_ok : Bool
  pub inner_html : Text

unfoldable pub title_of : Job → Text
unfolding lit
title_of j =
    if is_pull j && is_done j
    then lit "Скачано"
    else if is_load j && is_done j
    then lit "В RAM"
    else if is_load j
    then lit "Загрузка в RAM"
    else lit "Скачивание"

-- `(latest.backend || "").replace(/^mac-/, "")`
unfoldable pub host_of : Text → Text
unfolding lit
host_of backend = elim (starts_with (lit "mac-") backend) [
  | true ↦ without_mac backend
  | false ↦ backend
]
  where
    without_mac : Text → Text
    without_mac (m ∷ a ∷ c ∷ dash ∷ rest) = rest
    without_mac t = t

module _ (digits : ℕ → Text) where
  unfoldable pub percent_pieces : Job → List Piece
  unfolding lit
  percent_pieces j =
      if is_pull j && is_running j then tag " · " ∷ words (digits j.percent ++ lit "%") ∷ [] else []

  unfoldable pub bar_pieces : Job → List Piece
  bar_pieces j =
      if is_running j
      then if is_pull j
        then tag "<progress max=\"100\" value=\""
          ∷ raw (digits j.percent)
          ∷ tag "\"></progress>"
          ∷ []
        else tag "<progress></progress>" ∷ []
      else []

  unfoldable pub banner_pieces : Job → List Piece
  banner_pieces j =
      (tag "<div class=\"job-title\">"
        ∷ words (title_of j)
        ∷ tag " · "
        ∷ words (host_of j.backend)
        ∷ tag " · "
        ∷ words j.model
        ∷ [])
      ++ (percent_pieces j
          ++ ((tag "</div>"
                ∷ tag "<div class=\"muted\">"
                ∷ words (either j.error j.message)
                ∷ tag (
                    if is_running j then " · можно обновить страницу — задача не прервётся" else "")
                ∷ tag "</div>"
                ∷ [])
              ++ bar_pieces j))

  unfoldable pub show_banner : Option Job → Banner → Banner
  show_banner none b = record b { hidden = true }
  show_banner (some j) b = record {
    hidden = false;
    is_err = is_failed j;
    is_ok = is_done j;
    inner_html = html (banner_pieces j);
  }

-- The form for downloads: `#pull-card`, `#pull-log`, `#pull-bar`, `#pull-status` and its button.
pub record PullForm : Type 0 where
  pub card_open : Bool
  pub log_hidden : Bool
  pub bar_hidden : Bool
  pub log : Text
  pub bar : ℕ
  pub status : Text
  pub disabled : Bool

unfoldable pub show_pull : Option Job → PullForm → PullForm
show_pull none f = record f { disabled = false }
show_pull (some j) f = record {
  card_open = is_running j || f.card_open;
  log_hidden = false;
  bar_hidden = false;
  log = j.log;
  bar = j.percent;
  status = either j.error j.message;
  disabled = is_running j;
}

-- A button that loads a model: its `data-id` and `data-name`, and what the user sees.
pub record LoadButton : Type 0 where
  pub id : Text
  pub name : Text
  pub disabled : Bool
  pub label : Text

unfoldable pub loads : LoadButton → Job → Bool
loads b j = j.backend_id == b.id && (j.model == b.name && is_load j)

unfoldable pub show_loading : List Job → LoadButton → LoadButton
unfolding lit
show_loading js b =
    if any (loads b) (select is_running js)
    then record b { disabled = true; label = lit "загрузка…" }
    else b
