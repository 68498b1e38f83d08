-- ===== src/Examples/Boards.antt =====
-- The theorems on the board of queues and on the dialogs of an alias and of a model, on small pages.
use mikrollm.Base.{
  All, ℕ, zero, ◌+◌, ◌≡◌, refl, Option, none, some, Bool, true, false, [], ◌∷◌, list_beq,
}
use mikrollm.Base.Text.{Text, lit}
use mikrollm.Html.Markup.{marks}
use mikrollm.Html.Pieces.{tag_marks}
use mikrollm.Board.{Job, Queue, board_html}
use mikrollm.Board.Laws.{board_pieces, leaks, marks-board_html}
use mikrollm.Board.Live.{fails, fires, history, begun, rounds, last_shown, history-board}
use mikrollm.Model.{Host, show_model}
use mikrollm.Model
use mikrollm.Model.Laws.{IsGoodRow, says_where, show_model_lem}
use mikrollm.Alias.{Dataset, Dialog, is_one, show_alias}
use mikrollm.Alias.Upstream.{UpOption, Select, select_value}
use mikrollm.Alias.Upstream.Laws.{show_alias-upstream}

abbrev tally : ℕ → Text
tally n = b'7' ∷ []

plain_tally : (n : ℕ) → marks (tally n) ≡ 0
unfolding marks
plain_tally n = refl

abbrev waiting_job : Job
waiting_job = record {
  seq = 1;
  status = lit "<b>";
  provider = [];
  backend = [];
  model = lit "m";
  preview = lit "<i>";
  key_prefix = lit "sk";
}

abbrev queue : Queue
queue = record {
  name = lit "q";
  alias = lit "a";
  waiting = 1;
  running = 0;
  steps = [];
  jobs = waiting_job ∷ [];
}

marks-board_html_example :
    marks (board_html tally (queue ∷ []))
    ≡ tag_marks (board_pieces tally (queue ∷ [])) + leaks (queue ∷ [])
marks-board_html_example = marks-board_html tally plain_tally (queue ∷ [])

history-board_example :
    ((history tally (fires ∷ fails ∷ fires ∷ []) (begun tally [])).requests
        + (history tally (fires ∷ fails ∷ fires ∷ []) (begun tally [])).timers
      ≡ 1)
    × (history tally (rounds tally (some (queue ∷ []) ∷ none ∷ [])) (begun tally [])
        ≡ begun tally (last_shown tally [] (some (queue ∷ []) ∷ none ∷ [])))
history-board_example =
    history-board tally (fires ∷ fails ∷ fires ∷ []) (some (queue ∷ []) ∷ none ∷ []) []

abbrev dataset : Dataset
dataset = record {
  id = lit "4";
  alias = lit "fast";
  system = [];
  remote = [];
  provider = lit "Ollama";
  upstream = lit "qwen";
  backends = lit "1, 3";
  lb = [];
  hub_share = [];
  context = [];
  detected = [];
  fallback = [];
  cache = [];
  think = [];
  temp = [];
  predict = [];
  ctx = [];
  extra = [];
  lock_think = [];
  lock_temp = [];
  lock_predict = [];
  lock_ctx = [];
}

abbrev listed_option : Text → Bool → UpOption
listed_option v left = record {
  value = v;
  provider = lit "vLLM";
  backends = lit "2";
  extra = left;
  off = false;
}

abbrev dialog : Dialog
dialog = record {
  action = [];
  heading = [];
  name = [];
  read_only = false;
  local_part = record {
    off = false;
    providers = [] ∷ lit "Ollama" ∷ [];
    provider = [];
    upstream = record {
      options = listed_option (lit "llama") false ∷ listed_option (lit "qwen") true ∷ [];
      selected = some zero;
    };
    boxes = (lit "1", false) ∷ (lit "2", true) ∷ [];
    lb = [];
    hub = false;
  };
  note_hidden = true;
  context = [];
  context_hint = [];
  fallback = record { options = ([], false) ∷ []; value = [] };
  cache = [];
  think = [];
  temp = [];
  range = [];
  unset = true;
  predict = [];
  ctx = [];
  extra = [];
  locks = record { think = false; temp = false; predict = false; ctx = false };
  delete_action = [];
  delete_hidden = true;
}

abbrev first_option : Select → Option ℕ
first_option s = some zero

abbrev unclamped : Text → Text
unclamped t = t

show_alias-upstream_example :
    select_value (show_alias first_option unclamped dataset dialog).local_part.upstream
    ≡ dataset.upstream
unfolding is_one lit list_beq
show_alias-upstream_example =
    show_alias-upstream first_option unclamped dataset dialog refl refl refl

abbrev server : Host
server = record {
  id = lit "3";
  name = lit "mac";
  short = [];
  hint = [];
  label = [];
  kind = [];
  can_load = true;
  can_delete = true;
  loaded = false;
  hub = false;
  online = false;
  cloud = false;
}

abbrev model : Model.Dataset
model = record {
  name = lit "qwen";
  title = [];
  connected = [];
  hub = [];
  hub_name = [];
  online = [];
  provider = lit "Ollama";
  size = [];
  ctx = [];
  price = [];
  media = [];
  schedule = [];
  ctx_n = [];
  hosts = some (server ∷ []);
}

show_model_lem_example :
    All (IsGoodRow model.name) (show_model model).rows × (says_where (show_model model) ≡ true)
show_model_lem_example = show_model_lem model
