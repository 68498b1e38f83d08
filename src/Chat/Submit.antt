-- ===== src/Chat/Submit.antt =====
-- The `submit` handler of the playground up to its request: what it refuses, the messages that it adds
-- and the chat that it marks as running.
pub mod Laws
pub mod Payload
pub mod Media
pub mod Talk
pub mod Again
use mikrollm.Base.{Bool, true, not, ◌&&◌, [], if◌then◌else◌}
use mikrollm.Base.Text.{Text, lit, is_empty, trim}
use mikrollm.Chat.{Mode, chat, image, video}
use mikrollm.Chat.Models.{media_kind, model_value, option_media, filter_models, is_chat}
use mikrollm.Chat.Store.{Chat, Bag, App, update_chat}
use mikrollm.Chat.Store.Ops.{set_chat_busy, push_pair}

-- How a submission ends before its request: silently, with the note that a reference is missing, or
-- with a request in a mode for a prompt.
pub data Sent : Type 0 where
  ignored refused : Sent
  sent : Mode → Text → Sent

-- A model for pictures or films changes the mode of a chat.
unfoldable pub media_mode : App → App
media_mode s =
    let kind = media_kind (option_media s.composer) in
    if not (is_chat kind) && is_chat s.composer.mode
    then record s { composer = filter_models (record s.composer { mode = kind }) }
    else s

unfoldable pub prompt_of : Text → Text
unfolding lit
prompt_of text = if is_empty text then lit "по референсам" else text

unfoldable pub waiting : Text
unfolding lit
waiting = lit "генерация…"

-- `genKind`
unfoldable pub kind_name : Mode → Text
unfolding lit
kind_name chat = lit "чат"
kind_name image = lit "изображение"
kind_name video = lit "видео"

abbrev pub running_as : Mode → Chat → Chat
running_as m c = record c { running = true; gen_kind = kind_name m }

-- The start of `runMedia` for the active chat, which is busy and has an abort controller from then on;
-- a request for a text chat starts in the same way.
unfoldable pub start_as : Mode → App → App
start_as m s =
    let t = set_chat_busy s.active true s in
    record t { chats = update_chat s.active (running_as m) t.chats }

-- A request for media takes the references along.
unfoldable pub begin : Mode → App → App
begin m s =
    let t = start_as m s in
    record t { composer = record t.composer { refs = if is_chat m then t.composer.refs else [] } }

module _ (takes : Bag → Bool) (needs_image : Bool) where
  -- The handler behind the change of the mode, for the trimmed text; `needs_image` is
  -- `needsInputImage(paramsSchema)`.
  unfoldable pub try_send : Text → App → App × Sent
  try_send text s =
      let m = s.composer.mode in
      let shot = not (is_empty s.composer.refs) in
      if is_empty text && not (shot && not (is_chat m))
      then (s, ignored)
      else if not (is_chat m) && (needs_image && not shot)
      then (s, refused)
      else (begin m (push_pair takes (prompt_of text) waiting s), sent m (prompt_of text))

  unfoldable pub submit : Text → App → App × Sent
  submit raw s =
      if is_empty (model_value s.composer) then (s, ignored) else try_send (trim raw) (media_mode s)
