-- ===== src/Chat/Submit/Again.antt =====
-- The button "Ещё раз" of an answer with a picture or a film (`mediaActions`), up to its request.
pub mod Laws
use mikrollm.Base.{Bool, true, List, [], ◌∷◌, ◌++◌}
use mikrollm.Chat.{Mode, Message, user, assistant}
use mikrollm.Chat.Store.{Chat, Bag, App, write, persist}
use mikrollm.Chat.Store.Ops.{paint_thread, blank_message}
use mikrollm.Chat.Submit.{waiting, start_as}

-- The last message goes if it is an answer.
unfoldable pub pop_answer : List Message → List Message
pop_answer [] = []
pop_answer (m ∷ []) = elim m.role [ assistant ↦ [] | user ↦ m ∷ [] ]
pop_answer (m ∷ n ∷ ms) = m ∷ pop_answer (n ∷ ms)

abbrev pub waiting_message : Message
waiting_message = record (blank_message assistant waiting) { pending = true }

module _ (takes : Bag → Bool) where
  -- The messages of the active chat `c` up to the request.
  unfoldable pub asked_again : Chat → App → App
  asked_again c s =
      let popped = pop_answer (s.heap c.messages) in
      let t =
        paint_thread (record s { heap = write c.messages popped s.heap; messages = c.messages }) in
      persist takes (record t { heap = write c.messages (popped ++ waiting_message ∷ []) t.heap })

  -- `kind` is image or video; the request carries the references, which stay.
  unfoldable pub again : Mode → Chat → App → App
  again kind c s = start_as kind (asked_again c s)
