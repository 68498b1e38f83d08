-- ===== src/Chat/Submit/Again/Laws.antt =====
-- What the button "Ещё раз" does to the chats.
use mathlib.Core.Path.{fun_ext}
use mikrollm.Base.{ℕ, ◌≡◌, refl, some, Bool, List, [], ◌∷◌, ◌++◌, nat_eq, arith}
use mikrollm.Chat.{Mode, Message}
use mikrollm.Chat.Store.{Chat, Bag, App, chat_by_id, write}
use mikrollm.Chat.Store.View.{IsConsistent}
use mikrollm.Chat.Store.Edits.{Edited, Edited-Same, addr_of_chat, persist-Edited}
use mikrollm.Chat.Submit.Laws.{start_as-Same}
use mikrollm.Chat.Submit.Again.{pop_answer, waiting_message, asked_again, again}

write-write :
    (a : ℕ) (ms ns : List Message) (heap : ℕ → List Message)
    → write a ms (write a ns heap) ≡ write a ms heap
write-write a ms ns heap = fun_ext λ b. ground arith

-- The messages of a chat after the button.
abbrev pub redone : List Message → List Message
redone ms = pop_answer ms ++ waiting_message ∷ []

module _ (takes : Bag → Bool) (s : App) (h : IsConsistent s) (c : Chat)
    (here : chat_by_id s.active s.chats ≡ some c) where
  own_array : c.messages ≡ s.messages
  own_array =
      let e = addr_of_chat s.active s.chats c here in let f = h.aliased in ground (arith, e, f)

  asked_again-Edited :
      Edited s (asked_again takes c s) s.active c.messages (redone (s.heap c.messages))
  unfolding asked_again
  asked_again-Edited = persist-Edited takes s h record {
    found = addr_of_chat s.active s.chats c here;
    skeleton_eq = refl;
    active_eq = refl;
    messages_eq = own_array;
    heap_eq =
        write-write c.messages (redone (s.heap c.messages)) (pop_answer (s.heap c.messages)) s.heap;
    next_eq = refl;
  }

  pub again-Edited :
      (kind : Mode)
      → Edited s (again takes kind c s) s.active c.messages (redone (s.heap c.messages))
  unfolding again
  again-Edited kind = Edited-Same asked_again-Edited (start_as-Same kind (asked_again takes c s))
