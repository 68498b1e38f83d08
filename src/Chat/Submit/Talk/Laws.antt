-- ===== src/Chat/Submit/Talk/Laws.antt =====
-- What the request of a text chat comes to on the chats of the page.
use mikrollm.Base.{
  refl, sym, ◌∙◌, Option, none, some, Bool, true, false, List, [], ◌∷◌, ◌++◌, eq_refl, text_eq,
  arith, Bool-cases, inl, inr,
}
use mikrollm.Base.Text.{Text, split}
use mikrollm.Chat.Stream.{Chunk, Reading, clean, payload, is_skipped, take_line, take_text}
use mikrollm.Chat.Store.{Bag, App}
use mikrollm.Chat.Store.View.{IsConsistent}
use mikrollm.Chat.Store.Steps.{Action, finish}
use mikrollm.Chat.Poll.Rounds.{own-append, closed-append, Rounds}
use mikrollm.Chat.Submit.Media.Settles.{play, Settles, play-Settles}
use mikrollm.Chat.Submit.Talk.{
  Ending, Response, ended, refused, no_stream, streams, fresh, say_parsed, say_line, say_lines,
  say_pump, read_pump, conclude, end_of, refusal, missing_stream, run_talk,
}

abbrev pub is_some {ℓ} : {A : Type ℓ} → Option A → Bool
is_some none = false
is_some (some a) = true

-- Whether a request has ended.
abbrev pub has_ended : Response → Bool
has_ended (streams ts e) = is_some e
has_ended _ = true

module _ (parse_json : Text → Option Chunk) (id : Text) where
  -- Actions on the chat without an end.
  abbrev Talks : List Action → Type 0
  Talks acts = Rounds id false acts

  Talks-append : (xs ys : List Action) → Talks xs → Talks ys → Talks (xs ++ ys)
  Talks-append xs ys (mine, open_x) (also, open_y) =
      let both = own-append id xs ys in
      (ground (arith, both, mine, also), closed-append false xs ys ∙ rw open_x open_y)

  say_parsed-Talks :
      (shown : Bool) (o : Option Chunk) (r : Reading) → Talks (say_parsed parse_json id shown o r)
  unfolding say_parsed
  say_parsed-Talks shown none r = (refl, refl)
  say_parsed-Talks true (some c) r = (refl, refl)
  say_parsed-Talks false (some c) r = (ground (arith, eq_refl id), refl)

  say_line-Talks :
      (shown : Bool) (line : Text) (r : Reading) → Talks (say_line parse_json id shown line r)
  unfolding say_line
  say_line-Talks shown line r = elim (Bool-cases (is_skipped (clean line))) [
    | inl y ↦ rw y (refl, refl)
    | inr n ↦ rw n (say_parsed-Talks shown (parse_json (payload (clean line))) _)
  ]

  say_lines-Talks :
      (shown : Bool) (ls : List Text) (r : Reading) → Talks (say_lines parse_json id shown ls r)
  unfolding say_lines
  say_lines-Talks shown [] r = (refl, refl)
  say_lines-Talks shown (line ∷ []) r = (refl, refl)
  say_lines-Talks shown (line ∷ m ∷ ls) r =
      Talks-append _ _ (say_line-Talks shown line r)
        (say_lines-Talks shown (m ∷ ls) (take_line parse_json line r))

  say_pump-Talks : (ts : List (Text × Bool)) (r : Reading) → Talks (say_pump parse_json id ts r)
  unfolding say_pump
  say_pump-Talks [] r = (refl, refl)
  say_pump-Talks ((t, shown) ∷ ts) r =
      Talks-append _ _ (say_lines-Talks shown (split 10 (r.buf ++ t)) r)
        (say_pump-Talks ts (take_text parse_json t r))

  end_of-Rounds :
      (acts : List Action) (e : Option Ending) (r : Reading)
      → Talks acts
      → Rounds id (is_some e) (acts ++ end_of parse_json id e r)
  end_of-Rounds acts none r talks = Talks-append acts [] talks (refl, refl)
  end_of-Rounds acts (some e) r (mine, open_acts) =
      let last = finish id (conclude parse_json id e r) ∷ [] in
      let both = own-append id acts last in
      (ground (arith, both, mine, eq_refl id), closed-append false acts last)

  run_talk-Rounds : (r : Response) → Rounds id (has_ended r) (run_talk parse_json id r)
  unfolding run_talk
  run_talk-Rounds (ended e) = end_of-Rounds [] (some e) fresh (refl, refl)
  run_talk-Rounds (refused text status) =
      end_of-Rounds [] (some (refusal parse_json id text status)) fresh (refl, refl)
  run_talk-Rounds no_stream =
      end_of-Rounds [] (some (missing_stream parse_json id)) fresh (refl, refl)
  run_talk-Rounds (streams ts e) =
      end_of-Rounds (say_pump parse_json id ts fresh) e (read_pump parse_json id ts fresh)
        (say_pump-Talks ts fresh)

-- Whatever the request of a text chat leads to, its actions on a consistent playground leave it
-- consistent and leave the messages of every other chat alone, whichever chat is shown while the
-- answer streams in; and once it has ended, done, aborted, refused or failed, the queue of
-- generations does not list its chat.
pub run_talk-Settles :
    (takes : Bag → Bool) (to_lower : Text → Text) (parse_json : Text → Option Chunk) (id j : Text)
    (r : Response) (s : App)
    → IsConsistent s
    → Settles to_lower id j (has_ended r) s (play takes (run_talk parse_json id r) s)
run_talk-Settles takes to_lower parse_json id j r s h =
    let (mine, last) = run_talk-Rounds parse_json id r in
    let after = play-Settles takes to_lower id j (run_talk parse_json id r) false s mine h refl in
    rw (sym last) after
