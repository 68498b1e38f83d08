-- ===== src/Chat/Stream/Laws.antt =====
-- The lines of a stream and the pieces that its text comes in: `pump`.
use mathlib.Core.List.{reverse, reverse-cons, reverse-reverse, append-nil, append_assoc}
use mikrollm.Base.{
  ℕ, ◌≡◌, refl, sym, ap, ◌∙◌, Option, none, some, false, List, [], ◌∷◌, ◌++◌, ◌==◌, nat_eq, All,
  Bool-cases, inl, inr,
}
use mikrollm.Base.Text.{Text, split_from, split}
use mikrollm.Chat.Stream.{
  Chunk, Reading, take_chunk, take_parsed, take_line, take_lines, take_text, pump, clean, payload,
  is_skipped,
}

-- Text without a line feed.
abbrev IsLine : Text → Type 0
IsLine s = All (λ c. (c == 10) ≡ false) s

IsLine-snoc : (c : ℕ) (s : Text) → (c == 10) ≡ false → IsLine s → IsLine (s ++ c ∷ [])
IsLine-snoc c [] h t = (h, tt)
IsLine-snoc c (d ∷ s) h (k, t) = (k, IsLine-snoc c s h t)

-- The part that is being read may be put back in front of the text.
split_from-line :
    (cur s u : Text) → IsLine s → split_from 10 cur (s ++ u) ≡ split_from 10 (reverse s ++ cur) u
unfolding split_from
split_from-line cur [] u h = refl
split_from-line cur (c ∷ s) u (n, h) =
    rw n (split_from-line (c ∷ cur) s u h)
    ∙ ap (λ k. split_from 10 k u)
        (sym (append_assoc (reverse s) (c ∷ []) cur) ∙ ap (λ k. k ++ cur) (sym (reverse-cons c s)))

module _ (parse_json : Text → Option Chunk) where
  take_chunk-buf :
      (c : Chunk) (x : Text) (r : Reading)
      → take_chunk c (record r { buf = x }) ≡ record (take_chunk c r) { buf = x }
  unfolding take_chunk
  take_chunk-buf c x r = refl

  take_parsed-buf :
      (o : Option Chunk) (x : Text) (r : Reading)
      → take_parsed parse_json o (record r { buf = x })
        ≡ record (take_parsed parse_json o r) { buf = x }
  take_parsed-buf none x r = refl
  take_parsed-buf (some c) x r = take_chunk-buf c x r

  -- A line is taken without a look at the buffer.
  take_line-buf :
      (line x : Text) (r : Reading)
      → take_line parse_json line (record r { buf = x })
        ≡ record (take_line parse_json line r) { buf = x }
  unfolding take_line
  take_line-buf line x r = elim (Bool-cases (is_skipped (clean line))) [
    | inl y ↦ rw y refl
    | inr n ↦ rw n (take_parsed-buf (parse_json (payload (clean line))) x r)
  ]

  take_lines-cons :
      (line cur s : Text) (r : Reading)
      → take_lines parse_json (line ∷ split_from 10 cur s) r
        ≡ take_lines parse_json (split_from 10 cur s) (take_line parse_json line r)
  unfolding split_from take_lines
  take_lines-cons line cur [] r = refl
  take_lines-cons line cur (c ∷ s) r = elim (Bool-cases (c == 10)) [
    | inl y ↦ rw y refl
    | inr n ↦ rw n (take_lines-cons line (c ∷ cur) s r)
  ]

  -- The buffer that the lines are taken with does not matter: the last part replaces it.
  take_lines-buf :
      (cur s x : Text) (r : Reading)
      → take_lines parse_json (split_from 10 cur s) (record r { buf = x })
        ≡ take_lines parse_json (split_from 10 cur s) r
  unfolding split_from take_lines
  take_lines-buf cur [] x r = refl
  take_lines-buf cur (c ∷ s) x r = elim (Bool-cases (c == 10)) [
    | inl y ↦ rw y (
        take_lines-cons (reverse cur) [] s (record r { buf = x })
        ∙ ap (take_lines parse_json (split_from 10 [] s)) (take_line-buf (reverse cur) x r)
        ∙ take_lines-buf [] s x (take_line parse_json (reverse cur) r)
        ∙ sym (take_lines-cons (reverse cur) [] s r))
    | inr n ↦ rw n (take_lines-buf (c ∷ cur) s x r)
  ]

  -- Text read in two pieces, the first of which leaves its last line in the buffer.
  take_lines-append :
      (cur w u : Text) (r : Reading)
      → IsLine (reverse cur)
      → take_lines parse_json (split_from 10 cur (w ++ u)) r
        ≡ take_text parse_json u (take_lines parse_json (split_from 10 cur w) r)
  unfolding split_from take_lines take_text split
  take_lines-append cur [] u r h = sym (
      take_lines-buf [] (reverse cur ++ u) (reverse cur) r
      ∙ ap (λ ls. take_lines parse_json ls r)
          (split_from-line [] (reverse cur) u h
            ∙ ap (λ k. split_from 10 k u)
                (append-nil (reverse (reverse cur)) ∙ reverse-reverse cur)))
  take_lines-append cur (c ∷ w) u r h = elim (Bool-cases (c == 10)) [
    | inl y ↦ rw y (
        take_lines-cons (reverse cur) [] (w ++ u) r
        ∙ take_lines-append [] w u (take_line parse_json (reverse cur) r) tt
        ∙ ap (take_text parse_json u) (sym (take_lines-cons (reverse cur) [] w r)))
    | inr n ↦ rw n (
        take_lines-append (c ∷ cur) w u r
          (rw (reverse-cons c cur) (IsLine-snoc c (reverse cur) n h)))
  ]

  abbrev pub joined : List Text → Text
  joined [] = []
  joined (t ∷ ts) = t ++ joined ts

  take_text-append :
      (t u : Text) (r : Reading)
      → take_text parse_json (t ++ u) r ≡ take_text parse_json u (take_text parse_json t r)
  unfolding take_text split
  take_text-append t u r =
      ap (λ s. take_lines parse_json (split_from 10 [] s) r) (sym (append_assoc r.buf t u))
      ∙ take_lines-append [] (r.buf ++ t) u r tt

  pump-joined :
      (ts : List Text) (t : Text) (r : Reading)
      → pump parse_json (t ∷ ts) r ≡ take_text parse_json (joined (t ∷ ts)) r
  unfolding pump
  pump-joined [] t r = ap (λ s. take_text parse_json s r) (sym (append-nil t))
  pump-joined (u ∷ ts) t r =
      pump-joined ts u (take_text parse_json t r) ∙ sym (take_text-append t (u ++ joined ts) r)

  -- Two streams with the same text give the same answer, thoughts and rest, however the text is cut
  -- into pieces, in the middle of lines as well.
  pub pump-pieces :
      (t u : Text) (ts us : List Text) (r : Reading)
      → joined (t ∷ ts) ≡ joined (u ∷ us)
      → pump parse_json (t ∷ ts) r ≡ pump parse_json (u ∷ us) r
  pump-pieces t u ts us r e =
      pump-joined ts t r ∙ ap (λ s. take_text parse_json s r) e ∙ sym (pump-joined us u r)
