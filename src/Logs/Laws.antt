-- ===== src/Logs/Laws.antt =====
-- The filters of the log, and the query of the address that keeps them over a reload: `logFilters`.
use mikrollm.Base.{
  ◌≡◌, refl, ap, ◌∙◌, Option, none, some, Bool, true, false, not, List, [], ◌∷◌, map, if◌then◌else◌,
  text_eq, arith, Bool-cases, inl, inr, ◌⊎◌, list_beq,
}
use mikrollm.Base.Text.{Text, lit, or_text, trim, trim_start}
use mikrollm.Logs.{
  value_of, LogControls, LogRow, Params, get, set, ms_ok, LogPage, set_if, filled, log_ok, url_of,
  apply, read_url, start, reset, present, mark_row,
}
use mikrollm.Logs.Trim.{trim_idem}
use mikrollm.Logs.Select.{HasEmptyFirst, stored, set_sel-value_of, get-set_if}

-- The classes of the duration filter cut the durations into three: a row lies in exactly one.
pub ms_ok_partition :
    (attr : Option Text)
    → ((ms_ok (lit "fast") attr ≡ true)
        × (ms_ok (lit "mid") attr ≡ false)
        × (ms_ok (lit "slow") attr ≡ false))
      ⊎ (((ms_ok (lit "fast") attr ≡ false)
            × (ms_ok (lit "mid") attr ≡ true)
            × (ms_ok (lit "slow") attr ≡ false))
          ⊎ ((ms_ok (lit "fast") attr ≡ false)
              × (ms_ok (lit "mid") attr ≡ false)
              × (ms_ok (lit "slow") attr ≡ true)))
unfolding ms_ok lit list_beq
ms_ok_partition attr = ground arith

or_text-some : (t : Text) → or_text (some t) [] ≡ t
or_text-some [] = refl
or_text-some (c ∷ t) = refl

trim_empty : trim [] ≡ []
unfolding trim trim_start
trim_empty = refl

not_filled : (t : Text) → filled t ≡ false → t ≡ []
not_filled [] h = refl
not_filled (c ∷ t) h = cc

set_if-ext :
    (b : Bool) (k v w : Text) (ps : Params) → (b ≡ true → v ≡ w) → set_if b k v ps ≡ set_if b k w ps
unfolding set_if
set_if-ext true k v w ps h = ap (λ x. set k x ps) (h refl)
set_if-ext false k v w ps h = refl

-- Every select element of the bar has an empty first option ("all").
pub record HasBlanks (c : LogControls) : Type 0 where
  pub status : HasEmptyFirst c.status
  pub model : HasEmptyFirst c.model
  pub backend : HasEmptyFirst c.backend
  pub key : HasEmptyFirst c.key
  pub ms : HasEmptyFirst c.ms

module _ (to_lower : Text → Text) where
  -- Two states of the controls that ask for the same rows.
  record Agrees (c d : LogControls) : Type 0 where
    q : to_lower (trim c.q) ≡ to_lower (trim d.q)
    status : value_of c.status ≡ value_of d.status
    model : value_of c.model ≡ value_of d.model
    backend : value_of c.backend ≡ value_of d.backend
    key : value_of c.key ≡ value_of d.key
    ms : value_of c.ms ≡ value_of d.ms

  log_ok-Agrees :
      (c d : LogControls) (r : LogRow) → Agrees c d → log_ok to_lower c r ≡ log_ok to_lower d r
  unfolding log_ok
  log_ok-Agrees c d r a = rw (a.q, a.status, a.model, a.backend, a.key, a.ms) refl

  url_of-Agrees :
      (c d : LogControls)
      → Agrees c d
      → (filled (to_lower (trim d.q)) ≡ true → trim c.q ≡ trim d.q)
      → url_of to_lower c ≡ url_of to_lower d
  unfolding url_of
  url_of-Agrees c d a h =
      rw
        (
          a.q,
          set_if-ext _ (lit "q") (trim c.q) (trim d.q) [] h,
          a.status,
          a.model,
          a.backend,
          a.key,
          a.ms,
        )
        refl

  -- What the written query says of each control.
  record Reads (c : LogControls) : Type 0 where
    q :
        get (lit "q") (url_of to_lower c)
        ≡ (if filled (to_lower (trim c.q)) then some (trim c.q) else none)
    status : get (lit "status") (url_of to_lower c) ≡ stored (value_of c.status)
    model : get (lit "model") (url_of to_lower c) ≡ stored (value_of c.model)
    backend : get (lit "backend") (url_of to_lower c) ≡ stored (value_of c.backend)
    key : get (lit "key") (url_of to_lower c) ≡ stored (value_of c.key)
    ms : get (lit "ms") (url_of to_lower c) ≡ stored (value_of c.ms)

  url_of-Reads : (c : LogControls) → Reads c
  unfolding url_of lit list_beq get
  url_of-Reads c = record {
    q = simp get-set_if (ground arith);
    status = simp get-set_if (ground arith);
    model = simp get-set_if (ground arith);
    backend = simp get-set_if (ground arith);
    key = simp get-set_if (ground arith);
    ms = simp get-set_if (ground arith);
  }

  module _ (empty : to_lower [] ≡ []) (c : LogControls) (blank : HasBlanks c) where
    -- The controls after a reload of the page whose query `c` wrote.
    abbrev reloaded : LogControls
    reloaded = read_url to_lower (url_of to_lower c) (reset c)

    reloaded-q :
        (to_lower (trim reloaded.q) ≡ to_lower (trim c.q))
        × (filled (to_lower (trim c.q)) ≡ true → trim reloaded.q ≡ trim c.q)
    unfolding read_url
    reloaded-q = elim (Bool-cases (filled (to_lower (trim c.q)))) [
      | inl y ↦
          let same : or_text (get (lit "q") (url_of to_lower c)) [] ≡ trim c.q =
            rw ((url_of-Reads c).q, y) (or_text-some (trim c.q)) in
          rw (same, trim_idem c.q) (refl, λ _. refl)
      | inr n ↦
          let none_there : or_text (get (lit "q") (url_of to_lower c)) [] ≡ [] =
            rw ((url_of-Reads c).q, n) refl in
          rw (none_there, not_filled _ n) (rw trim_empty empty, λ e. cc)
    ]

    reloaded-Agrees : Agrees reloaded c
    unfolding read_url
    reloaded-Agrees = record {
      q = reloaded-q.0;
      status = rw (url_of-Reads c).status (set_sel-value_of c.status blank.status);
      model = rw (url_of-Reads c).model (set_sel-value_of c.model blank.model);
      backend = rw (url_of-Reads c).backend (set_sel-value_of c.backend blank.backend);
      key = rw (url_of-Reads c).key (set_sel-value_of c.key blank.key);
      ms = rw (url_of-Reads c).ms (set_sel-value_of c.ms blank.ms);
    }

    url_of-reloaded : url_of to_lower reloaded ≡ url_of to_lower c
    url_of-reloaded = url_of-Agrees reloaded c reloaded-Agrees reloaded-q.1

    rows_again :
        (rows : List LogRow)
        → map (mark_row to_lower reloaded) (map (mark_row to_lower c) rows)
          ≡ map (mark_row to_lower c) rows
    rows_again [] = refl
    rows_again (r ∷ rows) = λ i. record r { hidden = not (same r i) } ∷ rows_again rows i
      where
        same : (r : LogRow) → log_ok to_lower reloaded (mark_row to_lower c r) ≡ log_ok to_lower c r
        same r = log_ok-Agrees reloaded c _ reloaded-Agrees ∙ unfold log_ok in refl

  -- Reloading the page from the address that the log filters wrote, with fresh controls, gives the
  -- page as it was, with the same rows hidden, the same counter and note and the same address; only
  -- the controls are those read from the address. (The lower case of the empty text is empty, and
  -- each select element has an empty first option.)
  pub start-apply :
      to_lower [] ≡ []
      → (p : LogPage) → HasBlanks p.controls
      → start to_lower (record (apply to_lower p) { controls = reset p.controls })
        ≡ record (apply to_lower p) {
          controls = read_url to_lower (apply to_lower p).url (reset p.controls);
        }
  unfolding start apply
  start-apply empty p blank = λ i.
      present (read_url to_lower (url_of to_lower p.controls) (reset p.controls))
        (rows_again empty p.controls blank p.rows i) (url_of-reloaded empty p.controls blank i)
