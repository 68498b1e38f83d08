-- ===== src/Jobs/Actions/Laws.antt =====
-- What a click on a button of a model leads to, and how the background jobs go on from there.
use mikrollm.Base.{
  ℕ, nat_eq, get_elem?, ◌≤◌, ◌≡◌, refl, Option, none, some, Bool, true, false, not, ◌&&◌, ◌||◌,
  List, if◌then◌else◌, ◌==◌, text_eq, eq_refl, arith, Bool-cases, inl, inr, any,
}
use mikrollm.Base.Text.{Text, lit, is_empty}
use mikrollm.Jobs.{Jobs, is_failed, LoadButton}
use mikrollm.Jobs.Watch.{Page, poll_jobs, Event, answers}
use mikrollm.Jobs.Watch.Laws.{polls}
use mikrollm.Jobs.Actions.{
  ModelButton, Asked, missing, declined, requests, loads_model, verb, address, name_of, pressed,
  click, Reply, told, broken, Settled, restored, error_of, settle,
}

-- A button that shows that its model is being loaded.
unfoldable pub is_loading : LoadButton → Bool
unfolding lit
is_loading b = b.disabled && b.label == lit "загрузка…"

abbrev pub IsLoading : LoadButton → Type 0
IsLoading b = is_loading b ≡ true

-- The page after a success: it asks for the jobs, or loads again.
abbrev Succeeds : Bool → Page → Settled → Type 0
Succeeds true p s = IsLoading s.button.button × (s.reloads ≡ false) × (1 ≤ polls s.page)
Succeeds false p s = (s.reloads ≡ true) × (s.page ≡ p)

-- The page after a failure with a message: the button is as before the click, and enabled.
abbrev Restores : Text → ModelButton → Page → Settled → Type 0
Restores message b p s =
    (s.button ≡ record b { button = record b.button { disabled = false } })
    × (s.page ≡ p)
    × (s.alert ≡ some message)
    × (s.reloads ≡ false)

abbrev Settles : Reply → ModelButton → Page → Settled → Type 0
Settles (broken message) b p s = Restores message b p s
Settles (told false error) b p s = Restores (error_of error) b p s
Settles (told true error) b p s = (s.alert ≡ none) × Succeeds (loads_model b.action) p s

-- What a click does right, with the answer to its request if it makes one.
abbrev pub Clicks : (Text → Bool) → Text → Reply → ModelButton → Page → ModelButton × Asked → Type 0
Clicks confirms name r b p (c, missing) = (c ≡ b) × ((is_empty b.button.id || is_empty name) ≡ true)
Clicks confirms name r b p (c, declined) = (c ≡ b) × (confirms (verb b.action name) ≡ false)
Clicks confirms name r b p (c, requests url sent) =
    ((is_empty b.button.id || is_empty sent) ≡ false)
    × (sent ≡ name)
    × (url ≡ address b.button.id b.action)
    × (c.button.disabled ≡ true)
    × (confirms (verb b.action name) ≡ true)
    × Settles r b p (settle b.button.label r c p)

poll_jobs-polls_one : (p : Page) → 1 ≤ polls (poll_jobs p)
unfolding poll_jobs
poll_jobs-polls_one p = omega arith

pressed-IsLoading : (b : ModelButton) → loads_model b.action ≡ true → IsLoading (pressed b).button
unfolding is_loading pressed
pressed-IsLoading b y = rw y (eq_refl (lit "загрузка…"))

action-pressed : (b : ModelButton) → (pressed b).action ≡ b.action
unfolding pressed
action-pressed b = refl

restored-pressed :
    (b : ModelButton)
    → restored b.button.label (pressed b)
      ≡ record b { button = record b.button { disabled = false } }
unfolding pressed
restored-pressed b = refl

settle-Settles :
    (r : Reply) (b : ModelButton) (p : Page) → Settles r b p (settle b.button.label r (pressed b) p)
unfolding settle
settle-Settles (broken message) b p = (restored-pressed b, refl, refl, refl)
settle-Settles (told false error) b p = (restored-pressed b, refl, refl, refl)
settle-Settles (told true error) b p = elim (Bool-cases (loads_model b.action)) [
  | inl y ↦
      let loaded = pressed-IsLoading b y in
      let polled = poll_jobs-polls_one p in
      rw (action-pressed b, y, settle) (refl, (loaded, refl, polled))
  | inr n ↦ rw (action-pressed b, n, settle) (refl, (refl, refl))
]

disabled-pressed : (b : ModelButton) → (pressed b).button.disabled ≡ true
unfolding pressed
disabled-pressed b = refl

-- A click on a button of a model, and the answer to its request if it makes one. With no id or no name
-- it only complains, and if the user declines it does nothing: the button stays. Otherwise it asks the
-- server, at the address of the id and the action, for the name that is not empty, with the button
-- disabled. If the request fails or is refused, the page tells the error, which for a refusal is the
-- server's own or a fixed word, and the button is enabled with its old label. If it succeeds, a load
-- leaves the button disabled with the label of a load and the page asks for the jobs, and any other
-- action loads the page again.
pub click_lem :
    (field : Text → Option Text) (confirms : Text → Bool) (r : Reply) (b : ModelButton) (p : Page)
    → Clicks confirms (name_of field b) r b p (click field confirms b)
unfolding click
click_lem field confirms r b p =
    by_tests (is_empty b.button.id || is_empty (name_of field b))
      (confirms (verb b.action (name_of field b))) refl refl
  where
    by_tests :
        (empty ok : Bool)
        → (is_empty b.button.id || is_empty (name_of field b)) ≡ empty
        → confirms (verb b.action (name_of field b)) ≡ ok
        → Clicks confirms (name_of field b) r b p (
            if empty
            then (b, missing)
            else if not ok
            then (b, declined)
            else (pressed b, requests (address b.button.id b.action) (name_of field b)))
    by_tests true ok e k = (refl, e)
    by_tests false false e k = (refl, k)
    by_tests false true e k = (e, refl, refl, disabled-pressed b, k, settle-Settles r b p)

-- An answer that says that no job runs tells of one that has failed.
abbrev pub is_ending_badly : Event → Bool
is_ending_badly (answers d) = d.running || any is_failed d.jobs
is_ending_badly _ = true

-- Whether the button `i` shows a load.
abbrev loading_or : Option LoadButton → Bool
loading_or none = false
loading_or (some b) = is_loading b

abbrev pub loading_at : ℕ → List LoadButton → Bool
loading_at i bs = loading_or (get_elem? bs i)
