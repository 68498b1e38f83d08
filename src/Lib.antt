-- ===== src/Lib.antt =====
-- The page script of the admin console, internal/web/static/app.js, and what makes it correct.
--
-- The script runs in the browser on the pages that the server renders. It has parts that share the
-- document and, in the playground, a few variables:
--
-- - Html: `escHtml` and the `esc` of the queue board, which escape texts that the script writes
--   as markup; Html/Pieces is markup put together from literals and texts.
-- - Catalog: the tables of models. Catalog/Band is `matchBand`, Catalog/Ranks `hubNodeRanks`,
--   Catalog/Filter `bindModelFilters` for both of its tables, Catalog/Pager `paginateCatalog`, which
--   the filters of the catalog call after each pass, and Catalog/Picker the `keyPicker`, whose
--   handlers run the filters of the key's models.
-- - Logs: `logFilters`, whose controls are kept in the query of the address.
-- - Chat: the playground, `chatPlayground`. Chat/Models is the choice of mode and model, Chat/Store
--   the chats with their arrays, tabs and their entry in the local storage, Chat/Poll the waiting for
--   pictures and films, Chat/Stream the reading of a streamed answer, Chat/Params the form of extra
--   parameters, its schemas (Chat/Params/Load) and the pictures that are attached. Chat/Panels is
--   the tabs, the queue of generations and the history, Chat/Thread the bubbles of the log, Chat/Refs
--   the strip of references, Chat/Submit the submission up to its request, Chat/Submit/Payload what
--   `runMedia` sends, Chat/Submit/Media what it does with the answer, Chat/Submit/Talk the request of a
--   text chat, and Chat/Submit/Again the button that repeats a request. Chat/Session puts the handlers
--   of the playground together, with the input that is locked and the requests under way, from the
--   opening of the page (Chat/Session/Opened) on, and Chat/Session/Stop is the stop-button.
-- - Jobs: the background jobs, what `renderJobs` shows of them, in Jobs/Watch how `pollJobs` and its
--   timers keep watching them, and in Jobs/Actions the buttons and the form that start them.
-- - Board: the board of queues, and in Board/Live how it is fetched. Alias: the dialog of an alias,
--   with its select of models in Alias/Upstream. Model: the dialog of a model.
-- - Backend: the form of a backend, `syncKind`.
-- - Page: the helpers of every page. Page/Forms is the token of the forms and the fields that depend
--   on a choice, Page/Rows the box above a table and the filters of aliases and keys, Page/Copy the
--   copy-buttons, Page/Memory what the pages keep in the local storage, and Page/Install the
--   install-button of internal/web/static/pwa.js.
-- - Base: names of the library, lists, texts, integers. Examples: runs of the theorems.
--
-- A part's state is a record: the rows with the data attributes that the script reads and the classes
-- that it sets, the values of the controls, and the script's variables. A handler is a function on
-- it. Texts are lists of UTF-16 code units; `none` stands for a missing attribute or control.
--
-- The playground's chats refer to arrays of messages, and the variable `messages` refers to the array
-- of the active chat. So the arrays stand in a heap, and Chat/Store gives every operation on it.
-- Chat/Store/View says when a playground is consistent, and Chat/Store/Steps compares the operations
-- with ones on messages by id, without references. Ids drawn for a new chat are arguments, with the
-- hypothesis that they are unused. Whether the local storage takes an entry is a parameter.
--
-- A poll (Chat/Poll) is a chain of promises: a tick that is not decided returns the promise of a
-- further tick, and each has a `catch`. The model runs the ticks over a list of moments, what each
-- finds, and counts the ticks whose `catch` is still to come. The list is the fuel: the run ends with
-- `waiting` when it is used up. A poll past its time limit takes one more moment for each `catch`
-- that is still to come.
--
-- Parameters are `toLowerCase`, `JSON.parse`, numbers as text, and the floating-point numbers with the
-- laws of `<` on them, which of them are zero, the option that the browser selects when options are
-- removed, what a slider makes of a value, and the address of a film; for what a server answers every
-- value is allowed.
--
-- A reload is `persist`, the loss of everything but the entry in the storage, and `restore`
-- (Chat/Store/Reload). A request for media ends in actions on the chats, which Chat/Submit/Media/Settles
-- runs with the operations of Chat/Store. The page that watches the jobs, the board and the
-- install-button take any list of events, each of which is passed over when it cannot happen (a timer
-- that is not set, an answer to no request). The sessions of the playground are those that events lead to from a given one, where every
-- id that a new chat draws is that of no chat and of no request under way.
--
-- The elements of the log are numbered in the order in which they are made, so that a stream, which
-- keeps the element that its submission made, can find it gone. An input that is locked sends nothing.
--
-- Not modelled: fetching, scrolling, the scaling and the download of pictures, the registration of the
-- service worker, the Swagger bundle, and the server, which is written in Go.
pub mod Base
pub mod Html
pub mod Catalog
pub mod Logs
pub mod Chat
pub mod Alias
pub mod Board
pub mod Backend
pub mod Model
pub mod Page
pub mod Jobs
pub mod Examples
