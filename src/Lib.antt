-- ===== src/Lib.antt =====
-- A model of flag-it, a feature-flagging platform, in its TypeScript parts.
--
-- The JavaScript SDK (sdk/javascript/src/index.ts) is in `Sdk`:
-- - `Sdk/Sse`: `readEventStream`, which cuts the body of a Server-Sent Events response into the
--   payloads of its events. A chunk is what the decoder gives, a list of UTF-16 code units. `drain`
--   is the inner loop; its fuel is the length of the buffer, of which each round removes two units at
--   least. `Sdk/Sse/Chunks` is about the cutting, `Sdk/Sse/Frames` about the events that the server
--   writes in internal/server/stream.go.
-- - `Sdk/Json`, `Sdk/Context`: JSON values, and the builders `context` and `multiContext`.
-- - `Sdk/Client`: `createClient` without its stream. The network is the parameter `fetch`, which
--   gives a reply to each call; what may be thrown is an `Outcome`.
-- - `Sdk/Stream`: the reconnecting loop `run` of `stream`. What the network and the caller do is a
--   list of attempts, and what the loop does is a list of actions. The list of attempts bounds the
--   loop, so no fuel is needed; a real history is cut off at its last attempt.
-- - `Sdk/Cached`: `createCachedClient`. The closures' variables are the record `Client`, each
--   callback and method is a function on it, and a history is a list of events between which the
--   event loop may do anything else. `identify` is two events, since it waits for its `flush`.
--
-- The dashboard's in-memory backend (web/src/mocks/handlers.ts), which its tests and its development
-- mode run on, is in `Backend`, over the types of `Flags` (web/src/types):
-- - `Backend/Targets`, `Backend/Rules`, `Backend/Instructions`: `applyInstructions`. The kinds of
--   instruction are a data type that `kind_of` reads off the text; each branch stands under its
--   guards. Arrays that the code edits in place are lists that the functions give back.
-- - `Backend/Store`, `Backend/Changes`, `Backend/Scheduled`: the variables `flagConfigs`,
--   `changeRequests` and `scheduledChanges` as one record, and a function for each handler of flag
--   configurations, change requests and scheduled changes. Object keys are an association list.
-- - `Backend/Flags`: `mockFlags` and the handlers of flags, the list of the flags of an environment
--   among them, which reads `flagConfigs` too. `toLowerCase` is the parameter `lower`.
-- - `Backend/Segments`: `mockSegments` and the handlers of one segment.
-- - `Backend/Triggers`, `Backend/Webhooks`: `flagTriggers`, `mockWebhooks` and their handlers, one
--   function over the calls each. The constant list of a webhook's deliveries is left out.
-- - `Backend/Directory`: the setup, organizations, projects, environments, roles, members and SDK keys,
--   one function for each handler that changes them. The reply to a grant, which keeps nothing, is
--   left out.
-- - `Backend/Searches`: the lists that are searched, and the page of a context.
-- - `Backend/Users`: the users, whose objects the handlers edit through shared references: objects
--   are in a heap, and the array is a list of references.
-- - `Backend/Changes/Waiting`, `Backend/Steps`: calls as steps, and sequences of steps. `approve` and
--   `reject` wait for the body of their request between their test and their edits, so each is two
--   steps with others between them; the other handlers edit in one piece.
--
-- The dashboard's own computations (web/src) are in `Dashboard`:
-- - `Dashboard/Rollouts`: web/src/lib/variations.ts. Percentages are natural numbers, which is what
--   the rollout editor makes of what is typed; weights are divided and rounded as in the code.
-- - `Dashboard/RuleForm`: the state of features/flags/components/RuleForm.tsx and its callbacks, as
--   edits of a record; the number that is typed as a percentage is given after it is rounded.
-- - `Dashboard/FlagRules`: `move` of features/flags/components/FlagRules.tsx, whose list of ids the
--   backend's `reorderRules` gets.
-- - `Dashboard/Api`, `Dashboard/Endpoints`: web/src/api. A call is a value, of a method, a path, a body
--   and what is made of the response; `Api/Request` sends it as `request` does, over a parameter
--   `fetch`. Paths are the texts between their slashes, which are put together where they are sent;
--   `Api/Paths` cuts them as a server does.
-- - `Dashboard/Hooks`: what the hooks of web/src/features/*/hooks hand to TanStack Query, with the keys
--   of web/src/lib/query-keys.ts. The result that a mutation succeeds with has the type that the
--   code asserts for it.
-- - `Dashboard/Coherence`: the cache and the server together. The cache of TanStack Query and the
--   server are parameters; what is relied on of them stands in `IsLawful` and `IsServer`. Which data
--   a query reads and a mutation may write is `Coherence/Resources`, after the handlers of
--   internal/server, the tables of migrations/00001_init.sql and internal/audit; the changes that do
--   not reach the cache are listed in `Coherence/Misses`. Data that are fresh by age alone,
--   fetches that overlap a mutation and fetches that fail are not in the runs.
-- - `Dashboard/Session`: web/src/lib/auth-token.ts and web/src/store/auth.store.ts, over any storage.
-- - `Dashboard/Guards`: web/src/app/guards.tsx; `follow` takes the number of redirects that it follows,
--   and one is enough. `Guards/Sessions` puts the hooks, the session, the cache and the guards
--   together.
-- - `Dashboard/Config`: web/src/config/env.ts.
-- - `Dashboard/Slug`, `Dashboard/Forms`: `slugify` and the dialogs of features/*/components, one module
--   per dialog: its state, its callbacks as edits of the state, and what it hands on.
--   `toLowerCase` is a parameter, and so is the text before the first dot of a permission.
--   `Forms/Schedule` puts its dialog and the scheduler of the backend together.
-- - `Dashboard/FlagPage`: the instructions that features/flags/FlagDetailPage.tsx and its dialog for
--   change requests send, which `Backend/Instructions` applies; `FlagPage/Typed` is about sequences of
--   them.
-- - `Dashboard/Clauses`, `Dashboard/InstructionTexts`: web/src/lib/clauses.ts, with `JSON.parse` and
--   `JSON.stringify` as the fields of `JsonText`, and web/src/lib/instructions.ts.
-- - `Dashboard/SegmentEditor`: the editor of a segment and its parts, features/segments/components. An
--   edit is a call of a callback. `SegmentEditor/Served` puts it and the handler that saves together.
-- - `Dashboard/SearchBox`: the search box of features/flags/FlagsPage.tsx and its timer, over a list of
--   what is typed and of how time passes; a timer that is overdue fires at once.
-- - `Dashboard/Shares`: the bars of features/analytics and the labels of variations. Of
--   `Math.round((count / total) * 100)`, on floating point numbers, a parameter is taken that gives a
--   nearest whole number.
-- - `Dashboard/Trim`: `trim`, by its list of white space.
--
-- `crypto.randomUUID` is a parameter `uuid`, the text of its n-th call; that no text comes twice is a
-- hypothesis where it is needed. The clock is an argument `now`, and the text of a time and the time
-- of a text are the parameters `iso` and `time_of`. Time does not pass within a call. Clause values
-- are of a type parameter `V`.
--
-- Numbers in JSON values are a type parameter, for the SDK only passes them on. `JSON.parse` and the
-- truth value of a number are the fields of `Host`; `encodeURIComponent` and the parameters of a query
-- are fields of `Web`. The timer of the SDK and its text decoder have no model: bodies are given before they are
-- serialised, and chunks after they are decoded.
--
-- Not modelled: markup, styles and the component library (web/src/components/ui); pages and cards that
-- only pass data on; the dialogs whose state and guards are a part of those of the modelled ones; the
-- seeds of the in-memory backend and the handlers that answer with constants; stories, tests and
-- the configuration of tools; the server and the SDKs for Go and Python, which are not TypeScript.
pub mod Common
pub mod Sdk
pub mod Flags
pub mod Backend
pub mod Dashboard
