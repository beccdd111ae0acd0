-- ===== src/Lib.antt =====
-- The Corbits Workbench: a hub that provisions sidecar processes for agents, a package that holds
-- an agent's tools back until they are searched for, and a web client.
--
-- Provision models the process provisioner of apps/hub/src/provisioners/process.ts.
--   Provision.Store: `createAllocationStateStore`. Its state is the table in memory, the
--     `initialized` flag and the file on disk; `observe_ensure`, `observe_destroy` and
--     `record_unit` are its operations, each one step, as `runExclusive` runs them one after the
--     other. A write of the file ends in one of three ways, one of which throws after the rename.
--   Provision.Refs: the external references (`externalRefOf`, `parseExternalRef`), the names of the
--     unit directories (`generationOf`), the pid file and the pattern of the allocation ids.
--   Provision.Units: unit directories and live processes, `startUnit`, `stopUnit`, `terminate`.
--   Provision.Requests: `ensureOnce` and `destroy`, which call the store and then start, stop and
--     sweep units.
--   Provision.InFlight: `inFlightEnsures`, the calls of `ensure` that wait on each other, as a step
--     relation on the calls, which are named by fresh numbers.
--   The state is passed explicitly: an action (Prelude.Action) takes a state to an outcome and a
--   state, and a thrown error keeps the state that it left. What the operating system answers is in
--   the records `StoreHost` and `Host`, JSON in `Codec`, and `Number`, `String` and `trim` in
--   `Numerals`. What other requests do while one waits is in the record `Others`, four functions on the
--   world; within `startUnit`, `stopUnit` and the search for units nothing is interleaved.
--   The poll loop of `terminate` runs on a number of polls: the grace of 5000 ms at 100 ms a poll
--   is 50 of them, and the loop's clock is the number of polls.
-- Deferred models packages/deferred-tools.
--   Deferred.Match: src/match.ts, the name patterns, the namespaces, the search and its answers.
--     The regular expression of a pattern is run by structural recursion on the pattern.
--   Deferred.Selection: src/director.ts, the selection that the director keeps and the tools that it
--     passes to an inference.
--   Deferred.ToolSearch: src/tool-search.ts, the answer of the `tool_search` tool, on the catalogue
--     that src/catalog.ts hands over.
--   The functions of the JavaScript runtime are in the record `Runtime`.
-- Canvas models apps/web/src/shell/layout/canvas-column-state.ts: the canvas column's state and its
--   transitions.
-- Inference models the inference settings of apps/web/src/settings/inference.
--   Inference: the rows of `effective-list.ts` (`buildEffectiveInferenceRows`, `chatCapableModels`,
--     `defaultModelForProvider`, `rowsByModel`) and the filter of `model-capability.ts`; the tests
--     of regular expressions are in the record `Names`.
--     `providerDisplayName` is looked up among the table's own keys.
--   Inference.Candidates and Inference.Chosen: what `defaultModelForProvider` chooses from, and what it
--     chooses.
--   Inference.Priorities: `computeReorderPatches` and `computeMakeDefaultPatches`, over integers.
--   Inference.Route: `orderedGlobalInferenceRows` and `computeGlobalRoutePatches`; the sort of the
--     runtime is a stable insertion sort, and `localeCompare` a parameter.
-- WorkerStatus models apps/web/src/worker-status.ts: the status that each bench offers, the rank that
--   decides between them, and the benches whose turn has ended, and in WorkerStatus.Liveness what the
--   deployment says (apps/web/src/chat/deployment-liveness.ts); `toLowerCase` and `Date.parse` are
--   parameters, and the data of the queries is in the record `Bench`.
-- ApproveCard models apps/web/src/chat/blocks/approve-card-state.ts: the view of an approval card, from
--   the live query (apps/web/src/chat/blocks/approval-actions.ts) and the card's own flags.
-- Threads models apps/web/src/threads.ts: the chains of replies in Threads, `deriveThreads` in
--   Threads.Grouping and `deriveDmThreads` in Threads.Direct, with Threads.WithAgent on what it gives. The search for a root runs on fuel, one
--   unit a message of the chain.
-- McpNames models apps/web/src/mcp-server-name.ts; McpNames.Punycode is `decodePunycodeLabel`, on UTF-16
--   units, with one unit of fuel for each unit of the label. The search for a name that is not taken
--   takes one unit of fuel a number.
-- Insights models the figures of apps/web/src/insights-stats.ts, with the outcome of a run of
--   apps/web/src/run-outcome.ts; Insights.Figures has the loop over the runs, Insights.Groups the groups of runs
--   and the counts of approvals, and Insights.Outcomes the words of a run's state.
--   Dates are numbers of milliseconds, and the calendar is the record `Clock`; a median is kept
--   doubled, since it may be a half.
-- Needs models the stores in the browser of apps/web/src/needs-list.ts, and Needs.Fork `forkSubThread` of
--   apps/web/src/needs-converge.ts, which replays a fork that the store has. JSON is the record `Json`,
--   with what was written reading back; a mail's answer is a parameter.
-- Recents models apps/web/src/command-palette/recents.ts, on the storage of Needs.
-- Hub models the web client's requests to the hub: the paged reads of
--   apps/web/src/needs-converge.ts in Hub and its routes in Hub.Routes, and apps/web/src/agent-roles.ts, in Hub.Roles (the reads) and
--   Hub.Assignment (the writes), with Hub.Requested on what is requested. What the hub replies is a parameter, and so are the schemas; a loop
--   over pages takes one unit of fuel a page.
-- Sidecar models apps/sidecar/src/workflow-child-spawner.ts: the readers of a child's pipes, on lists of
--   character codes, and in Sidecar.Groups the signals to its process group. The inner loop of the reader
--   has one unit of fuel more than there are characters pending; how a signal ends is a parameter.
-- QueryCache models apps/web/src/query-cache-persistence.ts: the handler of the events, the flush and the
--   hydration. The database is a dictionary, and TanStack Query's client the record `Client`.
-- Install models apps/web/src/install-package.ts, on the replies of Hub: the calls made so far are the
--   state, and what is outside of the file is in the record `Services`.
-- Worker models packages/worker/src/workflow-ids.ts, and Worker.Definition the two definitions of
--   packages/worker/src/index.ts and definition-json.ts; Worker.HeldBack composes them with Deferred.
-- Mailbox models apps/hub/src/mailbox-send.ts: the delivery of a person's mail, whose texts are lists of
--   character codes. The hub's routes, the mail path and the decoder are in the record `Hub`.
-- ErrorSink models packages/error-sink/src: redact.ts and the report of index.ts. The pattern of the keys is
--   run on the keys' characters; the patterns of the values are parameters. The causes of an error are
--   followed on a heap, with one unit of fuel a cause: the code's own bound.
-- HubApi has the requests that set up what an agent reaches, on the replies of Hub.
--   HubApi.Credential: apps/web/src/agent-hub-credential.ts, the credential by which an agent calls the hub.
--   HubApi.McpServers: apps/web/src/mcp-servers.ts, and of apps/web/src/agent-deploy.ts the deployments of
--     chosen servers, which Worker defines. A credential's metadata are a dictionary of JSON texts; two
--     requests at once are made one after the other.
-- Prelude has the shared names: tests, lists, ordered sets and dictionaries of texts.
--
-- Not modelled: the vendored Interchange library, React views, timers and HTTP calls, the wiring of
-- the hub and the sidecar, scripts and end-to-end tests; the queue of the built-in servers' ensures
-- and the probe of a server's name; the environment given to a sidecar and the texts of the provisioner's error messages.
pub mod Prelude
pub mod Canvas
pub mod Provision
pub mod Deferred
pub mod Inference
pub mod WorkerStatus
pub mod ApproveCard
pub mod Threads
pub mod McpNames
pub mod Insights
pub mod Needs
pub mod Recents
pub mod Hub
pub mod Sidecar
pub mod QueryCache
pub mod Install
pub mod Worker
pub mod Mailbox
pub mod HubApi
pub mod ErrorSink
