-- ===== src/Lib.antt =====
-- xray-checker with its Telegram bot: a master watches proxies, its own and those that reporting
-- nodes check for it, and tells chats about outages and recoveries.
--
-- The parts and their files:
--   Nodes      nodes/*.go. A node posts reports (Nodes/Report, nodes/report.go: ReportPayload,
--              BuildReport, ProxyMetricsFromReport, ProxyDiagReportsFromReport) to the registry of the
--              master (Nodes/Registry, nodes/registry.go: HandleReport, RegisterNode, RemoveNode;
--              Nodes/Registry/Health: SweepStale, MergedSnapshot and the readers). Nodes come from the
--              NODES list (Nodes/Config, nodes/nodes.go) or from the store (Nodes/Store,
--              nodes/nodes_store.go), have subscriptions (Nodes/SubsStore, nodes/subs_store.go), and
--              settings that the master resolves for each of them (Nodes/Settings).
--   Checker    checker/*.go: the data of a diagnosis (Checker/Types), the diagnosis itself
--              (Checker/Verdict, target.go: DetermineVerdict, alignTargetErrorsWithNodeHealth,
--              RunDiagnostics for one proxy), the URLs that proxies are tested against
--              (Checker/Targets, target.go: TargetManager), the settings that a node takes over from
--              the master (Checker/Runtime), the categories of errors (Checker/Taxonomy).
--   Telegram   telegram/*.go: chats (Targets), tracked alert messages (Tracker), quiet hours (Quiet),
--              disabled hosts and proxies (Toggle), statistics (Stats, Stats/Rolling), messages cut into
--              chunks (Split, formatters.go: splitMessage), and the alert pipeline ProcessSnapshot
--              (Alerts, Alerts/Observe, Alerts/Delivery), which calls Tracker, Quiet and Stats for
--              every merged snapshot and sends to the chats of Targets.
--   Subscription  subscription/manager.go and reconcile.go: the list of subscription URLs (Store) with
--              its file (Store/File), and ReconcileManaged (Reconcile), by which a node takes over the
--              URLs that its master wants.
--   Main       main.go: the sweep for silent nodes and emitSnapshot, which hands the merged snapshot of
--              Nodes/Registry/Health to ProcessSnapshot of Telegram/Alerts.
--   Docs       docs/astro.config.mjs (Site), web/static/country-flag-emoji-polyfill.js (Flags), and the
--              address of a badge (Playground), which docs/src/components/BadgePlayground.astro makes
--              and web/templates/index.html reads.
--   Base       texts, lists, maps, decimal numbers, results and 64-bit integers.
--   Tests      each theorem with hypotheses or arguments at a concrete input.
--
-- State is passed explicitly: a Go struct is a record, a map an association list (Base/Dict), an
-- error a result. Every mutex makes its operation one step; HandleReport, which locks twice, and the
-- delivery of ProcessSnapshot, which is outside the lock, are taken to run undisturbed. A text is a
-- list of characters, a time the nanoseconds since Go's zero time (Unix seconds in the statistics).
-- A loop is a structural recursion over its list. With fuel are the loop of updateOpenTags
-- (Telegram/Split), for which the length of its text is enough, since each turn takes a character
-- off it (Telegram/Split/Fuel), and the digits of a number (Base/Decimal). A nil dereference is
-- the response `panic`.
--
-- Parameters, since their code is not in the repository: SHA-256 (`hash_token`), strings.ToLower
-- (`to_lower`), the Telegram API (`send`), the clock, the outcome of a write to the disk (`saved`,
-- `disk`), the encoding and decoding of JSON (`json`), packages net and net/url (`Library` of
-- Checker/Targets, with what net documents of its tests in Checker/Targets/Public), the canvas of a
-- browser (`draw`), and what JavaScript has of trimming, numbers and queries (`trim`, `is_nan`,
-- `to_query`). Parameters too, though their code is in the repository, are what this development takes
-- from parts that it does not model: the answers of the fetches of one reconciliation (`validate`) and of
-- its reload (`reload`), and the results of Check-Host.
--
-- Not modelled: the texts of messages (a message is what it shows), logging, goroutines other than
-- by the order of the steps, the checks over the network, the subscription parsers, the web server,
-- the process of Xray, the messages on the health of nodes (ProcessNodesHealth) and the menus of the
-- bot. docs/astro.config.mjs does not parse as it stands: its array `head` is not closed, and the model
-- ends it before `editLink`. docs/src/content.config.ts is one call of Astro.
pub mod Base
pub mod Nodes
pub mod Checker
pub mod Telegram
pub mod Subscription
pub mod Main
pub mod Docs
pub mod Tests
