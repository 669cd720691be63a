-- ===== src/Lib.antt =====
-- The core package of Tool402: paid tasks and risk scans of agents, and offerings of note units that
-- are funded, sold and cleared. This library models packages/core/src, and of packages/backend the recording
-- of settlement attempts, and proves what the modules promise to one another.
--
-- The parts and their files:
--   Value          packages/core/src/value.ts: amounts, shares, units and ids from their texts
--   Timestamp      `parseCanonicalUtcMilliseconds`, which packages/core/src/paid-task-lifecycle.ts and
--                  packages/core/src/requirements-offering-quote.ts repeat
--   Economics      packages/core/src/offering-economics.ts: terms, allocations and clearing splits
--   Requirements   packages/core/src/requirements-offering-quote.ts: what is read of the requirements
--                  (Keys, Capture), the canonical text (Emit), its digest and the quotes
--   Lifecycle      the protocol of issued states that packages/core/src/paid-task-lifecycle.ts,
--                  packages/core/src/offering-purchase-lifecycle.ts and
--                  packages/core/src/clearing-split-lifecycle.ts repeat, over the successor function
--                  of each, which PaidTask, Purchase and Clearing give; Lifecycle/History runs
--                  the same functions on names that carry the events that led to each state (the
--                  recorded run), which Lifecycle/Started traces to the calls
--   RiskScan       packages/core/src/risk-scan.ts; RiskScan/Quick is
--                  packages/core/src/risk-scan-quick.ts
--   Definition     packages/core/src/offering-definition.ts: the definition of an offering
--   Eligibility    packages/core/src/riskscan-native-quote-eligibility.ts: a quote against a policy
--   Ingress        packages/core/src/ingress-envelope.ts: the envelope of a signed command
--   Payload        the payloads of commands: Payload/Prepare is
--                  packages/core/src/external-prepare-payload.ts, Payload/Attach is
--                  packages/core/src/attach-candidate-payload.ts, Payload/Publish is
--                  packages/core/src/directory-publish-payload.ts with the record of
--                  packages/core/src/agent-directory-record-candidate.ts in Payload/Record, and
--                  Payload/Create is packages/core/src/offering-create-payload.ts with its narrative in
--                  Payload/Narrative; Payload holds the readers that these files repeat
--   Tools          packages/core/src/provider-tool-identity.ts: the identities of a tool
--   Entity         packages/core/src/entity-check.ts: dates (Entity/Dates), readers (Entity/Read,
--                  Entity/Parse) and the assessment
--   Settlement     packages/backend/src/risk-scan-settlement-attempt-admission.ts: the admission of a
--                  settlement attempt; Settlement/Attempts is the mutation of
--                  packages/backend/convex/riskscan_settlement_attempts.ts that records it
--   Js             values, objects and `snapshotExactRecord` of packages/core/src/offering-definition.ts,
--                  and the object literals of the payload modules
--   Arrays         the reading of arrays by reflection, and the array literals
--   Patterns       the regular expressions that several files share
--   Registry       the module-level weak maps and sets
--   Common         shared tests, lists, integers, texts and thrown errors as values
--
-- How they interact. Economics reads amounts by Value. A quote (Requirements) rests on an allocation
-- (Economics), a purchase (Purchase) on an issued quote, a clearing (Clearing) on the result of a paid
-- task (PaidTask), which it consumes in the module of paid tasks. A payload that creates an offering holds
-- a definition (Definition), which holds terms (Economics); the payloads and definitions are written for
-- signing by the canonical text of Requirements. An operation has the name of the
-- function it models, in snake case (`calculateAllocation` is `calculate_allocation`); module-level
-- state is an argument and a part of the result, a `throw` is `err` of the class and the message.
-- Objects are references into a registry; a `WeakSet` is a list of references. `bigint` is the
-- integers, a string is the list of its UTF-16 code units, `Number` is kept as far as the code looks
-- at it. In packages/core/src/paid-task-lifecycle.ts a transition awaits the digest: its two halves are
-- two steps (`begin_transition`, `settle_transition`), which any calls may come between; the outcome of
-- the successor function is fixed with the first, as it reads no module state.
--
-- Bounds and fuel. The reading of the requirements counts the container levels down from 16, the
-- source's own limit, so it always ends. The year of a time is searched 400 years from the start of
-- its cycle of 146097 days, and a month among 12, so the search never ends short. Every other loop is
-- structural recursion.
--
-- Not modelled. What the host gives is a parameter: SHA-256 and the text of a number (the record
-- `Host`), the constructor of `URL` (`parse_href`), the reading and the printing of dates with offsets
-- and fractions (the record `Clock`). `normaliseEntityName` of entity-check.ts, which runs on the host's
-- Unicode tables, is as a whole the parameter `normalise` of the screening. Getters, proxies and other code that runs while an object is inspected appear only as a
-- throw or as what reflection returns. A frozen object is a value. A document of the database is the
-- object that is read back of it, and the ids that the service gives are a parameter (`identifier`).
-- The rest of the backend, the agent and the web application are left out, as they are database,
-- network and user interface code around the core.
pub mod Common
pub mod Js
pub mod Arrays
pub mod Patterns
pub mod Ingress
pub mod Eligibility
pub mod Definition
pub mod Tools
pub mod Payload
pub mod Entity
pub mod Settlement
pub mod Value
pub mod Timestamp
pub mod Registry
pub mod Requirements
pub mod Lifecycle
pub mod PaidTask
pub mod Purchase
pub mod Clearing
pub mod RiskScan
pub mod Economics
