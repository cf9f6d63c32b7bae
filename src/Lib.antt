-- ===== src/Lib.antt =====
-- The Permanu remote agent: a model of its core logic, with the theorems that make it correct.
--
-- The agent runs on a server and takes its orders as signed plans. A plan is JSON: it is checked by
-- a schema (src/signed_plan/schema.rs and the files below src/signed_plan/schema), whose fields are
-- texts that matchers accept (src/signed_plan/text.rs), and it is signed over its canonical text
-- (src/signed_plan/jcs.rs). Plans define cron jobs and backup policies, whose expressions a
-- scheduler parses and searches for fire times (src/local/sched/cron_expr.rs). Pushes arrive at a
-- webhook listener, which a pair of budgets guards (src/local/hooks/limits.rs), and a rule turns one
-- into a plan that the agent itself submits (src/local/hooks/plan.rs). Telemetry waits in a
-- queue on disk until the control plane has it (src/spool.rs).
--
-- Parts, and where they stand:
--   Base            texts as lists of bytes, maps as association lists, integers, bits, options.
--   Hooks.Limits    src/local/hooks/limits.rs: the budget's state as a record, `admit` as a
--                   function from state to answer and state. Window and Invariant relate a state to
--                   the requests admitted so far; Budgets and Exact state what that gives.
--   Hooks.Plan      src/local/hooks/plan.rs: the plan that the agent writes for a push, with
--                   `new_uuid7` of src/admissions/mod.rs; what `getrandom` gives is the record
--                   `Random`. Order sorts the services; Deploys, Envelope,
--                   Uuids and Lifetime say what is built.
--   SignedPlan.Text src/signed_plan/text.rs: a function for each matcher. Regex, Patterns, Classes,
--                   Split, SplitPatterns, Edges and Hosts relate them to the patterns that their comments
--                   state; Address has the addresses and default routes, Time the timestamps.
--   SignedPlan.Value, Crypto  the JSON values of serde_json, and what the crates base64, sha2 and
--                   curve25519-dalek compute, as the record `Codec` that the schema takes.
--   SignedPlan.Jcs  src/signed_plan/jcs.rs: the domain of canonical JSON and the canonical text.
--   SignedPlan.Schema  the shape language and its check, with children for the build recipe
--                   (Build), the specification of a service (Service), the grammars and the pinned
--                   certificates of newer actions (Grammars, Pem), the tables of parameters
--                   (Params), the rules of each action (Rules) and the plan as a whole (Plan).
--   SignedPlan.Strict  strict JSON: `parse_strict` of src/signed_plan/jcs.rs and the visitor of
--                   src/signed_plan/strict_json.rs, with the tokenizer of serde_json as `Parser`.
--                   Unique says what it accepts.
--   SignedPlan.Codes  the error codes of src/signed_plan/mod.rs.
--   SignedPlan.Trust  src/signed_plan/trust.rs: `validate_trust` as three loops over states, Change
--                   (`apply_change`) and File (`load`, with the answers of the file system as
--                   `Opened`). Loading and Ancestry have the chain of signatures, Cascade and Spread
--                   the spread of a compromise, Superset the changes, Loads the states of the file.
--   SignedPlan.Verify  src/signed_plan/verify.rs: the tables and the time window, with the server's
--                   state as the record `PolicyContext`; Envelope (the envelope, the signatures and
--                   the invoked rule), Specs (`bind_specs`), Scope, RulePlans (`check_rule`), Steps
--                   (`verify_signed_plan`, its steps as functions to a result) and Bootstrap.
--                   Admitted takes an admitted plan apart into its steps; Signers, Presence, Kinds,
--                   Fresh, Capped (with Scoped and Rebased for a rule's scope and the comparison of
--                   specifications) and Founding say what they give.
--   Sched.Cron      src/local/sched/cron_expr.rs: the parser, and in Fire the search for fire times,
--                   with the calendar and the timezone of jiff as the record `Zone`.
--   Spool           src/spool.rs: the files as a map from paths to contents, the state as a record,
--                   each call as a function to its result, files and state (Reads has
--                   `read_batch` and `ack`). Records has the format of a segment, Accounts the
--                   counts and the budget, Names the paths of segments, and Queue, Batch, Trim and Append
--                   the queue that the segments stand for. Load has `open` and `load_state`, which scan the
--                   directory, and `counters`; Scans and Opened say what they give.
--
-- Conventions. A text is the list of its bytes. Numbers that are never negative are natural numbers
-- and `i64`s are integers; casts to narrower words are remainders. A call that may fail returns an
-- option or a result. A `match` on the kind of an action is a table of its arms, or a chain of tests.
--
-- Loops. `while` loops over a range recurse on the rounds left. The loop that fills a cron field
-- is on fuel of one more than the end of the range, and its step is at least 1. The loop over
-- PEM blocks is on fuel of the length of the text, and each block takes bytes. Printing a number
-- is on fuel of one more than the number. Reading a segment is on fuel of the length of the
-- file, and each record takes bytes; so is scanning one. The search for a fire time is bounded
-- by `search_days`, as the code is.
--
-- Not modelled: the tokenizer of serde_json, the digests of sha2 and the signatures of p256,
-- which are parameters; the writing of the trust file, which the agent does in tests alone; and
-- the store of admissions and the rest of the agent, which runs processes and talks to docker, SQL stores
-- and the network.
mod Base
pub mod Hooks
pub mod Sched
pub mod SignedPlan
pub mod Spool
