-- ===== src/Lib.antt =====
-- Sleeper Service runs the agents of tenants as jobs: an API authorises a request by its key, a job is started with the
-- agent's version, prompts and memory, runs a model with tools under limits of money and time, and ends with an output
-- or with the reason why it has none; memory, votes, evals, a human inbox and alerts surround that. This library models
-- the parts below, and the theorems listed at the end are about them. Paths are those of the repository, below
-- src/sleeper_service.
--
-- The state. Models holds the rows of db/models.py and the enums of constants.py, State the tables as one record `Db`
-- with the arq queue, the alerts in Redis and the settings of config.py. A table is a list of rows in the order of
-- insertion, a primary key is a number, money is a whole number of the column's finest unit, and a commit is the new
-- value of the record. An operation takes the record and gives the new one; one that raises an HTTPException gives
-- `Result` of Base/Result. A JSON value is a tree of Models/Json. Texts that are walked character by character are lists
-- of code points.
--
-- The parts.
--   Access: auth/principal.py and auth/rbac.py, with `_get_agent_for` of api/v1/jobs.py and `_check_tenant_access` of
--     api/v1/files.py. A key resolves to a user with roles in teams, or to a scope.
--   Teams: the handlers of api/v1/teams.py that change the members of teams.
--   Agents and Versions: the handlers of api/v1/agents.py and api/v1/versions.py that change agents, their versions and
--     the aliases. Versions asks Decisions whether a version is configured rightly. Versions/Pointers has what it means
--     that the pointers to versions are consistent, Versions/Aliases the aliases as a map.
--   Decisions: `validate_decision_config` of runtime/decisions.py and `parse_questions` of runtime/openai_decisions.py.
--   Outbound: runtime/outbound.py, with the schemes of notifications in Outbound/Schemes, and runtime/links.py in
--     Outbound/Links. The resolver is asked at a time, so that two look-ups of a name may differ.
--   Keys: the invoke keys of api/v1/api_keys.py, whose requests Access authenticates.
--   Providers: `resolve_api_key` of runtime/providers.py, and api/v1/provider_creds.py.
--   Events: api/v1/events.py. An event becomes a job through `create_job` of Jobs, with a key against a second delivery.
--   Retention: `cleanup_tick` of runtime/retention.py, which takes the contents of old jobs away and leaves what Spending
--     sums.
--   Stores: `_StoreGrant` and the file tools of runtime/toolsets.py over any backend; Stores/Paths has posixpath.
--   Alerts, Spending, Hooks: runtime/notify.py, runtime/spending.py and runtime/hooks.py.
--   WorkItems: runtime/work_items.py and `resolve_item` of api/v1/work_items.py. Resolving the approval of a memory
--     version changes the status of that version.
--   EvalGate: `maybe_trigger_memory_eval` of runtime/evals.py.
--   Evals: the rest of runtime/evals.py, and api/v1/evals.py. Evals/Checks has the checks, Evals/Validate their validation,
--     Evals/Run the run of a suite, Evals/Cases its cases, each a job that Runner runs, Evals/Handlers the handlers.
--   Memory: runtime/memory.py and api/v1/memory_admin.py, with `compact_memory` of runtime/learning.py. A write is
--     screened by Hooks, capped by Memory/Cap, and where it is pending it adds a work item, an eval run and an alert.
--   Runner: runtime/runner.py. Runner/Start has what a job pins, Runner/Loop the guarded run and its `except` clauses,
--     Runner/Post the post-hooks, Runner/Finalize `_finalize`, `mark_job` and `_handle_cancellation`; `execute_job`
--     in Runner puts them together.
--   Jobs: `create_job`, `submit_job` and `retry_job` of api/v1/jobs.py. A job that is submitted is enqueued, or run
--     inline by Runner.
--   Worker: worker.py and `deliver` of runtime/callbacks.py. A task gets the number of its try, runs Runner, and returns or
--     asks for another try.
--   Learning: runtime/learning.py and api/v1/feedback.py. A vote is folded into a lesson, which Memory writes.
--   Delegation: runtime/delegation.py. A call adds a child job, which Runner runs inline.
--   Prompts: runtime/system_prompts.py, with the live prompts of db/models.py, which Runner pins on a job.
-- Base holds what they share: Boolean tests on numbers and texts, lists, tables, and results. Services names what the
-- program calls and does not implement. Samples is a small deployment for the tests, which stand in modules called
-- Tests.
--
-- Bounds and fuel. Every function is total. The loop of `_enforce_size_cap` is on fuel; each of its rounds takes a
-- lesson away, so it is given one round more than there are lessons, and never runs out. That of `_ancestry` visits a
-- job in every round that it has not visited, and is given one round more than there are jobs. The deliveries of a
-- task are bounded by the most tries of the settings. The hops of a fetch are the five rounds of its loop, and the tries
-- of an eval's job are its EVAL_TRANSIENT_ATTEMPTS. `execute_job` calls itself at most once, which is the second
-- call of `execute_once`. Numbers do not wrap: Python's are unbounded. A pass rate is a whole number of ten-thousandths,
-- the scale of its column, to which the quotient is rounded half up.
--
-- What is not modelled. The run of a model, the classifier, the fold model, the price table, JSON Schema, the pattern
-- engines, the graders' back ends, the scan of an event's template, the adapters of pydantic, the keyed hash of a
-- feedback token, the HTTP client, the resolver, the parsers of URLs and addresses, the checks of grants, and the
-- loading of files are parameters, fields of `Services` and of records beside the parts. Their results are any values
-- of the types there. Where Jobs, Alerts, Worker and Runner call the outbound policy or fetch links, they take its
-- verdict from `Services`. Handlers run one after the other: of transactions that interleave only those are modelled
-- that race for an idempotency key. The registration of models, and the handlers of tenants, users, MCP servers, data
-- stores and notification channels are left out so far; the web interface, the command line, the sandboxes and the
-- infrastructure are calls of libraries or pages over the same operations.
pub mod Base
pub mod Models
pub mod Access
pub mod Teams
pub mod Stores
pub mod State
pub mod Agents
pub mod Alerts
pub mod Spending
pub mod Hooks
pub mod Services
pub mod WorkItems
pub mod EvalGate
pub mod Evals
pub mod Events
pub mod Memory
pub mod Providers
pub mod Retention
pub mod Runner
pub mod Jobs
pub mod Versions
pub mod Worker
pub mod Decisions
pub mod Delegation
pub mod Keys
pub mod Learning
pub mod Outbound
pub mod Prompts
pub mod Samples
