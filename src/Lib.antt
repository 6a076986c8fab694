-- ===== src/Lib.antt =====
-- Verification of the project orchestrator of this repository (app/): a library over the native
-- numbers and strings, in which each definition is a translation of Python code and each theorem is
-- about these definitions.
--
-- The program. `PMOrchestrator` (app/orchestrator/service.py) takes a brief through a plan of five
-- tasks. It keeps one `ProjectRecord` per project in a repository (app/state/repository.py), moves
-- its status along a fixed graph (app/orchestrator/graph.py), logs events, and calls department
-- agents (app/agents/departments.py) and a trend provider (app/providers). A provider that is not
-- the mock needs an approval; who may give or refuse it is decided by `ApprovalPolicy`
-- (app/services/approval.py).
--
-- The files.
--   Base            names of the libraries passed on; Python's `==`, `in`, `if`, its text methods
--                   (Base/Text) and lists (Base/Lists)
--   Schemas         the enums and records of app/schemas (project.py, brief.py, trend.py)
--   Graph           `STATE_TRANSITIONS` and `can_transition`; walks in Graph/Paths
--   Flags           app/runtime_flags.py
--   Providers       the trend providers and `get_trend_provider`
--   Agents          the `run` methods of the department agents
--   Approval        `ApprovalPolicy`; Approval/Laws has what it grants and refuses
--   Repository      the interface `ProjectRepository` as a record of operations with the law that
--                   clients rely on; Repository/Memory is `InMemoryProjectRepository`,
--                   Repository/TaskOrder the ordering of the tasks that the PostgreSQL repository reads
--                   back, with its dictionaries by task id in Repository/TaskTables
--   Orchestrator    the class `PMOrchestrator`, over any repository
--     Effects, Session       errors as values; a method is a function of the store that returns or
--                            raises and gives the store after it
--     Events                 `_record_event` to `_summary`
--     Execute, Pending       `_execute_pending_tasks` in two parts, the loop and what follows it,
--                            and `run`
--     Actions, Authorize     sets of actions; `_authorize_actions_or_raise`
--     Resolve, Approvals     the idempotent answers; `resume_from_approval`, `reject_approval`
--     Revision               `resume_from_revision`, `start_replanning`, the authentication events
--     Saving, Evolution      how a method may change the stored record, and that each one does
--     Reachability           sequences of calls
--     Failing                what is stored after a raise or an untimely request
--     Decisions, Granting    approvals and rejections; what an authorization grants
--     Gate, Runs             the approval gate, whole runs
--   Governance      the services behind a triage
--     Continuation, Triage   app/services/continuation.py and app/services/triage.py
--     Effects, Artifacts     what the services raise; the records of app/schemas that they exchange
--     Texts                  `sorted`, and the loop that keeps distinct texts
--     WorkOrder, Review, Queue, Activation, ApprovalRecord
--                            app/services/work_order.py; management_review.py and review_packet.py;
--                            review_queue.py; activation_decision.py; approval_record_builder.py
--     Intake, TrendWorkflow  app/intake/review_artifacts.py; app/services/trend_workflow.py
--   DryRun          app/services/dry_run_orchestration.py
--     Projection             `run_dry_run_orchestration` and the two projected decisions
--     Artifact               the three moves that every builder is made of
--     Bundle                 the approval record, the bundle and the handoff envelope
--     Handoff to Clearance   the 63 builders, in the order of the file: Handoff, Receiver, Response,
--                            Consumer, Dispatch, Release, Clearance
--     Chain                  the builders as a list, each on what the one before returned
--   Api             app/services/auth.py and app/api
--     Auth                   the table of tokens and the actor of an Authorization header
--     Bindings               app/api/runtime_bindings.py
--     Routes                 app/api/routes.py: a protected route authenticates its caller, logs that, and
--                            calls the orchestrator; exceptions become statuses
--
-- The correspondence. A Python method that mutates a record returns the new record; a long method is
-- cut where it first loads, checks, authorizes and continues, and the pieces are composed in its
-- order. Sets of enum members are their membership tests. Texts, clocks and ids that a call reads
-- from outside (`uuid4`, the time, TREND_PROVIDER_STRICT) are fields of `Call`, so that every
-- theorem holds for all of them. All loops are over finite lists and are structural recursions, but for
-- the `while` loop of Repository/TaskOrder: its fuel is the number of ready tasks and of tasks that wait
-- for others, of which every round takes one away.
--
-- `strip` and `lower` go by code points, as Base/Text writes out; `lower` changes only the characters
-- whose lower case is an ASCII letter.
--
-- Not modelled: the validation by pydantic but for the `min_length` of a queue item, the SQL of the PostgreSQL
-- repository and of app/db, the extraction of briefs from free text (regular expressions), the
-- construction of the FastAPI application and its other routes, scripts and documents, and an injected
-- trend provider whose `analyze` raises.
pub mod Base
pub mod Schemas
pub mod Graph
pub mod Approval
pub mod Flags
pub mod Providers
pub mod Agents
pub mod Repository
pub mod Governance
pub mod Orchestrator
pub mod DryRun
pub mod Api
