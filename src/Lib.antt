-- ===== src/Lib.antt =====
-- IronTrust AI governance platform: the services that take a use case of an AI system from its
-- request to an authorised deployment, and the checks that decide each step.
--
-- The program. A tenant registers systems and, for each, use cases. A use case has a lifecycle state
-- (app/models/base.py, `LifecycleState`). Gates (app/services/lifecycle_gates.py) read the tables and
-- say whether the vendor and the product are cleared, the classification is ratified, the assessment
-- (AIIA) is complete and approved, every risk is treated, and the deployment is authorised.
-- app/services/lifecycle_service.py moves the use case: `apply_transition` is the sole writer of the
-- state, `advance_use_case` walks forward gate by gate, and `re_evaluate` recomputes all gates and
-- puts the use case where they say. app/services/assessment_review_service.py submits, reviews and
-- reopens an assessment under optimistic locking and advances the use case on an approval;
-- app/services/authorisation_service.py grants the deployment authorisation;
-- app/services/classification.py proposes a tier from the catalogue and records it as the current
-- snapshot; app/services/context_classification.py resolves the tier from the answers to a decision
-- tree, and ratifies it at a sign-off; app/services/assessment_service.py creates assessments and
-- has their items answered, and app/services/coverage_service.py rolls up how the controls are
-- covered; app/services/governance.py holds the rules on the segregation of duties that the review
-- and the authorisation ask.
--
-- The files.
--   Prelude            results, actions on a session (explicit state passing), tables as lists, and
--                      rules for invariants of actions
--   Model              the enumerations and the rows of app/models, the session, the request context
--   Gates              app/services/lifecycle_gates.py, and `feeder_recommendations_for` of
--                      app/services/assessment_service.py, which its assessment gate calls
--   Lifecycle          app/services/lifecycle_service.py: Legality (`_is_legal`), Transition
--                      (`apply_transition`), Advance (`advance_use_case`), ReEvaluate (`full_vector`,
--                      `re_evaluate`); their specifications are in Edges, Resting, Target, Settling
--                      and Trail, and the other modules hold the proofs
--   Governance         app/services/governance.py
--   Authorisation      app/services/authorisation_service.py
--   Review             app/services/assessment_review_service.py: Update and Locking are on
--                      `_conditional_status_update`, Cycle, Decision and Reopening on a submission, a
--                      review and a reopening; Queue is `list_review_queue`, InOrder and Awaiting
--                      its order and who is in it
--   ClassificationService
--                      app/services/classification.py: the proposal of a tier, and in Snapshot
--                      `snapshot_classification`
--   ContextClassification
--                      app/services/context_classification.py: Tree (the ladder and the questions that
--                      are left), Walk and Resolver (`resolve_context_classification`), Blob and
--                      Recording (`compute_and_record_classification`), SignOff; Ladder, Search and
--                      Judgement, Kept, Recorded, Ratified and Prohibited hold the proofs
--   Approvals          app/services/lifecycle_service.py: `set_vendor_approval`,
--                      `set_product_approval` and the fan-outs
--   Items              app/services/assessment_service.py: the authoring lock, `confirm_item` and
--                      `delete_item`
--   Authoring          app/services/assessment_service.py, all else: Rows (new rows and proposed
--                      risks), Sections, Creation (`create_aiia`), Feeders (`create_feeder`), Amend,
--                      Links (of items to controls and evidence), Deletion, Assembly (an AIIA with
--                      what its feeders surface); Alters, Overwritten, Performed and Amended are on
--                      an amendment, RoundTrip, Pristine and Recreate hold the other proofs, Filling and Prefill what a pre-filling keeps, and Intact, Requests,
--                      Steps and Runs are on sequences of its requests
--   Coverage           app/services/coverage_service.py: Links has the scope, the links that count
--                      and their substantiation, Matrix the controls, clauses and unaddressed controls
--                      of the matrix; Counts and Rollup, Partition, and Evidence, Ladder and
--                      Strictness hold the proofs
--   Platform           sequences of advances, re-evaluations, authorisations, reviews, clearances,
--                      fan-outs and catalogue classifications on one session
--   Examples           a small tenant, and runs of the services on it
--
-- How the code is read. A definition has the name of the function that it translates, without the
-- leading underscore. A session is a record of tables: a table is the list of its rows, in the order
-- in which a query returns them; a query is a filter of the list, and an UPDATE with a WHERE clause
-- rewrites the rows that match. `rowcount == 0` is the failure of a test on the same rows. Functions
-- that may write return a result and the session after it; a raise keeps what was written before it,
-- and the rollback that follows at the end of a request is not part of the functions. The object that
-- SQLAlchemy hands out and its row are kept apart: `use_case` is the object that was read, so that a
-- row that has moved since is a conflict (409), as in the code.
-- Identifiers and instants are natural numbers; `uuid.uuid4()` draws the next value of a supply that
-- the session holds, and the clock stands still within a call. Messages are lists of literal text and
-- printed identifiers or numbers. What SQLAlchemy leaves in a loaded object after an UPDATE that
-- matches its row is a parameter of `amend_item`. A row keeps the columns that the modelled code reads or writes.
--
-- Bounds. The loop of `advance_use_case` runs on fuel, seven rounds: the forward edges lead from
-- REQUESTED to PENDING_AUTHORISATION in six hops, and one round finds the way closed.
-- `out_of_fuel` is an error of its own, that no code raises.
--
-- What is not modelled. Row-level security (the tenant filters of the queries are written out), HTTP
-- routing and schemas, export, object storage, identity providers, migrations, seeds and the user
-- interfaces. Evidence, system intake, provisioning and the rollups of lifecycle_service.py are
-- left out so far.
pub mod Prelude
pub mod Model
pub mod Gates
pub mod Lifecycle
pub mod Governance
pub mod Authorisation
pub mod Review
pub mod ClassificationService
pub mod Approvals
pub mod Items
pub mod Authoring
pub mod Coverage
pub mod ContextClassification
pub mod Platform
pub mod Examples
