-- ===== src/Lib.antt =====
-- The backend of an MLOps close-loop: training runs produce adapters, which are registered as model
-- versions, evaluated, decided upon by people, and deployed to a serving process; users reach it all
-- through sessions. Paths are those of the repository, from ml-close-loop-be/ on.
--
-- The parts, and the files that model them:
--
-- Base: results and exceptions as values, actions on a state, Boolean tests, lists.
--
-- Registry (app/models/model.py, app/services/model_service.py): the rows of `model_versions`, the
-- lookups by key, by model and version, and by the DEPLOYED status. Registry/Lookup and
-- Registry/Update say how the queries see a change of a row; `IsValid` is what the database
-- guarantees: primary keys, and the partial unique index on DEPLOYED rows. Registry/Lifecycle has the
-- allocation of version numbers, whose list of attempts is as long as the retries allow, partial
-- submissions of an evaluation, and the archive. Children: Allocation, Evaluation.
--
-- Http (app/services/http_retry.py): the retry loop over a client that is a parameter.
--
-- Serving (app/services/serving.py): the `ServingBackend` protocol as a record of operations on the
-- state of the servers; the mock backend, and the vLLM backend over Http.
--
-- GpuLock (app/workers/gpu_lock.py): the polling loop of the lock that training and deploys share.
-- Its fuel is the number of polls before the deadline, so that it ends as the code does.
--
-- Deployment (app/services/deployment_service.py), on World: `deploy` moves the pointer, under GpuLock, through
-- Serving, on Registry. A `World` is the session's view of the tables with the state of the servers.
-- What other transactions commit between the query for the previous version and the flush is a
-- parameter of the call (`rival`), so that lost races are part of every theorem that does not exclude
-- them. Children: Frame (failures), Pointer (the index), Success (an uncontended deploy), Resolve (the
-- alias and the status).
--
-- Promotion (app/services/promotion_service.py): decisions with the eval gate (EvalGate), the
-- staging ladder and rollback, over Deployment. Children: Gate, Staging, Pointer.
--
-- Training (app/services/training_service.py): claims by compare-and-set, the queue, heartbeats and the
-- recovery of stale runs. A service call works on the row that its session has loaded and on the table
-- as the database has it, and these may differ. Children: Rows, Claim, Queue, Liveness, and Outcome,
-- which has the end of a run, its retry, and the notice to its owner
-- (app/services/notification_service.py).
--
-- Validation (app/services/validation_service.py): the hard-error rules of a record (Rules), the report
-- over a dataset version with its duplicate and leakage checks and its gate decision (Report). The
-- values of a file are those of Json; texts are those of Text. The classifiers that are regular
-- expressions, the case folding and the white space of Python are the record `Patterns`. Children of
-- the proofs: Errors, Accepted, FieldLaws, Clean (the rules against a description of a clean record), Shape, Raises, Duplicates,
-- Marks, Gate (the verdict against a description of a dataset that may be trained on).
--
-- Feedback (app/services/feedback_service.py): submission, curation by compare-and-set, and the records
-- made of approved feedback. Children: Curation, Candidates, which is over Validation.
--
-- Idempotency (app/services/idempotency_service.py): the table of stored responses and its use for
-- deploys. Child: Replay.
--
-- Orchestrator (app/workers/gpu_orchestrator.py): the serving cycle around a training run, over a
-- control of the serving process and a reader of its memory that are parameters. The wait for the
-- memory is recursion on the polls before the deadline. Children: Cycle, and Signal,
-- the control by files.
--
-- Worker (app/workers/training_worker.py): one iteration of the training worker, which composes
-- Training, GpuLock, Orchestrator and Registry/Register (`register_model_version`). The runner is a
-- parameter that may do anything to the database. Children: Job, Safety.
--
-- Sessions (app/services/auth_service.py): token pairs, rotation of refresh tokens, revocation of
-- families, password-reset tokens. The signing of tokens is a parameter; what its signatures promise is
-- the record `Signs`. Children: Payloads, Rotation, Resets.
--
-- EvalSets (app/services/eval_set_service.py): golden sets, with the leakage check against the stored
-- reports; over Validation. Children: Versions, Leakage, Revalidation.
--
-- Evaluation (app/services/evaluation_engine.py): the pass of a version over its golden set, through
-- Serving, with the results as a submission to Registry/Lifecycle. Children: Worker
-- (app/workers/evaluation_worker.py), Drift (app/services/drift_check_service.py and
-- app/workers/drift_check_worker.py), and the proofs Questions, Queue, Steady, Checks, Cycle.
--
-- Datasets (app/services/dataset_service.py): dataset versions, also from Feedback, with the retry loop of
-- their insert, which is recursion on the attempts that are left. Children: Immutable (a step relation),
-- Creation, Pinning (app/services/dataset_pinning.py) and its proofs Pins.
--
-- RunCreation (app/api/training.py, POST /training-runs, and `create_training_run` of
-- app/services/training_service.py): over Datasets, Validation and Idempotency. Children: Gate, Replay.
--
-- Access (app/rbac.py, app/api/deps.py): permissions, bearer tokens over Sessions, and pages. Children:
-- Bearer, Pages.
--
-- Uploads (app/services/dataset_storage.py): the names of uploaded files; Storage has the staging
-- directories and the commit of an upload to the local store. Children: Filename, Storage, Commit.
--
-- Transfers (app/services/artifact_transfer.py): transfers of artifacts, over the stores as a parameter.
-- Child: Outcome.
--
-- Tests: data, tests and examples.
--
-- Identifiers, and free texts outside of datasets and feedback, are only compared, so they are
-- numbers; losses are scaled numbers; clock readings are numbers of seconds, or of polls for the
-- lock and the serving cycle. The numbers are unbounded, as in Python.
-- Generated identifiers and clock readings are arguments. The HTTP client, the lock's other holders,
-- the checksums of the artifact store, the object storage of datasets and its hash, the conversions `str` and
-- `int` of JSON values, and the signing library are parameters.
--
-- Not modelled: logs, metrics and alerts; license warnings; the HTTP routers but one, which decode a
-- request, call one service and commit; migrations and seed data; remote hosts; the frontend; the heartbeat thread; the warnings and statistics of a validation report; the listings for
-- display; and, for now, the outer loops of the workers, and the endpoints of the intake of files.
pub mod Access
pub mod Base
pub mod Datasets
pub mod Deployment
pub mod EvalGate
pub mod EvalSets
pub mod Evaluation
pub mod Feedback
pub mod GpuLock
pub mod Http
pub mod Idempotency
pub mod Json
pub mod Orchestrator
pub mod Promotion
pub mod Registry
pub mod RunCreation
pub mod Serving
pub mod Sessions
pub mod Tests
pub mod Text
pub mod Training
pub mod Transfers
pub mod Uploads
pub mod Validation
pub mod Worker
pub mod World
