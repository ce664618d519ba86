-- ===== src/Lib.antt =====
-- The life cycle of an analysis job in the backend under src/: the API's services create a job and
-- queue it, workers claim it from a directory of files, run its plan and settle the claim.
--
-- The parts, and the files that model them:
-- * Job (src/domain/models.py, src/domain/stata_runner.py, src/domain/state_machine.py): the records
--   and the statuses of a job in Job.Data, the state machine in Job.Status.
-- * Paths (src/utils/tenancy.py, src/utils/job_workspace.py and the segment check of
--   src/infra/file_queue_records.py): which texts may name a directory.
-- * Store (src/infra/job_store.py, src/infra/job_store_migrations.py, src/infra/atomic_write.py): a job
--   is one JSON file, whose version is checked by each save. Store.Payload is the JSON, Store.Migrate
--   the migrations, Store.Disk the files, the temporary files and the faults of the system calls,
--   Store.Ops the methods of `JobStore` and the steps of `atomic_write_json`.
-- * Queue (src/infra/file_worker_queue.py, src/infra/file_queue_records.py): one file for each waiting
--   or claimed job, moved by renames. Queue.Record is the JSON of a file, Queue.Files the directory,
--   Queue.Ops the methods of `FileWorkerQueue`.
-- * Worker (src/domain/worker_service.py, src/domain/worker_claim_handling.py,
--   src/domain/worker_run_attempts.py, src/domain/worker_retry.py): Worker.Ops has the methods of
--   `WorkerService` on the ports of Worker.World, which stand for the store, the queue, the execution
--   of a plan and the output formatter, as the source's protocols do.
-- * Compose (src/domain/composition_plan.py, src/domain/composition_exec/ordering.py and refs.py, and
--   the plan models of src/domain/models.py): the steps of a plan. Compose.Plan is the model and its
--   validator, Compose.Ordering the sort that fixes the order of the runs, Compose.Refs the
--   references to datasets, Compose.Depends the search through dependencies, and Compose.Validate the
--   validation of what the steps take from one another.
-- * Service (src/domain/job_service.py, job_retry.py, job_confirm_validation.py, idempotency.py,
--   output_formats.py and draft_confirm_blocking.py of src/domain): what the API calls. Service.Ops
--   has the runs, retries and confirmations of `JobService` on the ports of Service.World,
--   Service.Create the creation, Service.Formats and Service.Blocking what they check, and
--   Service.Stored the service on the job store of Store.
-- * TaskCode (src/domain/task_code_store.py, src/domain/task_code_redeem_service.py and
--   src/infra/file_task_code_store.py): TaskCode.Record is the record of a code with its status,
--   TaskCode.Redeem the service that redeems it, TaskCode.Codes the store of the codes as JSON files,
--   TaskCode.Codes.Ideal the map of codes that it stands for, and TaskCode.Whole the service on that
--   store, as src/api/deps.py joins them.
-- * Columns (src/domain/column_normalizer.py): the names for Stata of a dataset's columns. Its child
--   modules follow a name's characters (Shape, Plain) and the search for a free name (Candidates).
-- * Variables (src/domain/variable_corrections.py): the corrections of variables' names in texts.
--   Variables.Words describes the words of a text.
-- * Llm (src/infra/llm_call_retry.py, src/infra/llm_failover.py): calls of a language model, which
--   are tried again, or passed to a second client.
-- Prelude has the shared helpers, Exec the actions that change a state and may raise.
--
-- A method is an action: it takes the state and gives what it returns or raises, and the state after
-- it, so that what was written before an error stays written. A system call takes its outcome from a
-- list of faults in the state. Parameters stand for what the repository does not implement: pydantic's
-- validation and dump of a job (`Codec`), Python's instants, texts and UUIDs (`Python`), and the
-- check of a path against symbolic links (`Escapes`); their laws are fields of their records. The
-- reading of a step's parameters is the parameter `model_validate` of Compose.Validate.
-- Instants and delays are natural numbers; a delay stands for the source's up to attempt 1024, after
-- which its power of two is too large for a float. The worker's loop is a recursion on the rounds that its
-- condition `attempt <= max_attempts` leaves, so it has no fuel of its own. The sort of a plan has a
-- round for each step, and the search through dependencies one for each push that its `seen` set
-- allows; where the fuel would run out they give `none`, which the results on them rule out.
-- The attempts of `trigger_run` are a recursion on the three rounds of its loop, those of a call of a
-- language model on the attempts that its policy allows. The search for a free name of a column has
-- two rounds more than there are used names, and every name that it tries after the first is new.
--
-- In Service, TaskCode and Columns, `lower`, `collapse`, `sha256`, `read_draft` and `instant` are parameters:
-- Python's `str.lower`, a substitution of white space, a hash, pydantic's reading of a draft, and
-- the reading of an ISO instant. In Variables, `expand` is the reading of a replacement by Python's
-- `re`.
--
-- Not modelled: log lines, the HTTP API, the user interface, the draft and the plan service, which
-- call language models (the freeze of a plan is a port of Service), the run of Stata, the conversion
-- of its outputs, uploads, and the listing of the task codes. The lock that a save takes is one fault
-- point, and its file is left out: the body of a save is one step, as the lock makes it.
pub mod Prelude
pub mod Exec
pub mod Job
pub mod Paths
pub mod Store
pub mod Queue
pub mod Variables
pub mod Worker
pub mod Columns
pub mod Compose
pub mod Service
pub mod TaskCode
pub mod Llm
