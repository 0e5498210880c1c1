-- ===== src/Lib.antt =====
-- PelicanBench: the planning of campaigns, their execution by the portable event chain, by the
-- transactional store and by its workers, the canvas that agents draw on, and sealed challenges.
--
-- A benchmark campaign is a manifest of cells (one model, one task, one replicate). Workers lease
-- cells from a SQLite store, run them, and complete the leases; the store keeps, next to the table of
-- cells, a journal of events, each of which holds the hash of the one before. An audit replays the
-- journal and compares it with the cells. A portable event chain does the same for a single writer, in
-- a file: the state of every cell is what the chain replays to.
--
-- Files, with the code that they model:
--   Campaign/States     the states of a cell and the two tables of transitions (`CellState`,
--                       `_ALLOWED_TRANSITIONS` in src/pelicanbench/campaign.py,
--                       `_ALLOWED_STORE_TRANSITIONS` in src/pelicanbench/campaign_store.py)
--   Campaign/Manifest   `CampaignCell`, `CampaignShard`, `CampaignManifest` (campaign.py)
--   Store/*             src/pelicanbench/campaign_store.py:
--     Time, Money       `_parse_utc`, `_format_utc`, `timedelta`, `round(x, 8)`, `math.isfinite`
--     Result            the exceptions that are raised, and the chain of statements that may raise
--     Tables            the rows of `cells` and `events`, the store, `StoreLease`
--     Journal           `_verify_manifest`, `_last_event_hash`, `_next_sequence`, `_insert_event`
--     Queries           the SELECTs, and BEGIN IMMEDIATE ... COMMIT / ROLLBACK as `transaction`
--     Reclaim           `_reclaim_expired_in_transaction`, `reclaim_expired_leases`
--     Lease             `_new_lease_token`, `lease_campaign_cells`
--     Holder            `heartbeat_campaign_lease`, `complete_campaign_lease`
--     Requeue           `requeue_failed_cell`
--     Reconcile         `reconcile_campaign_store`
--     Initialise        `initialise_campaign_store`
--     Status            `campaign_store_status`, `read_store_events`
--   Store/Cells, Store/Sums, Store/Loops            lemmas on the table, its sums, and the loops
--   Store/Sound         what a store that only these operations have written is like, and that each
--                       operation keeps it so
--   Store/History       sequences of calls of the operations, by any workers; its child Anew: how a cell
--                       comes to be leased in one
--   Store/Budget        the budget and the cap of parallel leases
--   Store/Outcomes      what a completion and a heartbeat that returned have done; its child Once: what
--                       follows a completion
--   Store/Exclusive     who holds a cell while workers lease
--   Store/Tamper        what the hash chain commits to
--   Store/Complete      what the status calls complete
--   Store/Stale         the requeue of a leased cell
--   Chain/Events        `replay_campaign_events`, `append_campaign_event` (campaign.py)
--   Chain/Leasing       `campaign_status`, `next_ready_cells`, `lease_ready_cells` (campaign.py)
--   Chain/Append, Chain/Extension, Chain/Replayed   that append and replay agree
--   Chain/Selected      what a batch leases
--   Canvas/Elements     `_sanitize_element` (src/pelicanbench/canvas.py)
--   Canvas/Actions      `CanvasEnvironment`: `step`, `restore`, `reset` (canvas.py)
--   Canvas/Undo, Canvas/Bounds      undo, and the limit on the number of elements
--   Canvas/Safe, Canvas/Clean       that only safe elements are kept
--   Canvas/Envelope     `PelicanCanvasOpenEnv` (src/pelicanbench/environments.py)
--   Build               the cells and the budget gate of `build_campaign_manifest`, `PriceSchedule`,
--                       `CampaignPolicy` (campaign.py)
--   Build/Shards        the shards of `build_campaign_manifest`
--   Build/Policy, Build/Gate        the checks of the fields, and what a gate that passes means
--   Build/Partition, Build/Members  how the shards divide the ready cells
--   Plan/Prospective    `build_prospective_pilot_plan` (src/pelicanbench/prospective.py)
--   Plan/Counts, Plan/Sound, Plan/Complete   what a plan that is returned is like, and that it leaves
--                       out no cell
--   Worker/*            src/pelicanbench/campaign_worker.py:
--     Outcome           `_reported_cost`, `_cost_for_result`, `_terminal_outcome`
--     Records           `CampaignCellExecution`, `CampaignWorkerResult`, their paths and files
--     Beats             `_LeaseHeartbeat`
--     Settlement, Batch `execute_campaign_batch`
--     Files, Reconcile  `read_campaign_execution_records`, `reconcile_campaign_execution_records`
--   Worker/Costs, Worker/Safe, Worker/Leases, Worker/Matching, Worker/Accounts, Worker/Summary,
--   Worker/Paired, Worker/Kept      what a batch charges, the calls that it makes of the store, its records
--   Worker/Indexed, Worker/Agreement, Worker/Audit   what a valid reconciliation means
--   Simulation/Replay   `run_canvas_simulation` (src/pelicanbench/simulation.py)
--   Simulation/Agent    `run_autonomous_agent`, `ScriptedPolicy` (src/pelicanbench/autonomous.py)
--   Simulation/Faults, Simulation/Runs, Simulation/Retraced, Simulation/Scripts   about the two loops
--   Challenge/Commitment            src/pelicanbench/challenge.py
--   Challenge/Opening, Challenge/Binding    what a commitment lets one reveal
--   Tests               a small campaign, on which the theorems are applied
--
-- How the state corresponds to the code:
--   * The store is a value: the metadata, the rows of `cells`, and the rows of `events` with the newest
--     first, since `sequence` only grows. An operation takes the store and gives its result, or the
--     error it raises, and the store it leaves; a call that raises rolls the store back.
--   * BEGIN IMMEDIATE lets one writer in at a time, so the calls of concurrent workers are a sequence.
--   * Money is counted in units of 10 ^ -12 of the currency, a float's rounding errors left out;
--     `round(x, 8)` rounds to multiples of 10000 units, ties to even.
--   * A timestamp is an instant in microseconds, or a text that cannot be read.
--   * `for _ in range(8)` is recursion on the 8 tries, the loops over rows are recursion on the rows.
--   * hashlib, json and str are the parameter `Codec`, and `hash` for the portable chain; the caller's
--     token factory is a parameter too.
--   * What happens outside a worker while it has a lease in hand (the result of `run_benchmark`, the
--     heartbeat thread's ticks, the calls of other workers, the clock) is a parameter, `Meanwhile`; the
--     theorems ask only that the other workers call the store's operations.
--   * A directory of record files is a dict from paths to records; an interval is in microseconds.
--   * An agent's policy is any function of what it observes; `range(max_steps)` is recursion on the
--     steps that are left, so the fuel is the code's own bound.
--   * A canvas is a value; `step` and `restore` give the canvas that they leave, also where they raise.
--     `str.lower` and the digest of the elements are parameters.
--   * The digests of a plan's seeds and ids and of a challenge's payloads are parameters, and so is the
--     type of a challenge's tasks, with its `==`; a collision of hashes is named where it may occur.
--
-- Not modelled: costs of the chain, estimates of a manifest and the fields of `CampaignPolicy` and
-- `PriceSchedule` in their checks that are NaN or infinite (the gate of a manifest that is built has
-- them); SQLite's connection and its PRAGMAs, the texts of errors, the file that `export_store_events`
-- writes, the audit of a file without tables (the code reports it as invalid before the replay); of
-- campaign.py, the hashes and the identity of a manifest; of prospective.py, the digests of the inputs
-- and a negative number of replicates, which the code refuses as it does none; of the other parts of
-- the repository, the benchmark runner, the export of a canvas as SVG, scoring, statistics and
-- publication.
pub mod Base
pub mod Campaign
pub mod Store
pub mod Chain
pub mod Canvas
pub mod Build
pub mod Plan
pub mod Worker
pub mod Simulation
pub mod Challenge
mod Tests
