-- ===== src/Lib.antt =====
-- prep-watchdeck: the parts of apps/market-core that decide when venues are asked, what is kept of
-- their answers, and which group of instruments is watched live; and of apps/attention-core the
-- allocation that recommends assets to watch.
--
-- Parts and files. `market/` stands for apps/market-core/src/prep_watchdeck_market/.
-- * MexcBudget (market/mexc_budget.py): every process that calls MEXC over HTTP first takes a slot
--   from one SQLite file. `Database` is the file; `transaction` is `_transaction`, one BEGIN IMMEDIATE
--   transaction; Limits gives runs of transactions of any processes; Acquire is the retry loop of
--   `acquire`, a round for each turn of its `while`.
-- * Scheduler (market/scheduler.py): the cycles on a fixed grid. Cycle is `run_cycle`, with how each
--   task and the persistence end as its inputs; Grid is `next_grid_at`; Loop is `run_forever`.
-- * Identity and Catalog (market/identity.py, market/models.py): the catalog's instruments are put
--   into groups that are compared across venues.
-- * Candle (market/candles.py, market/candle_store.py, market/candle_runtime.py): one-minute candles
--   wait in `CandleBatchWriter` (Writer, Run), reduced by their key, until a flush stores them in the
--   table (Store) under the catalog version that covers their minute. Received has what the pending
--   candles come to, Versions which row a candle is stored in, Batching what a whole batch stores.
-- * Selection (market/selection.py): `SelectionController`, which holds at most one live group.
--   Request has the synchronous methods, Reconcile the coroutines cut at their awaits; Trace runs
--   events in any order and keeps the ledger of open subscriptions.
-- * BookWalk (market/selection.py): what it would cost to walk the selected group's book.
-- * Depth (market/selected_market.py): the checks on the selected group's depth and trades, and on
--   an instrument that is to be selected.
-- * Lease (market/selected_store.py, apps/market-core/migrations/0004_selected_market.sql): the table
--   of selection leases with its constraints, and the four transactions on it. Rows has lemmas on the
--   table, Slot the one slot that it stands for, Ids the text of an instrument's id, Members which
--   instruments of a group may be selected.
-- * CatalogStore (market/catalog_store.py): `persist_catalog`. Validate has `_validate_input`, Versions
--   the loops that close and create versions, Identities `_sync_identities`, Persist the whole
--   transaction. Current, Exact, Persisted, Stays and Repeat have what it does to open versions.
-- * SelectedStore (market/selected_store.py): in Store `store_selected_events` as one transaction, and
--   in View `read_selected_market`. Guard, Newest, Trades and Reads have what each part of them does, ReadBack
--   and Shown what a read shows of what was stored.
-- * Attention (apps/attention-core/src/prep_watchdeck_attention/allocation.py): the recommended hot
--   set. The module itself has the eligible rows, Choice the policies, Bounded and Allowed what they choose.
-- * Recovery (market/candle_recovery_state.py): which targets a candle recovery shows.
-- * Retention (market/retention.py): expired rows are deleted in batches. Selected prunes raw
--   observations and the history of selections, Archived the partitions that an archive holds.
-- * Venue (market/models.py, market/sources/common.py), Time, Text and Decimal are what they share:
--   a datetime is an instant in microseconds and what its zone says, a Decimal is compared only.
-- The scheduler asks the venues, whose errors become the codes of Venue; the catalog's versions decide
-- where a candle is stored and whether it is still flushed; the selection controller takes the groups
-- that Identity makes. The selected store takes only events within the
-- active lease, whose instruments are the ones that Depth accepts. Other parts share data only
-- through the database and are modelled one by one.
--
-- Environment. Databases are lists of rows, and a transaction is one function call. Clocks are
-- inputs and may run backwards unless a theorem says otherwise. Network, tasks and storage
-- answers are arguments. The path and the checksum of an archive file are parameters of
-- Retention; rows that another transaction locks carry a mark, and SKIP LOCKED passes them over.
-- JSON hashing (`canonical_json_sha256`) is a parameter of the scheduler and,
-- with the two digests of a definition, of the catalog store; decimal arithmetic one
-- of the book walk, `str.upper` (in SQL `upper`) one of the checks of assets, and the collation of
-- an ORDER BY on texts one of the view. The view also takes the time zone of the database session, in
-- which psycopg returns times and which the connection does not set; `next_grid_at` takes what a
-- zone other than UTC makes of `datetime + timedelta`. The clock of `run_forever` is in UTC.
--
-- Bounds. `run_forever` skips grid times with `finished_at + 1` rounds of fuel, which is enough since
-- each round adds an interval of at least one microsecond. `acquire` runs on the rounds its
-- environment gives it. All other functions are structurally recursive.
--
-- Not modelled: network adapters, log lines, the checks of the budget file's path and owner, the
-- supervisors of the candle streams, parsing of payloads, and the programs
-- apps/ranking-core and apps/web, and of apps/attention-core all but the allocation.
pub mod Prelude
pub mod Time
pub mod Text
pub mod Venue
pub mod Decimal
pub mod Catalog
pub mod Identity
pub mod Candle
pub mod Scheduler
pub mod MexcBudget
pub mod Selection
pub mod Retention
pub mod Depth
pub mod Recovery
pub mod BookWalk
pub mod Lease
pub mod SelectedStore
pub mod CatalogStore
pub mod Attention
