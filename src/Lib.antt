-- ===== src/Lib.antt =====
-- Cognis: models of the core of the code intelligence engine, and their proofs.
--
-- The engine watches a repository, indexes its symbols into a database and answers queries of
-- coding agents with ranked hits, complexity classes and change impact. The parts:
--
-- * Complexity (crates/cognis-core/src/complexity.rs): the growth classes, `effective_degree`,
--   `risk_weight`, `seq_max` and `nest_mul`. `u8` fields are ℕ with the saturation written out.
--   The f64 degrees and weights are integers of one twentieth: each is a multiple of it.
-- * Watcher (crates/cognis-owner/src/queue.rs): the queue between the file watcher and the planner,
--   method by method. The mutex makes every method one step.
-- * Hits, Fusion (crates/cognis-core/src/hit.rs, crates/cognis-retrieval/src/fusion.rs): `rrf_fuse`
--   with its grouping, the loops that accumulate scores, the sort and the truncation.
-- * Capsule (crates/cognis-retrieval/src/capsule.rs): the composers that append structural context
--   to the fused ranking.
-- * ModelSlot (crates/cognis-embed/src/lifecycle.rs): the lazy single-flight model holder. `turn`
--   is one turn of the loop in `borrow_or_load`, `publish` the end of `run_factory_and_borrow`; Threads
--   lets any number of threads take these steps in any order.
-- * Lease (crates/cognis-core/src/lease.rs): the lease file of a repository. The other processes act
--   on the file before every operation of this one.
-- * McpError, Caps (crates/cognis-mcp/src/errors.rs, caps.rs, server.rs): the clamps, the deadlines, the
--   gate between the stages of a call, and the limiter; Caps/Limiter has one function per atomic access,
--   and Caps/Admission lets any number of calls interleave.
-- * EmbedQueue (crates/cognis-indexer/src/embed_queue.rs): the drainer of the embedding queue. The
--   tables are lists; Writes has its statements and transactions, Drain the loop with the model slot.
--   `backoff_ms_for_attempt` is of crates/cognis-core/src/config.rs, `embedding_text` of
--   crates/cognis-indexer/src/pipeline.rs, `reconcile_embedding_dim` of crates/cognis-store/src/lib.rs.
-- * Planner (crates/cognis-indexer/src/planner.rs, pipeline.rs): `walk_dir` and `is_admitted` on one tree
--   below a root that can be listed, where no entry of a listing fails and relative paths are lists of
--   names; a link to a directory, or a directory that cannot be listed, is a test of the paths below it.
--   In Planner/Scan `plan` up to the dependents, as `detect`; in Planner/Parsing `parse_file`, in
--   Planner/Batch `build_batch` and `sort_batch`. Planner/Applied joins the batch to its publication.
-- * Publish (crates/cognis-store/src/publish.rs): one publication, `publish_with_checkpoints`, with every
--   function that it calls. Publish/Statements and Publish/Vectors have the statements in their order,
--   Publish/Apply what each does to its table; Published is the publication as one change of the database.
-- * Graph (crates/cognis-core/src/graph.rs, models.rs): the code graph in compressed rows and the four graphs
--   of `ImpactGraph::build`. Rows, Neighbors and Weights say what the loops write.
-- * Push (crates/cognis-csar/src/push.rs): `approximate_ppr_push`. Tracked, Rounds, Popped and Loop follow the
--   worklist in whatever arithmetic; Exact, Mass, Seeds, Rank and Ended need arithmetic without rounding.
-- * Diffuse (crates/cognis-csar/src/diffuse.rs): `build_seed_distribution` and `diffuse_seed_hits`, from the
--   hits of the layers through the push to the ranked hits.
-- * Sqlite, Table: the connection that Publish and EmbedQueue share, with `with_write_txn`, and a table
--   with a primary key. Sqlite/Effects reads off what a sequence of statements does, Sqlite/Success
--   when it succeeds.
-- * Scalars, BtreeMap, Sort and Base are helpers: the operations of f64 with an instance by fractions, Rust's
--   ordered map and sort, tests on numbers, lists, vectors, signed integers.
--
-- The watcher feeds the planner, whose batch the publication applies; it fills the queue that the
-- drainer empties, which borrows from the slot. The fusion feeds the capsule. The lease and the model
-- slot guard the processes that run them. The push loop runs on a graph that Graph builds.
--
-- Parameters: f64 (`Floats`, and `Scalars` and `Extremes` of the graph and its solvers, of which
-- Scalars/Fractions is an instance with exact arithmetic) with the order of its values that are not
-- NaN (`NoNan`), the rendering of a fused hit (`Rendering`) and of messages (`Texts`), what the graph
-- reads of an edge's JSON (`Readings`), the standard library's readings (`Std`), SQLite's answers and
-- the embedder (`Setup`), the order on keys (`KeyOrd`), the operating system and the other processes
-- (`Env` of Lease), the tree, the tables and the parsers that a plan reads (`Env` of Planner/Scan,
-- `Parsers`, `Queries`). Instants, durations and lease times are numbers.
--
-- Fuel: `borrow_or_load` takes its turns from fuel; two suffice, since a turn that does not end the
-- call leaves the slot empty and an empty slot ends it. A wait on another thread is `none`.
-- `approximate_ppr_push` takes the rounds of its loop as fuel and says `running` if they run out;
-- `rank` of Push/Ended counts how many are enough. `write_lease_atomic` makes its ten attempts by
-- recursion on the number left.
--
-- Not modelled: the rounding of f64, the other solvers and the impact analysis, the dependents that a
-- plan adds and the resolver, the SQL of the store beyond publications and the embedding queue,
-- tree-sitter parsing, JSON and HTTP, command line and reports, the editor extension; of the modelled
-- files the durations that the model slot reads from the environment, Display texts, the JSON of an
-- error and threads that only repeat a modelled step.
pub mod Base
pub mod BtreeMap
pub mod Complexity
pub mod Planner
pub mod Publish
pub mod Push
pub mod Scalars
pub mod Sort
pub mod Sqlite
pub mod Table
pub mod Watcher
pub mod Graph
pub mod Hits
pub mod Diffuse
pub mod EmbedQueue
pub mod Fusion
pub mod Capsule
pub mod Caps
pub mod McpError
pub mod ModelSlot
pub mod Lease
