-- ===== src/Lib.antt =====
-- xorq-datafusion is a Python extension over the query engine DataFusion. This library models the
-- parts of its Rust code that have logic of their own.
--
-- Stream: src/utils.rs. Batches of a Python reader reach the engine by a channel. A producer task
--   pulls a batch when the consumer has polled for one, or ahead of it while a budget shared by
--   the whole process allows, and hands blocking pulls to another thread in rounds.
--   Stream/Credit is ReadAhead, Credit and try_speculate; Stream/Schema is check_batch_schema;
--   Stream/Bridge is spawn_channel_stream (spawn_channel_stream, choose, await_demand, await_slot),
--   drain_batches (on_pull, on_sent, on_slot) and DemandStream::poll_next (ask, receive). Each is a
--   stretch of code that runs without waiting, so an interleaving is a list of actions, and `run`
--   replays it. The semaphores and channels of tokio are interfaces (Stream/Tokio) with the laws
--   that tokio documents, and two instances. The calls of the reader are a function of their number.
--   Stream/Lazy is what the bridge promises its consumer, as a step relation of its own.
--   Stream/Host says on which threads a round runs: PullHost::new (pull_host), PullHost::round
--   (start_round, await_outcome), run_affine_pull (thread_at), the blocking task (task_ends) and
--   PullGuard::drop (drop_guard), again as steps of an interleaving, from the spawn of the
--   coordinator (captured) and its first poll (first_poll) on. A blocking task's result belongs to the
--   handle that the coordinator awaits. The runtime is up, shuts down (its workers still drop tasks,
--   and the pool drops what it is handed where that happens), or has no worker left.
--   Stream/Runtime is the runtime of the process: get_runtime, get_tokio_handle,
--   try_get_tokio_handle, shutdown_runtime and wait_for_future, over any calls.
--   Stream/Consumer is PyRecordBatchStream of src/record_batch.rs (next_stream, next), under a loop of
--   Python.
-- DataType: src/common/data_type.rs. The maps between Arrow, Python, SQL and Parquet types (Arrow,
--   Sql), and the names of the types (Names). A function that the standard library provides on
--   texts (to_lowercase, the debug format) is a parameter.
-- Expr: src/expr.rs. Expressions of DataFusion (Types), and what Python reads of them:
--   rex_type, rex_call_operands and rex_call_operator (Rex), types (DataTypes), and to_variant and
--   python_value (Variants) with the classes of src/expr/ that to_variant builds: those of
--   src/expr/bool_expr.rs (BoolExpr), and those of alias.rs, column.rs, scalar_variable.rs, like.rs,
--   binary_expr.rs, cast.rs, case.rs, wildcard.rs and aggregate_expr.rs (Nodes). Literals is
--   src/expr/literal.rs, and Window is PyWindowFrame and PyWindowFrameBound of src/expr/window.rs.
-- Filter: src/pyarrow_filter_expression.rs (PyArrow), src/ibis_filter_expression.rs (Ibis), and the
--   answers of src/dataset.rs and src/ibis_table.rs (Pushdown). The libraries of Python are records
--   of fallible calls; Filter/Python holds what both translations share, and what a filter means
--   over values and operations that belong to the engine. A translation reads the list of an IN
--   list with extract_scalar_list.
-- ObjectStorage: src/object_storage.rs. AwsOptions and GcpOptions with set and entries (Options), the
--   builders and get_object_store (Stores), register_object_store_and_config_extensions, and
--   get_object_metadata of src/context.rs (Register). The builders of the crate object_store, the
--   configuration that the AWS SDK finds and DataFusion's session (Sessions) are parameters.
--   The options are a HashMap in the source, and here its entries in the order of one walk over it;
--   another map of the same entries may give another order, which matters only where two names
--   stand for one setting.
-- Scans: the readers that the crate hands to the bridge, each a closure over a state, which opens its
--   Python iterator at the first pull. Dataset is src/dataset_exec.rs (dataset_exec, dataset_pull,
--   dataset_execute), Ibis is src/ibis_table_exec.rs (ibis_table_exec, ibis_pull, ibis_execute) and
--   ArrowStream is src/py_record_batch_provider.rs (stream_pull, stream_execute). Reader and Batches
--   say what such a closure yields by itself and behind the bridge. The `Scan` of an execute is what
--   it passes to spawn_channel_stream, which `run` of Stream/Bridge replays.
-- ForeignTables: src/ffi_table_provider.rs. HostedFfiTableProvider with its operations new (hosted),
--   bound_for, supports_filters_pushdown (check_inner), and the end of a scan or an insert
--   (end_call); task_ctx of HostTaskContext and SessionTaskContext. References are addresses of a
--   heap with counts, since the codec of a table refers to its task context weakly; `run` replays a
--   history of the session, of checks and of calls that begin and end.
-- Registration: src/context.rs. register_record_batch_reader and PyRecordBatchProvider::try_new
--   (Reader), register_parquet, register_csv, convert_table_partition_cols,
--   parse_file_compression_type and _register_types (Files), register_record_batches (Batches), and
--   register_py_table_provider with import_ffi_table_provider and PyTableProvider::new of
--   src/provider.rs (Provider), over the tables of a session (Catalogs). The tasks that
--   register_parquet and register_csv spawn for their locations run in an order that is an argument.
-- Udf: src/udf.rs. make_scalar_function and parse_volatility of src/utils.rs; arrays are an interface
--   by rows. Udf/Window is RustPartitionEvaluator of src/udwf.rs over an evaluator of Python, whose
--   calls change its state, and Udf/Accumulator is RustAccumulator of src/udaf.rs.
--   Udf/HashInt is hash_int of src/functions/hash_int.rs.
-- Sql: src/common/schema.rs. SqlSchema with its tables, and what SqlTableSource answers (Schema).
-- Errors: src/errors.rs. The conversions between the errors of DataFusion, of the crate and of
--   Python.
-- Common and Arrow hold what the parts share: results and errors (src/errors.rs), Boolean tests,
--   and schemas and batches as far as the code reads them.
--
-- Bounds: the channel holds 8 batches, and the budget is 64 pulls ahead, as in the source. The loop of
-- Python in Stream/Consumer is given a number of calls, of which one more than there are items is
-- enough; no other definition runs on fuel. A reference is an address, and two references to one
-- allocation have one address.
-- Texts of errors are kept where the source writes them; those that py_type_err and py_runtime_err
-- show are kept without the quotes that `{:?}` puts around them.
--
-- Not modelled: the wrappers of data frames, catalogs, plans and window expressions, and the rest of
-- the session's, which hold no logic of their own or call Python; and the parts of expressions that
-- no modelled function reads: the escape character of a pattern, the metadata of a literal and the
-- distinct flag of an aggregate.
pub mod Common
pub mod Arrow
pub mod Stream
pub mod DataType
pub mod Expr
pub mod Filter
pub mod ObjectStorage
pub mod Scans
pub mod ForeignTables
pub mod Registration
pub mod Udf
pub mod Sql
pub mod Errors
