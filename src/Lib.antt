-- ===== src/Lib.antt =====
-- adbc_spanner: a verification library for the Spanner ADBC driver.
--
-- The driver is a cdylib with three layers. src/ffi is the C interface: it copies values into the
-- caller's buffers and keeps each driver object behind `private_data`. src/connection.rs and
-- src/statement.rs are the ADBC objects: a connection and its statements share one transaction
-- state (src/connection/txn.rs) under a lock, which in manual mode buffers DML and mutations until
-- `commit`. src/sql.rs and src/metadata.rs are the text routines that decide how a statement is
-- routed and which objects a metadata call lists.
--
-- Which file models what:
--   * Txn (src/connection/txn.rs): `TxnState` with all its methods, as functions that return the
--     new state. Txn/Growth and Txn/Finish have what the methods do to the buffered work.
--   * Connection (src/connection.rs, src/connection/exec.rs): `commit`, `rollback` and the autocommit
--     option run to their end, over a client given as a record. Connection/Steps is the step
--     relation of the locked sections: at most one method of the connection is between two of its
--     sections, and the sections of statements run at any time. Connection/Invariant and
--     Connection/Reachable are about what it reaches, Connection/Outcomes about the methods alone.
--   * Statement (src/statement.rs, src/statement/ingest.rs): the sections of `run_or_buffer`,
--     `run_ingest_mutations`, `manual_read_transaction` and `ensure_query_allowed` that hold the lock.
--     Statement/Sections is about any sequence of them on one manual transaction.
--   * Ingest (src/statement/ingest.rs): the loop of `run_ingest_mutations` that cuts the rows of the
--     bound batches into chunks with `IngestChunkBudget`, where what ships a chunk is a parameter. Plan
--     is the chunks made of the rows alone, Chunks the loop against it. Range is
--     `build_range_mutations`, where the mutation of one row (src/bind.rs) is a parameter, and Bisect
--     `write_mutation_range`, over a transport that may refuse a write. Transport has a log of what
--     Spanner applied; a write cut off by a cancel or the timeout may be in it.
--   * Sql (src/sql.rs): Lexer is `lex` and `consume_quoted`, Quote `quote_ident` and
--     `qualified_table`, Split `split_statements` and `strip_trailing_terminators`, Classify
--     `first_keyword`, `is_ddl`, `is_dml` and `is_dml_returning`, Params `named_parameters`.
--   * Like (src/metadata.rs): `LikeMatcher`. Like/Spec is the meaning of patterns as a relation.
--   * Routing (src/statement.rs, src/statement/ingest.rs): a statement's SQL, target table and bound
--     data, the guards on its text and the statements it builds; Execute is `execute`,
--     `execute_update`, `execute_schema` and `execute_partitions` with `run_ddl`, `run_dml` and
--     `run_ingest`. The executors that they route to are the record `Backend`. ReadOnly, Consumed and
--     Partitioned are about what they do to the database, to the bound data and to a batch.
--   * Runtime (src/runtime.rs): `CancelSlot` as the list of the latches of its signals,
--     `block_on_cancellable` over its polls, and `spawn_prefetch` with `prefetch_loop` as a step function
--     over what the task, its reader and a cancel do. Signals, Order and Drain are about these.
--   * Driver (src/driver.rs, src/driver/uri.rs, src/driver/credentials.rs, the option names of
--     src/lib.rs): Config is `SpannerDatabase` with its options, Uri `set_uri_option`,
--     `parse_connection_uri` and `percent_decode`, Connect the guards and the credential of `connect` and
--     the client stack that `connect_shared` keeps.
--   * Reads (src/directed_read.rs): the parser of the option `spanner.directed_read`, in Directed, and the
--     texts of its grammar.
--   * Options (src/options.rs): the parsers of option values, `RawParsed`, `f64_option` and the getters.
--   * Codec (src/conversion.rs, src/bind.rs): Numeric is `parse_numeric_i128` and `numeric_string`,
--     Temporal `parse_date_days`, `date_string`, `date64_days` and `scan_timestamp_utc`.
--   * Ffi (src/ffi): Guard is `write_string` and `write_bytes` of guard.rs, Handle the object
--     behind `private_data` of handle.rs (`dispatch`, `cancel`, `release`) over a memory that faults
--     at what is not allocated, Staged the options before `Init` with the init entry points, Stream the
--     exported stream of stream.rs over any reader, with the error that it reports.
--     Handle/Lifecycle interleaves the calls on one object, and Handle/Lifecycle/Counts counts its
--     references. As the comments of handle.rs demand of
--     the host, no `release` parts a cancel's read of the slot from the taking of its reference.
--   * Common: text as lists of code points or of bytes, the functions of `char` and `str` on them,
--     results, digits and the integers.
--   * Tests: runs on concrete inputs.
--
-- Loops are structural where the source consumes its input. The lexer's iterator has fuel, the
-- length of the text, which is enough since each lexeme takes a character. The walk of
-- `LikeMatcher` has the fuel `enough`: each round shortens the pattern, or the value behind the last
-- `%` and restores at most the whole pattern. `write_mutation_range` has the fuel of its caller; more
-- than the length of the range is enough, since each half of a range that is split is shorter.
-- `display` of a number has the fuel of its type, one less than the digits of the largest: 38 for a
-- `u128`, 18 for an `i64`, 19 for a `u64`. Lengths and positions are unbounded numbers: they count
-- elements of lists in memory. The counters of `IngestChunkBudget` saturate at `u64::MAX`. Checked
-- arithmetic of `i128` and `i64` has its bounds written out. In Codec, Options, Driver and Reads a text is the
-- list of its bytes.
--
-- What the code calls but does not define is a parameter: the Spanner client (`Client`: its two commit
-- calls with an abstract world), the calendar of chrono (`Calendar`), doubles (`Floats`), and the
-- environment, the file system and the builders of credentials (`World`). Error messages are left out; an
-- error is its status. Not modelled: the Arrow builders and the conversion of other types, the metadata
-- queries and statistics, the options of requests, timeouts, retries and staleness with what a statement
-- inherits from its connection, the JSON of credentials, and the layout of the C structs.
pub mod Common
pub mod Txn
pub mod Connection
pub mod Statement
pub mod Ingest
pub mod Sql
pub mod Like
pub mod Codec
pub mod Options
pub mod Driver
pub mod Reads
pub mod Runtime
pub mod Routing
pub mod Ffi
pub mod Tests
