-- ===== src/Lib.antt =====
-- Kokoadb: a multi-tenant document database over SQLite files, with the write-ahead log in an object
-- store. This library models its core.
--
-- * JSON filters become SQL. `Jql` models src/query/jql.rs: `build_where_on_base` walks a filter and
--   returns SQL text and bind values (`Compiled` is `CompiledWhere`); `Jql.Path`, `Jql.Alias`,
--   `Jql.Operator` and `Jql.Filter` hold the paths, the table aliases, the operators and the recursion.
--   `Scope` models how src/service/dispatcher/query_support.rs and runtime_support.rs restrict the
--   clause to a collection or to namespaces. `Sql` is an independent reading of SQL text: a scan over
--   characters that tracks literals, parentheses and placeholders; `Sql.Spans` composes fragments.
-- * `Page` models the page of a read, of runtime_support.rs. An i64 that the code keeps from being
--   negative is a natural number there.
-- * `Scope.Resolve` models which namespaces a request names. `DbPath` models src/storage/db_path.rs, from
--   the name of a database to its file.
-- * `UserScope` and `Sort` model the selector on the owner of a document and the `ORDER BY` clause, both
--   of query_support.rs. `UserScope.Condition` is an independent meaning of the conditions on `_user_id`
--   by SQL's three truth values, which are in `Sql.Truth`.
-- * Documents. `Doc` models the functions on paths of JSON documents, of tx_mutation.rs, jobs_ops.rs and
--   query_support.rs under src/service/dispatcher; `Projection` models `apply_projection` on them.
--   `Mutation` models the mutations of tx_mutation.rs: `Mutation.Single` the operators at one path,
--   `Mutation.Contract` the selectors `$[name]`, `Mutation.Patch` whole patches. `ArrayFilter` models
--   the filters that these selectors stand for. `RandomId` models the macro `@randomid`, whose value the
--   others are given by their `Host`.
-- * `SqlExecute` models the guard on the statements of `sql_execute`, and `Requests` which requests write
--   and which may be acknowledged before they are committed, both of runtime_support.rs.
-- * The write-ahead log. `Wal` models src/storage/s3_wal: the stored records, the object keys
--   (`Wal.Keys`), what each operation does to a manifest (`Wal.Manifest`), and the operations of
--   replicator.rs on an object store (`Wal.Replicator`) as actions that pass the state of the store and
--   stop at the first error with what they wrote before (`Wal.Action`).
-- * `Error` is src/error.rs with the result monad; `Json`, `Text` and `Decimal` are the values and
--   functions of serde_json and of the standard library that the code calls.
--
-- Correspondence. A function has the name it has in the source; a loop or a branch that is a definition
-- of its own is named for what it does (`compile_entries`, `append_to`, `take_lease`). The `mut` vectors
-- of the compiler are a `Fragment` passed along. A JSON object is the list of its fields in the order
-- in which the loops visit it; a floating-point number is its bit pattern or the integer it is nearest
-- to, on which only the functions of `Host` compute.
--
-- Parameters. The object store (`Wal.Store.ObjectStore`) and the JSON encoding of stored records
-- (`Wal.Store.Codec`) are parameters; what the code relies on is in `StoreLaws` and `CodecLaws`: a
-- value that was written is read back with the entity tag of the write, other keys are untouched, a
-- conditional write succeeds only on the tag that is stored, and a decoded record is the encoded one.
-- Error texts of these parameters, which the source appends to its own, are left out.
-- `Host` holds the operations of `f64`, regular expressions, Unicode lower case, and the values of
-- macros such as `@now`; nothing is assumed of them.
-- `Wal.Store.Memory` is an instance in memory, on which the tests run. A clock is a function from the
-- number of the reading to seconds.
--
-- Bounds and fuel. `u64` arithmetic is written with its wrap-around, `% 2 ^ 64`, and `i64` with its own.
-- The compiler recurses on fuel computed from the filter (`filter_fuel`): each nested value adds to its
-- weight, and each array marker of a path is spent by one more call. `AppResult` has a third form,
-- `out_of_fuel`, and `Ensures` excludes it. A random identifier takes a unit of fuel for each digest, and
-- as many as its length.
--
-- Not modelled: the values of the macros for times, UUIDs and hashes, which are calls of chrono, uuid and
-- sha2 with options around them (`Host`), the HTTP layer, configuration, connection pools and files, the
-- AWS client, the SQL that
-- libsql executes for documents, jobs, identity and metric events, and the background tasks of
-- src/storage/s3_wal/mod.rs. They are I/O or calls of third-party code, or are left to later work.
pub mod ArrayFilter
pub mod DbPath
pub mod Decimal
pub mod Doc
pub mod Error
pub mod Host
pub mod Jql
pub mod Json
pub mod Mutation
pub mod Page
pub mod Prelude
pub mod Projection
pub mod RandomId
pub mod Requests
pub mod Scope
pub mod Sort
pub mod Sql
pub mod SqlExecute
pub mod Text
pub mod UserScope
pub mod Wal
