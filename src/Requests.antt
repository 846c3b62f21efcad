-- ===== src/Requests.antt =====
-- src/service/dispatcher/runtime_support.rs: which requests write, and which of them may be acknowledged
-- before they are committed.
pub mod Writing
mod Tests
use kokoadb.Prelude.{
  String, Bool, true, false, not, List, [], ◌∷◌, Option, none, some, str_eq, if◌then◌else◌,
}
use kokoadb.Error.{AppResult, ok, err, bad_request}
use kokoadb.Text.{◌<>◌, contains_text}
use kokoadb.SqlExecute.{SqlExecuteMode, read, write, classify_sql_execute}

abbrev pub reading_operations : List String
reading_operations =
    "load_db" ∷ "db_exists" ∷ "list_commands" ∷ "list_dbs" ∷ "list_all_dbs" ∷ "system_get_inventory"
    ∷ "system_get_db_status" ∷ "system_query_db_stats" ∷ "system_list_db_events"
    ∷ "get_system_stats" ∷ "system_memory" ∷ "get_sync_status" ∷ "verify_db" ∷ "count" ∷ "aggregate"
    ∷ "metrics_query" ∷ "metrics_catalog" ∷ "user_get" ∷ "user_query" ∷ "user_get_details"
    ∷ "user_get_token" ∷ "file_get" ∷ "file_query" ∷ "query" ∷ "multi_query" ∷ "list_indexes"
    ∷ "list_backups" ∷ "export_jsonl" ∷ "create_import_upload_url" ∷ "create_download_url"
    ∷ "get_job" ∷ "list_jobs" ∷ "get_namespace_stats" ∷ "get_data_count" ∷ "get_db_stats"
    ∷ "query_db_stats" ∷ "get_system_config" ∷ "list_namespaces" ∷ "sql_list_tables"
    ∷ "sql_get_table_schema" ∷ "get_transition" ∷ "list_transitions" ∷ []

unfoldable pub is_write_operation : String → Bool
is_write_operation operation = not (contains_text operation reading_operations)

-- The parts of a request that are asked for here.
pub record GatewayRequest : Type 0 where
  pub operation : String
  pub sql : Option String

abbrev pub is_write_mode : AppResult (String × SqlExecuteMode) → Bool
is_write_mode (ok (stmt, write)) = true
is_write_mode _ = false

abbrev pub sql_writes : Option String → Bool
sql_writes none = false
sql_writes (some sql) = is_write_mode (classify_sql_execute sql)

unfoldable pub request_is_write : GatewayRequest → Bool
request_is_write req =
    if not (str_eq req.operation "sql_execute")
    then is_write_operation req.operation
    else sql_writes req.sql

pub data AckMode : Type 0 where
  committed accepted : AckMode

abbrev default_mode : String → AppResult AckMode
default_mode name =
    if str_eq name "committed"
    then ok committed
    else if str_eq name "accepted"
    then ok accepted
    else err (bad_request ("resolved write mode must be committed|accepted, got: " <> name))

-- `write_queue_default_ack_mode` is the mode that is configured.
unfoldable pub resolve_ack_mode : String → Option Bool → AppResult AckMode
resolve_ack_mode write_queue_default_ack_mode (some true) = ok committed
resolve_ack_mode write_queue_default_ack_mode (some false) = ok accepted
resolve_ack_mode write_queue_default_ack_mode none = default_mode write_queue_default_ack_mode

abbrev pub awaited_operations : List String
awaited_operations =
    "import_jsonl" ∷ "export_jsonl" ∷ "create_backup" ∷ "delete_db" ∷ "reindex_fts"
    ∷ "drop_fts_index" ∷ "enable_fts_index" ∷ "continue_job" ∷ "abort_job" ∷ "list_jobs" ∷ "get_job"
    ∷ "vacuum_db" ∷ "recompute_stats" ∷ "snapshot_db_stats" ∷ "user_update" ∷ "user_update_password"
    ∷ "user_update_status" ∷ "user_delete" ∷ "user_create_token" ∷ "user_consume_token"
    ∷ "user_revoke_token" ∷ "user_link_provider" ∷ "user_unlink_provider" ∷ "file_create"
    ∷ "file_update" ∷ "file_delete" ∷ "schedule_transition" ∷ "cancel_transition"
    ∷ "retry_transition" ∷ "__run_document_transitions" ∷ []

unfoldable pub supports_accepted_ack : String → Bool
supports_accepted_ack operation =
    if not (is_write_operation operation)
    then false
    else not (contains_text operation awaited_operations)

unfoldable pub supports_accepted_ack_request : GatewayRequest → Bool
supports_accepted_ack_request req =
    if not (request_is_write req)
    then false
    else if str_eq req.operation "sql_execute"
    then true
    else supports_accepted_ack req.operation
