-- ===== src/Requests/Writing.antt =====
-- src/service/dispatcher/runtime_support.rs: what is known of a request that may be acknowledged early.
use kokoadb.Prelude.{String, false, ◌≡◌, ◌≢◌, some}
use kokoadb.Error.{ok}
use kokoadb.Text.{contains_text}
use kokoadb.SqlExecute.{write, classify_sql_execute}
use kokoadb.SqlExecute.Accepted.{IsAccepted}
use kokoadb.Requests.{reading_operations, GatewayRequest, awaited_operations}

-- The statement of a request, with what is accepted of it.
pub record WritesSql (req : GatewayRequest) : Type 0 where
  given : String
  statement : String
  asked : req.sql ≡ some given
  classified : classify_sql_execute given ≡ ok (statement, write)
  accepted : IsAccepted statement write

-- An operation other than `sql_execute` that is neither one that reads nor one that has to be waited for.
pub record IsQuick (operation : String) : Type 0 where
  other : operation ≢ "sql_execute"
  writes : contains_text operation reading_operations ≡ false
  quick : contains_text operation awaited_operations ≡ false
