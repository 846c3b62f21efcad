-- ===== src/Requests/Tests.antt =====
-- Requests that write or not, and an instance of the theorem.
use kokoadb.Prelude.{◌≡◌, refl, false, some}
use kokoadb.Text.{
  split, trim, trim_start, trim_end, is_whitespace, split_whitespace, lowercase_is, contains_char,
  contains_text,
}
use kokoadb.SqlExecute.{trim_end_matches, word_at, first_word, classify_sql_execute}
use kokoadb.Requests.{
  GatewayRequest, is_write_operation, request_is_write, supports_accepted_ack,
  supports_accepted_ack_request,
}

requests : Unit {0}
unfolding split trim trim_start trim_end is_whitespace split_whitespace lowercase_is contains_char
    contains_text trim_end_matches word_at first_word classify_sql_execute is_write_operation
    request_is_write supports_accepted_ack supports_accepted_ack_request
requests = tt

abbrev removal : GatewayRequest
removal = record { operation = "sql_execute"; sql = some "DELETE FROM t;" }

abbrev disguised : GatewayRequest
disguised = record { operation = "sql_execute"; sql = some "with x as (select 1) delete from t" }

-- A statement that deletes, but begins with `with`, does not count as a write.
disguised-no_write : request_is_write disguised ≡ false
unfolding requests
disguised-no_write = refl
