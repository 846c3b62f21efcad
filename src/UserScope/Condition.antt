-- ===== src/UserScope/Condition.antt =====
-- What SQLite makes of the conditions on `_user_id` that the program writes.
use kokoadb.Sql.Truth.{Truth, unknown, equal, negate, either, one_of, is_null, kept}
use kokoadb.Prelude.{ℕ, String, Bool, ◌≡◌, List, [], ◌∷◌, Option}
use kokoadb.Error.{AppResult, ok, err, out_of_fuel}
use kokoadb.Json.{SqlValue}
use kokoadb.Text.{◌<>◌}
use kokoadb.Jql.Operator.{Compiled, placeholders}

pub data Condition : Type 0 where
  equals differs present absent : Condition
  among outside_of : ℕ → Condition

unfoldable pub render : Condition → String
render equals = "_user_id = ?"
render differs = "(_user_id IS NULL OR _user_id <> ?)"
render present = "_user_id IS NOT NULL"
render absent = "_user_id IS NULL"
render (among n) = "_user_id IN (" <> placeholders n <> ")"
render (outside_of n) = "(_user_id IS NULL OR _user_id NOT IN (" <> placeholders n <> "))"

-- The first bind is that of the placeholder of `=` and `<>`.
abbrev pub first_equal : Option String → List SqlValue → Truth
first_equal user [] = unknown
first_equal user (b ∷ bs) = equal user b

unfoldable pub truth : Condition → List SqlValue → Option String → Truth
truth equals binds user = first_equal user binds
truth differs binds user = either (is_null user) (negate (first_equal user binds))
truth present binds user = negate (is_null user)
truth absent binds user = is_null user
truth (among n) binds user = one_of user binds
truth (outside_of n) binds user = either (is_null user) (negate (one_of user binds))

-- A compiled selector and a decision in memory agree: they fail with the same error, or the text is a
-- condition that keeps the row of a user exactly where the decision is true.
unfoldable pub Agrees : AppResult Compiled → (Option String → AppResult Bool) → Type 0
Agrees (ok c) decide =
    (k : Condition) × (c.sql ≡ render k)
    × ((user : Option String) → decide user ≡ ok (kept (truth k c.binds user)))
Agrees (err e) decide = (user : Option String) → decide user ≡ err e
Agrees out_of_fuel decide = (user : Option String) → decide user ≡ out_of_fuel
