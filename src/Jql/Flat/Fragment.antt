-- ===== src/Jql/Flat/Fragment.antt =====
-- src/query/jql.rs: balanced fragments, and the ways to add a predicate to one.
use kokoadb.Prelude.{
  ℕ, zero, suc, ◌+◌, ◌*◌, String, ◌≡◌, refl, sym, ap, ◌≢◌, true, false, List, [], ◌∷◌, ◌++◌, arith,
  length, length-append, replicate,
}
use kokoadb.Error.{AppResult, ok, err, out_of_fuel, Ensures, holds, failed, Ensures-bind}
use kokoadb.Json.{Value, bool, number, string, array, nil, cons, SqlValue, text}
use kokoadb.Text.{◌<>◌}
use kokoadb.Sql.{scan}
use kokoadb.Sql.Spans.{
  by_scan, Flat, Flat-append, Spans-cast, Flat-join, FlatAll, none_left, one_more, FlatAll-concat,
  FlatAll-cast,
}
use kokoadb.Jql.Operator.{
  Compiled, Fragment, push, json_to_sql_value, bind_all, expect_string, expect_array, expect_items,
  Comparison, eq, against_placeholder, placeholders, push_like, push_value, push_list, push_exists,
  push_pair,
}

-- The parts are balanced, and hold as many placeholders as there are binds.
abbrev pub Balanced : Fragment → Type 0
Balanced f = FlatAll f.parts (length f.binds)

-- The same of a finished condition.
abbrev pub IsFlat : Compiled → Type 0
IsFlat c = Flat c.sql (length c.binds)

pub push-Balanced :
    (f : Fragment) (part : String) (more : List SqlValue)
    → Balanced f
    → Flat part (length more)
    → Balanced (push part more f)
push-Balanced f part more b p =
    FlatAll-cast (length f.binds + length more) (length (f.binds ++ more))
      (sym (length-append f.binds more)) (FlatAll-concat b p)

pub Ensures-any : {A : Type 0} {r : AppResult A} → r ≢ out_of_fuel → Ensures (λ (a : A). Unit {0}) r
Ensures-any {r = ok a} n = holds tt
Ensures-any {r = err e} n = failed
Ensures-any {r = out_of_fuel} n = absurd (n refl)

pub json_to_sql_value-returns : (v : Value) → json_to_sql_value v ≢ out_of_fuel
unfolding json_to_sql_value
json_to_sql_value-returns (number n) = ground arith
json_to_sql_value-returns _ = cc

bind_all-length :
    (vs : List Value) → Ensures (λ (bs : List SqlValue). length bs ≡ length vs) (bind_all vs)
unfolding bind_all
bind_all-length [] = holds refl
bind_all-length (v ∷ vs) =
    Ensures-bind _ (Ensures-any (json_to_sql_value-returns v))
      λ b _. Ensures-bind _ (bind_all-length vs) λ bs e. holds (ap suc e)

pub expect_string-returns : (op : String) (v : Value) → expect_string op v ≢ out_of_fuel
unfolding expect_string
expect_string-returns op (string s) = cc
expect_string-returns op _ = cc

pub expect_array-returns : (op : String) (v : Value) → expect_array op v ≢ out_of_fuel
unfolding expect_array
expect_array-returns op (array s) = cc
expect_array-returns op _ = cc

expect_items-returns : (op : String) (v : Value) → expect_items op v ≢ out_of_fuel
unfolding expect_items
expect_items-returns op (array nil) = cc
expect_items-returns op (array (cons x xs)) = cc
expect_items-returns op _ = cc

pub against_placeholder-Flat : (c : Comparison) → Flat (against_placeholder c) 1
unfolding against_placeholder scan
against_placeholder-Flat eq = by_scan λ d h. refl
against_placeholder-Flat _ = by_scan λ d h. refl

pub replicate-FlatAll : {s : String} (n k : ℕ) → Flat s k → FlatAll (replicate n s) (n * k)
replicate-FlatAll zero k a = FlatAll-cast 0 (0 * k) (omega arith) none_left
replicate-FlatAll (suc n) k a =
    FlatAll-cast (k + n * k) (suc n * k) (omega arith) (one_more a (replicate-FlatAll n k a))

pub placeholders-Flat : (n : ℕ) → Flat (placeholders n) n
unfolding placeholders scan
placeholders-Flat n =
    Spans-cast n (Flat-join (by_scan λ d h. refl) (replicate-FlatAll n 1 (by_scan λ d h. refl)))
      (omega arith)

module _ (f : Fragment) (b : Balanced f) where
  pub push_value-Balanced :
      (v : Value) (part : String) → Flat part 1 → Ensures Balanced (push_value v part f)
  unfolding push_value
  push_value-Balanced v part p =
      Ensures-bind _ (Ensures-any (json_to_sql_value-returns v))
        λ x _. holds (push-Balanced f part (x ∷ []) b p)

  pub push_like-Balanced :
      (op : String) (v : Value) (part pre post : String)
      → Flat part 1
      → Ensures Balanced (push_like op v part pre post f)
  unfolding push_like
  push_like-Balanced op v part pre post p =
      Ensures-bind _ (Ensures-any (expect_string-returns op v))
        λ s _. holds (push-Balanced f part (text (pre <> s <> post) ∷ []) b p)

  pub push_list-Balanced :
      (op : String) (v : Value) (part : ℕ → String)
      → ((n : ℕ) → Flat (part n) n)
      → Ensures Balanced (push_list op v part f)
  unfolding push_list
  push_list-Balanced op v part p = Ensures-bind _ (Ensures-any (expect_items-returns op v)) λ arr _.
      Ensures-bind _ (bind_all-length arr) λ bs e.
        holds (
          push-Balanced f (part (length arr)) bs b
            (Spans-cast (length bs) (p (length arr)) (sym e)))

  pub push_pair-Balanced :
      (vs : List Value) (part : String) → Flat part 2 → Ensures Balanced (push_pair vs part f)
  unfolding push_pair
  push_pair-Balanced (x ∷ y ∷ []) part p =
      Ensures-bind _ (Ensures-any (json_to_sql_value-returns x)) λ a _.
        Ensures-bind _ (Ensures-any (json_to_sql_value-returns y))
          λ c _. holds (push-Balanced f part (a ∷ c ∷ []) b p)
  push_pair-Balanced [] part p = failed
  push_pair-Balanced (x ∷ []) part p = failed
  push_pair-Balanced (x ∷ y ∷ z ∷ vs) part p = failed

  pub push_exists-Balanced :
      (v : Value) (scalar : String) → Flat scalar 0 → Ensures Balanced (push_exists v scalar f)
  unfolding push_exists scan
  push_exists-Balanced (bool true) scalar p =
      holds (push-Balanced f _ [] b (Flat-append 0 0 p (by_scan λ d h. refl)))
  push_exists-Balanced (bool false) scalar p =
      holds (push-Balanced f _ [] b (Flat-append 0 0 p (by_scan λ d h. refl)))
  push_exists-Balanced _ scalar p = failed
