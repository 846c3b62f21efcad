-- ===== src/Scope/Rows.antt =====
-- src/service/dispatcher/runtime_support.rs: the rows of a clause for namespaces, and the test in memory of
-- the documents that are not written yet.
use kokoadb.Prelude.{
  ℕ, String, false, ◌≡◌, refl, sym, ◌∙◌, List, [], ◌∷◌, ◌++◌, Option, none, some, length, map,
  arith, eq_iff,
}
use kokoadb.Json.{SqlValue, text}
use kokoadb.Text.{◌<>◌, contains_text}
use kokoadb.Sql.Truth.{Truth, yes, unknown, equal, one_of, kept, kept-unknown}
use kokoadb.Jql.Operator.{Compiled, placeholders}
use kokoadb.Scope.{NamespaceReadScope, unscoped, everywhere, one, many, in_scope}
use kokoadb.Scope.Resolve.{pending_matches_read_scope}

-- The conditions on the column `collection` that stand before a filter.
pub data Condition : Type 0 where
  anything in_one : Condition
  among : ℕ → Condition

unfoldable pub render : Condition → String
render anything = ""
render in_one = "collection = ? AND "
render (among n) = "collection IN (" <> placeholders n <> ") AND "

abbrev pub first_equal : Option String → List SqlValue → Truth
first_equal collection [] = unknown
first_equal collection (b ∷ bs) = equal collection b

unfoldable pub truth : Condition → List SqlValue → Option String → Truth
truth anything binds collection = yes
truth in_one binds collection = first_equal collection binds
truth (among n) binds collection = one_of collection binds

kept-one_of-none : (list : List String) → kept (one_of none (map text list)) ≡ false
unfolding one_of
kept-one_of-none [] = refl
kept-one_of-none (x ∷ xs) = kept-unknown (one_of none (map text xs)) ∙ kept-one_of-none xs

kept-one_of-some :
    (c : String) (list : List String)
    → kept (one_of (some c) (map text list)) ≡ contains_text c list
unfolding one_of contains_text
kept-one_of-some c [] = refl
kept-one_of-some c (x ∷ xs) = ground (arith, kept-one_of-some c xs)

-- The clause for a scope is a condition before the compiled filter in parentheses, its binds stand before
-- those of the filter, and `pending_matches_read_scope` is true of exactly the collections for which the
-- condition, with its binds, is true in SQL.
pub pending_matches-agrees :
    (scope : NamespaceReadScope) (c : Compiled)
    → (k : Condition) × (binds : List SqlValue) × ((in_scope scope c).sql
        ≡ render k <> ("(" <> c.sql <> ")"))
      × ((in_scope scope c).binds ≡ binds ++ c.binds)
      × ((collection : Option String)
          → pending_matches_read_scope collection scope ≡ kept (truth k binds collection))
unfolding in_scope render truth pending_matches_read_scope
pending_matches-agrees unscoped c = (anything, [], refl, refl, λ collection. refl)
pending_matches-agrees everywhere c = (anything, [], refl, refl, λ collection. refl)
pending_matches-agrees (one ns) c =
    (in_one, text ns ∷ [], refl, refl, λ collection. kept_one collection)
  where
    kept_one :
        (collection : Option String)
        → pending_matches_read_scope collection (one ns) ≡ kept (equal collection (text ns))
    kept_one none = refl
    kept_one (some c) = ground (arith, eq_iff c ns, eq_iff ns c)
pending_matches-agrees (many list) c =
    (among (length list), map text list, refl, refl, λ collection. kept_many collection)
  where
    kept_many :
        (collection : Option String)
        → pending_matches_read_scope collection (many list)
          ≡ kept (one_of collection (map text list))
    kept_many none = sym (kept-one_of-none list)
    kept_many (some c) = sym (kept-one_of-some c list)
