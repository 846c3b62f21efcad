-- ===== src/Jql/Weight.antt =====
-- What the recursive calls of the filter compiler weigh.
use kokoadb.Prelude.{
  ℕ, ◌+◌, ◌*◌, ◌≤◌, String, ◌≡◌, refl, ap, List, [], ◌∷◌, ◌++◌, some, arith, Option-cases, inl, inr,
  ◌∙◌,
}
use kokoadb.Error.{ok}
use kokoadb.Json.{Value, singleton}
use kokoadb.Text.{split, join, strip_suffix, count_char}
use kokoadb.Text.Laws.{count_char-append, total, total-split, count_char-join, strip_suffix-append}
use kokoadb.Jql.Path.{split_from, split_first_array_path, open_bracket, dot}
use kokoadb.Jql.Filter.{weight, element_filter}

abbrev pub brackets : String → ℕ
brackets s = count_char open_bracket s

total-append :
    (ps : List String) (p : String)
    → total open_bracket (ps ++ p ∷ []) ≡ total open_bracket ps + brackets p
total-append [] p = omega arith
total-append (q ∷ ps) p = omega (arith, total-append ps p)

brackets-join : (ps : List String) → brackets (join "." ps) ≡ total open_bracket ps
unfolding count_char
brackets-join ps = count_char-join open_bracket "." ps refl

brackets-field :
    (segment f : String) → strip_suffix "[]" segment ≡ some f → brackets segment ≡ brackets f + 1
unfolding count_char
brackets-field segment f h =
    ap brackets (strip_suffix-append "[]" segment f h) ∙ count_char-append open_bracket f "[]"

split_from-brackets :
    (prefix segments : List String) (a r : String)
    → split_from prefix segments ≡ ok (some (a, r))
    → brackets a + brackets r + 1 ≤ total open_bracket prefix + total open_bracket segments
unfolding split_from
split_from-brackets prefix [] a r h = cc
split_from-brackets prefix (segment ∷ rest) a r h =
    elim (Option-cases (strip_suffix "[]" segment)) [
      | inl q ↦ ground (
        arith,
        total-append prefix segment,
        split_from-brackets (prefix ++ segment ∷ []) rest a r,
      )
      | inr (f, q) ↦
          let ea : a ≡ join "." (prefix ++ f ∷ []) = ground arith in
          let er : r ≡ join "." rest = ground arith in
          omega (
            arith,
            ap brackets ea,
            ap brackets er,
            brackets-join (prefix ++ f ∷ []),
            brackets-join rest,
            total-append prefix f,
            brackets-field segment f q,
          )
    ]

-- A path splits into two with fewer brackets in all.
pub split_first_array_path-brackets :
    (path a r : String)
    → split_first_array_path path ≡ ok (some (a, r))
    → brackets a + brackets r + 1 ≤ brackets path
unfolding split_first_array_path
split_first_array_path-brackets path a r h =
    let found : split_from [] (split dot path) ≡ ok (some (a, r)) = ground arith in
    omega (
      arith,
      split_from-brackets [] (split dot path) a r found,
      total-split open_bracket dot path (omega arith),
    )

pub weight-element_filter :
    (remainder : String) (v : Value)
    → weight (singleton "$elemMatch" (element_filter remainder v))
      ≤ 8 * brackets remainder + weight v + 4
unfolding weight element_filter count_char
weight-element_filter remainder v = ground arith
