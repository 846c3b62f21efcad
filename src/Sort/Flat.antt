-- ===== src/Sort/Flat.antt =====
-- src/service/dispatcher/query_support.rs: the whole `ORDER BY` clause, from an object or from a string.
use kokoadb.Prelude.{
  String, Bool, true, ◌≡◌, refl, List, [], ◌∷◌, Option, none, some, all, and-true,
}
use kokoadb.Error.{Ensures, holds, failed, Ensures-bind, Ensures-if}
use kokoadb.Json.{Value, string, object, end, field, fields}
use kokoadb.Text.{all_chars, split, trim, split_whitespace, is_empty}
use kokoadb.Text.Laws.{all_chars-trim, all-split, all-split_whitespace}
use kokoadb.Sql.{scan}
use kokoadb.Sql.Spans.{by_scan, Flat}
use kokoadb.Sort.{
  parse_words, parse_token, parse_tokens, parse_sort_string, field_directions, known_directions,
  build_order_by_for_context,
}
use kokoadb.Sort.Parts.{
  no_quote, Unquoted, IsExpr, Entry, Entries, validate-Ensures, direction-Flat,
  token_direction-Flat, ordered-Flat,
}

Token : String × String → Type 0
Token (path, dir) = Unquoted path × IsExpr dir

AllTokens : List (String × String) → Type 0
unfolding Token
AllTokens [] = Unit {0}
AllTokens (e ∷ es) = Token e × AllTokens es

parse_words-Ensures :
    (ws : List String) → all (all_chars no_quote) ws ≡ true → Ensures Token (parse_words ws)
unfolding parse_words Token
parse_words-Ensures [] h = failed
parse_words-Ensures (path ∷ more) h =
    let (here, later) = and-true (all_chars no_quote path) (all (all_chars no_quote) more) h in
    Ensures-bind _ (validate-Ensures path "sort")
      λ u _. Ensures-bind _ (token_direction-Flat more) λ dir p. holds (here, p)

parse_token-Ensures : (raw : String) → Unquoted raw → Ensures Token (parse_token raw)
unfolding parse_token
parse_token-Ensures raw h = Ensures-if (is_empty (trim raw)) failed (
    parse_words-Ensures (split_whitespace (trim raw))
      (all-split_whitespace no_quote (trim raw) (all_chars-trim no_quote raw h)))

parse_tokens-Ensures :
    (raws : List String)
    → all (all_chars no_quote) raws ≡ true
    → Ensures AllTokens (parse_tokens raws)
unfolding parse_tokens AllTokens
parse_tokens-Ensures [] h = holds tt
parse_tokens-Ensures (raw ∷ rest) h =
    let (here, later) = and-true (all_chars no_quote raw) (all (all_chars no_quote) rest) h in
    Ensures-bind _ (parse_token-Ensures raw here)
      λ e p. Ensures-bind _ (parse_tokens-Ensures rest later) λ es ps. holds (p, ps)

parse_sort_string-Ensures : (s : String) → Unquoted s → Ensures AllTokens (parse_sort_string s)
unfolding parse_sort_string
parse_sort_string-Ensures s h = Ensures-if (is_empty (trim s)) failed (
    parse_tokens-Ensures (split b',' (trim s))
      (all-split no_quote b',' (trim s) (all_chars-trim no_quote s h)))

known_directions-Entries :
    (es : List (String × String)) → AllTokens es → Entries (known_directions es)
unfolding known_directions AllTokens Token Entries Entry
known_directions-Entries [] h = tt
known_directions-Entries ((path, dir) ∷ es) ((a, p), h) =
    ((a, holds p), known_directions-Entries es h)

UnquotedKeys : List (String × Value) → Type 0
UnquotedKeys [] = Unit {0}
UnquotedKeys ((path, v) ∷ rest) = Unquoted path × UnquotedKeys rest

field_directions-Entries :
    (fs : List (String × Value)) → UnquotedKeys fs → Entries (field_directions fs)
unfolding field_directions UnquotedKeys Entries Entry
field_directions-Entries [] h = tt
field_directions-Entries ((path, v) ∷ rest) (a, h) =
    ((a, direction-Flat v), field_directions-Entries rest h)

-- No apostrophe stands in a path of the sort: in a key of the object, or in the string.
unfoldable pub UnquotedPaths : Option Value → Type 0
unfolding UnquotedKeys
UnquotedPaths (some (object fs)) = UnquotedKeys (fields fs)
UnquotedPaths (some (string s)) = Unquoted s
UnquotedPaths _ = Unit {0}

-- For a sort without an apostrophe in its paths, with or without the score of a search,
-- `build_order_by_for_context` ends in an error or in flat SQL without placeholders.
pub build_order_by-Ensures :
    (sort : Option Value) (allow_search_score : Bool)
    → UnquotedPaths sort
    → Ensures (λ clause. Flat clause 0) (build_order_by_for_context sort allow_search_score)
unfolding build_order_by_for_context UnquotedPaths IsExpr scan
build_order_by-Ensures none allow h = holds (by_scan λ d h'. refl)
build_order_by-Ensures (some (object end)) allow h = holds (by_scan λ d h'. refl)
build_order_by-Ensures (some (object (field k v fs))) allow h =
    ordered-Flat allow (field_directions (fields (field k v fs)))
      (field_directions-Entries (fields (field k v fs)) h)
build_order_by-Ensures (some (string s)) allow h =
    Ensures-bind _ (parse_sort_string-Ensures s h)
      λ es p. ordered-Flat allow (known_directions es) (known_directions-Entries es p)
build_order_by-Ensures (some _) allow h = failed
