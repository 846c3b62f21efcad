-- ===== src/Jql/Flat/Path.antt =====
-- src/query/jql.rs: the texts of the expressions made from paths, and of the aliases.
use kokoadb.Prelude.{
  ℕ, zero, suc, ◌/◌, ◌%◌, String, ◌≡◌, refl, ◌≢◌, true, ◌||◌, List, [], ◌∷◌, ◌++◌, arith, ◌==◌, all,
  Bool-cases, Option-cases, inl, inr, All-get_or,
}
use kokoadb.Error.{AppResult, ok, err, out_of_fuel, Ensures, holds, failed, ◌>>◌}
use kokoadb.Text.{◌<>◌, split, strip_suffix, all_chars, is_word_char}
use kokoadb.Text.Laws.{all_chars-split, all_chars-append}
use kokoadb.Sql.{scan}
use kokoadb.Sql.Spans.{by_scan, Flat, Flat-append, Flat-wrap, Spans-quote, Flat-word, scan-path}
use kokoadb.Jql.Path.{
  validate_segments, validate_path, json_path_expr, json_array_expr, dot, split_from,
  split_first_array_path, pattern_from, array_path_fullkey_pattern,
}
use kokoadb.Jql.Alias.{hex_digits, hex_digit, hex_from, hex, fnv, json_each_alias, json_tree_alias}

validate_segments-words :
    (segments : List String)
    → validate_segments segments ≡ ok tt
    → all (all_chars is_word_char) segments ≡ true
unfolding validate_segments
validate_segments-words [] h = refl
validate_segments-words (s ∷ ss) h = ground (arith, validate_segments-words ss)

-- Every character of a valid path is a word character or a dot.
pub validate_path-chars :
    (path : String)
    → validate_path path ≡ ok tt
    → all_chars (λ c. c == dot || is_word_char c) path ≡ true
unfolding validate_path
validate_path-chars path h =
    all_chars-split is_word_char dot path (validate_segments-words (split dot path) (ground arith))

-- What a check establishes may be used in what follows it.
Ensures-after :
    (r : AppResult (Unit {0})) {P : String → Type 0} (e : String)
    → r ≢ out_of_fuel
    → (r ≡ ok tt → P e)
    → Ensures P (r >> ok e)
Ensures-after (ok u) e n k = holds (k refl)
Ensures-after (err x) e n k = failed
Ensures-after out_of_fuel e n k = absurd (n refl)

validate_segments-returns : (segments : List String) → validate_segments segments ≢ out_of_fuel
unfolding validate_segments
validate_segments-returns [] = cc
validate_segments-returns (s ∷ ss) = ground (arith, validate_segments-returns ss)

validate_path-returns : (path : String) → validate_path path ≢ out_of_fuel
unfolding validate_path
validate_path-returns path = ground (arith, validate_segments-returns (split dot path))

pub json_path_expr-Flat :
    (base path : String) → Flat base 0 → Ensures (λ e. Flat e 0) (json_path_expr base path)
unfolding json_path_expr scan
json_path_expr-Flat base path b =
    Ensures-after (validate_path path) _ (validate_path-returns path) λ v. Flat-append 0 0 b (
      Spans-quote " ->> '$." path "'" (λ d h. refl)
        (λ d h. scan-path path d h (validate_path-chars path v)) (λ d h. refl))

pub json_array_expr-Flat :
    (base path : String) → Flat base 0 → Ensures (λ e. Flat e 0) (json_array_expr base path)
unfolding json_array_expr scan
json_array_expr-Flat base path b =
    Ensures-after (validate_path path) _ (validate_path-returns path) λ v.
      Flat-wrap 1 0 0 0 (by_scan λ d h. refl) b (
        Spans-quote ", '$." path "')" (λ d h. refl)
          (λ d h. scan-path path d h (validate_path-chars path v)) (λ d h. refl))

abbrev IsWord : String → Type 0
IsWord s = all_chars is_word_char s ≡ true

IsWord-append : (s t : String) → IsWord s → IsWord t → IsWord (s <> t)
IsWord-append s t a b = rw (all_chars-append, a, b)

hex_digit-IsWord : (n : ℕ) → IsWord (hex_digit n)
unfolding hex_digit all_chars is_word_char
hex_digit-IsWord n =
    All-get_or IsWord hex_digits n "f"
      (
        refl,
        (
          refl,
          (
            refl,
            (
              refl,
              (
                refl,
                (
                  refl,
                  (
                    refl,
                    (refl, (refl, (refl, (refl, (refl, (refl, (refl, (refl, (refl, tt))))))))),
                  ),
                ),
              ),
            ),
          ),
        ),
      )
      refl

hex_from-IsWord : (k n : ℕ) → IsWord (hex_from k n)
unfolding hex_from
hex_from-IsWord zero n = unfold all_chars in refl
hex_from-IsWord (suc k) n = elim (Bool-cases (n == 0)) [
  | inl z ↦ rw z (unfold all_chars in refl)
  | inr p ↦ rw p (IsWord-append _ _ (hex_from-IsWord k (n / 16)) (hex_digit-IsWord (n % 16)))
]

hex-IsWord : (n : ℕ) → IsWord (hex n)
unfolding hex
hex-IsWord n = elim (Bool-cases (n == 0)) [
  | inl z ↦ rw z (unfold all_chars is_word_char in refl)
  | inr p ↦ rw p (hex_from-IsWord 16 n)
]

pub json_each_alias-Flat : (e : String) → Flat (json_each_alias e) 0
unfolding json_each_alias all_chars is_word_char
json_each_alias-Flat e =
    Flat-append 0 0 (Flat-word "je_" refl) (Flat-word (hex (fnv e)) (hex-IsWord (fnv e)))

pub json_tree_alias-Flat : (base path : String) → Flat (json_tree_alias base path) 0
unfolding json_tree_alias all_chars is_word_char
json_tree_alias-Flat base path =
    Flat-append 0 0 (Flat-word "jt_" refl) (Flat-word (hex (fnv _)) (hex-IsWord (fnv _)))

pub split_from-returns : (prefix segments : List String) → split_from prefix segments ≢ out_of_fuel
unfolding split_from
split_from-returns prefix [] = cc
split_from-returns prefix (s ∷ ss) = ground (arith, split_from-returns (prefix ++ s ∷ []) ss)

pub split_first_array_path-returns : (path : String) → split_first_array_path path ≢ out_of_fuel
unfolding split_first_array_path
split_first_array_path-returns path = ground (arith, split_from-returns [] (split dot path))

pattern_from-returns : (pattern : String) (ss : List String) → pattern_from pattern ss ≢ out_of_fuel
unfolding pattern_from
pattern_from-returns pattern [] e = cc
pattern_from-returns pattern (s ∷ ss) e = elim (Option-cases (strip_suffix "[]" s)) [
  | inl q ↦ ground (arith, pattern_from-returns (pattern <> "." <> s) ss)
  | inr (f, q) ↦ ground (arith, pattern_from-returns (pattern <> "." <> f <> "[%]") ss)
]

pub array_path_fullkey_pattern-returns :
    (path : String) → array_path_fullkey_pattern path ≢ out_of_fuel
unfolding array_path_fullkey_pattern
array_path_fullkey_pattern-returns path = pattern_from-returns "$" (split dot path)
