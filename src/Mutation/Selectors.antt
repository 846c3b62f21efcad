-- ===== src/Mutation/Selectors.antt =====
-- src/service/dispatcher/tx_mutation.rs: the filters that a patch with selectors is given.
use kokoadb.Prelude.{
  String, Bool, true, false, ◌||◌, ◌≡◌, ◌≢◌, refl, ap, ◌∙◌, List, [], ◌∷◌, any, Option, none, some,
  arith, str_eq, eq_iff, if◌then◌else◌, Bool-cases, inl, inr,
}
use kokoadb.Error.{AppError, ok, err, ◌>>=◌, bind-ok, ok_injective}
use kokoadb.Json.{Value, object, Fields, end, field}
use kokoadb.Text.{◌<>◌, split, is_empty, contains_char, contains_text, starts_with, contains_part}
use kokoadb.Doc.{get_field}
use kokoadb.Doc.Paths.{same_key, some_injective}
use kokoadb.Mutation.Contract.{
  is_positional_selector, positional_selector_name, is_last, add_selector, path_selectors,
  patch_selectors, is_filter, is_some, check_filters, is_found, check_selectors, checked_filters,
  validate_positional_mutation_contract,
}

err_not_ok : {A : Type 0} {e : AppError} {a : A} → err e ≢ ok a
err_not_ok h = cc

starts-contains : (p s : String) → starts_with p s ≡ true → contains_part p s ≡ true
unfolding starts_with contains_part
starts-contains String.[] String.[] h = refl
starts-contains (String.◌∷◌ c p) String.[] h = cc
starts-contains p (String.◌∷◌ c s) h = rw h refl

-- A segment that names a selector is looked at.
name-marked :
    (segment name : String)
    → positional_selector_name segment ≡ some name
    → (contains_part "$[" segment || contains_char b']' segment) ≡ true
unfolding positional_selector_name is_positional_selector
name-marked segment name h = elim (Bool-cases (starts_with "$[" segment)) [
  | inl s ↦ rw (starts-contains "$[" segment s) refl
  | inr s ↦ absurd (none_not_name (rw s at h))
]
  where
    none_not_name : {n : String} → none ≢ some n
    none_not_name e = cc

module _ (name : String) where
  add-keeps :
      (path : String) (edge : Bool) (o : Option String) (selectors out : List String)
      → contains_text name selectors ≡ true
      → add_selector path edge o selectors ≡ ok out
      → contains_text name out ≡ true
  unfolding contains_text
  add-keeps path edge none selectors out c h = cc
  add-keeps path true (some n) selectors out c h = cc
  add-keeps path false (some n) selectors out c h = elim (Bool-cases (contains_text n selectors)) [
    | inl y ↦ rw (← ok_injective (rw y at h)) c
    | inr y ↦ rw (← ok_injective (rw y at h)) (ground (arith, c))
  ]

  add-collects :
      (path : String) (edge : Bool) (selectors out : List String)
      → add_selector path edge (some name) selectors ≡ ok out
      → contains_text name out ≡ true
  unfolding contains_text
  add-collects path true selectors out h = cc
  add-collects path false selectors out h = elim (Bool-cases (contains_text name selectors)) [
    | inl y ↦ rw (← ok_injective (rw y at h)) y
    | inr y ↦ rw (← ok_injective (rw y at h)) (ground (arith, eq_iff name name))
  ]

  segment-keeps :
      (path segment : String) (edge : Bool) (selectors out : List String) (marked : Bool)
      → contains_text name selectors ≡ true
      → (if marked
          then add_selector path edge (positional_selector_name segment) selectors
          else ok selectors)
        ≡ ok out
      → contains_text name out ≡ true
  segment-keeps path segment edge selectors out true c h =
      add-keeps path edge (positional_selector_name segment) selectors out c h
  segment-keeps path segment edge selectors out false c h = rw (← ok_injective h) c

  path-keeps :
      (path : String) (start : Bool) (segs selectors out : List String)
      → contains_text name selectors ≡ true
      → path_selectors path start segs selectors ≡ ok out
      → contains_text name out ≡ true
  unfolding path_selectors
  path-keeps path start [] selectors out c h = rw (← ok_injective h) c
  path-keeps path start (segment ∷ rest) selectors out c h =
      let marked = contains_part "$[" segment || contains_char b']' segment in
      let edge = start || is_last rest in
      let (more, e, g) =
        bind-ok
          (if marked
            then add_selector path edge (positional_selector_name segment) selectors
            else ok selectors)
          (path_selectors path false rest) h in
      path-keeps path false rest more out
        (segment-keeps path segment edge selectors more marked c e) g

  path-collects :
      (path segment : String) (start : Bool) (segs selectors out : List String)
      → contains_text segment segs ≡ true
      → positional_selector_name segment ≡ some name
      → path_selectors path start segs selectors ≡ ok out
      → contains_text name out ≡ true
  unfolding path_selectors contains_text
  path-collects path segment start [] selectors out c n h = cc
  path-collects path segment start (first ∷ rest) selectors out c n h =
      let marked = contains_part "$[" first || contains_char b']' first in
      let edge = start || is_last rest in
      let (more, e, g) =
        bind-ok
          (if marked
            then add_selector path edge (positional_selector_name first) selectors
            else ok selectors)
          (path_selectors path false rest) h in
      elim (Bool-cases (str_eq first segment)) [
        | inl same ↦
            let here = ap positional_selector_name (same_key first segment same) ∙ n in
            path-keeps path false rest more out
              (add-collects path edge selectors more (rw (name-marked first name here, here) at e))
              g
        | inr other ↦ path-collects path segment false rest more out (rw other at c) n g
      ]

  patch-keeps :
      (patch : Fields) (selectors out : List String)
      → contains_text name selectors ≡ true
      → patch_selectors patch selectors ≡ ok out
      → contains_text name out ≡ true
  unfolding patch_selectors
  patch-keeps end selectors out c h = rw (← ok_injective h) c
  patch-keeps (field path spec rest) selectors out c h =
      elim (Bool-cases (any is_empty (split b'.' path))) [
        | inl y ↦ absurd (err_not_ok (rw y at h))
        | inr y ↦
            let (more, e, g) =
              bind-ok (path_selectors path true (split b'.' path) selectors) (patch_selectors rest)
                (rw y at h) in
            patch-keeps rest more out (path-keeps path true (split b'.' path) selectors more c e) g
      ]

  patch-collects :
      (patch : Fields) (path segment : String) (spec : Value) (selectors out : List String)
      → get_field path patch ≡ some spec
      → contains_text segment (split b'.' path) ≡ true
      → positional_selector_name segment ≡ some name
      → patch_selectors patch selectors ≡ ok out
      → contains_text name out ≡ true
  unfolding patch_selectors get_field
  patch-collects end path segment spec selectors out f c n h = cc
  patch-collects (field key v rest) path segment spec selectors out f c n h =
      elim (Bool-cases (any is_empty (split b'.' key))) [
        | inl y ↦ absurd (err_not_ok (rw y at h))
        | inr y ↦
            let (more, e, g) =
              bind-ok (path_selectors key true (split b'.' key) selectors) (patch_selectors rest)
                (rw y at h) in
            elim (Bool-cases (str_eq key path)) [
              | inl same ↦
                  patch-keeps rest more out
                    (path-collects key segment true (split b'.' key) selectors more
                      (rw (← same_key key path same) at c) n e)
                    g
              | inr other ↦ patch-collects rest path segment spec more out (rw other at f) c n g
            ]
      ]

  -- The filter that is found for the selector.
  pub HasFilter : Fields → Type 0
  HasFilter filters =
      (filter : Value) × (get_field name filters ≡ some filter) × (is_filter filter ≡ true)

  check_selectors-found :
      (selectors : List String) (filters : Fields) {u : Unit {0}}
      → contains_text name selectors ≡ true
      → check_selectors selectors filters ≡ ok u
      → is_found (get_field name filters) ≡ true
  unfolding check_selectors contains_text
  check_selectors-found [] filters c h = cc
  check_selectors-found (selector ∷ rest) filters c h =
      elim (Bool-cases (is_found (get_field selector filters))) [
        | inl f ↦ elim (Bool-cases (str_eq selector name)) [
          | inl same ↦ rw (← same_key selector name same) f
          | inr other ↦ check_selectors-found rest filters (rw other at c) (rw f at h)
        ]
        | inr f ↦ absurd (err_not_ok (rw f at h))
      ]

  check_filters-filter :
      (selectors : List String) (filters : Fields) (filter : Value) {u : Unit {0}}
      → get_field name filters ≡ some filter
      → check_filters selectors filters ≡ ok u
      → is_filter filter ≡ true
  unfolding check_filters get_field
  check_filters-filter selectors end filter g h = cc
  check_filters-filter selectors (field key v rest) filter g h =
      elim (Bool-cases (is_some (positional_selector_name ("$[" <> key <> "]")))) [
        | inr n ↦ absurd (err_not_ok (rw n at h))
        | inl n ↦ elim (Bool-cases (is_filter v)) [
          | inr f ↦ absurd (err_not_ok (rw (n, f) at h))
          | inl f ↦ elim (Bool-cases (contains_text key selectors)) [
            | inr c ↦ absurd (err_not_ok (rw (n, f, c) at h))
            | inl c ↦ elim (Bool-cases (str_eq key name)) [
              | inl same ↦ rw (← some_injective (rw same at g)) f
              | inr other ↦
                  check_filters-filter selectors rest filter (rw other at g) (rw (n, f, c) at h)
            ]
          ]
        ]
      ]

  checked-HasFilter :
      (selectors : List String) (o : Option Value) (filters : Fields)
      → contains_text name selectors ≡ true
      → checked_filters selectors o ≡ ok filters
      → HasFilter filters
  unfolding HasFilter contains_text
  checked-HasFilter [] none filters c h = cc
  checked-HasFilter [] (some v) filters c h = cc
  checked-HasFilter (s ∷ rest) none filters c h = cc
  checked-HasFilter (s ∷ rest) (some (object end)) filters c h = cc
  checked-HasFilter (s ∷ rest) (some (object (field k v fs))) filters c h =
      let (u, e, g) =
        bind-ok (check_filters (s ∷ rest) (field k v fs))
          (λ u. check_selectors (s ∷ rest) (field k v fs) >>= λ w. ok (field k v fs)) h in
      let (w, found, r) =
        bind-ok (check_selectors (s ∷ rest) (field k v fs)) (λ w. ok (field k v fs)) g in
      rw (← ok_injective r) (
        at_name (field k v fs) e (get_field name (field k v fs)) refl
          (check_selectors-found (s ∷ rest) (field k v fs) c found))
    where
      at_name :
          (all_of : Fields) {u : Unit {0}}
          → check_filters (s ∷ rest) all_of ≡ ok u
          → (o : Option Value) → get_field name all_of ≡ o
          → is_found o ≡ true
          → HasFilter all_of
      at_name all_of e none g f = cc
      at_name all_of e (some filter) g f =
          (filter, g, check_filters-filter (s ∷ rest) all_of filter g e)
  checked-HasFilter (s ∷ rest) (some _) filters c h = cc

  -- Where the contract of a patch holds, each selector in a path of the patch has a filter among those
  -- that the contract returns, which is an object with at least one field.
  pub contract-HasFilter :
      (patch : Fields) (array_filters : Option Value) (filters : Fields) (path segment : String)
      (spec : Value)
      → get_field path patch ≡ some spec
      → contains_text segment (split b'.' path) ≡ true
      → positional_selector_name segment ≡ some name
      → validate_positional_mutation_contract patch array_filters ≡ ok filters
      → HasFilter filters
  unfolding validate_positional_mutation_contract
  contract-HasFilter patch array_filters filters path segment spec f c n h =
      let (selectors, e, g) =
        bind-ok (patch_selectors patch []) (λ selectors. checked_filters selectors array_filters)
          h in
      checked-HasFilter selectors array_filters filters
        (patch-collects patch path segment spec [] selectors f c n e) g
