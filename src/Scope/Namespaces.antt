-- ===== src/Scope/Namespaces.antt =====
-- src/service/dispatcher/runtime_support.rs: what the namespaces are that a request is resolved to.
use kokoadb.Prelude.{
  ◌≡◌, ◌≢◌, refl, sym, ◌∙◌, ap, String, Bool, true, false, not, ◌&&◌, ◌||◌, List, [], ◌∷◌, Option,
  none, some, ltb, length, str_eq, eq_iff, arith, Bool-cases, inl, inr, if◌then◌else◌,
}
use kokoadb.Error.{Ensures, holds, failed, Ensures-bind}
use kokoadb.Text.{trim, is_empty, contains_text}
use kokoadb.Scope.{NamespaceReadScope, unscoped, everywhere, one, many}
use kokoadb.Scope.Resolve.{
  trimmed_values, insert_text, sort_texts, starts_with_text, dedup, checked_namespaces,
  parse_values, parse_namespaces, only_star, named_collection, is_all, resolve,
  resolve_read_namespace_scope,
}

-- A name that a list of a request asks for: one of its texts without the blanks around it, if not empty.
abbrev pub asks : String → List String → Bool
asks n [] = false
asks n (v ∷ vs) = (not (is_empty (trim v)) && str_eq (trim v) n) || asks n vs

-- No text, or only blanks.
abbrev pub Missing : Option String → Type 0
Missing none = Unit {0}
Missing (some c) = is_empty (trim c) ≡ true

-- What limits a read to no namespace but those that are not empty.
pub data AllAsked (namespaces : Option (List String)) (collection scope : Option String)
    : Type 0 where
  by_list :
      (vs : List String)
      → namespaces ≡ some vs
      → Missing collection
      → ((n : String) → asks n vs ≡ str_eq "*" n)
      → AllAsked namespaces collection scope
  by_collection : namespaces ≡ none → collection ≡ some "*" → AllAsked namespaces collection scope
  by_scope :
      namespaces ≡ none
      → Missing collection
      → scope ≡ some "all"
      → AllAsked namespaces collection scope

module _ (namespaces : Option (List String)) (collection scope : Option String)
    (required : Bool) where
  -- The scope is the one that the request asks for.
  unfoldable pub IsNamed : NamespaceReadScope → Type 0
  IsNamed unscoped =
      (namespaces ≡ none) × Missing collection × (scope ≢ some "all") × (required ≡ false)
  IsNamed everywhere = AllAsked namespaces collection scope
  IsNamed (one ns) =
      (namespaces ≡ none)
      × (collection ≡ some ns)
      × (is_empty (trim ns) ≡ false)
      × (str_eq ns "*" ≡ false)
  IsNamed (many list) =
      (vs : List String) × (namespaces ≡ some vs)
      × Missing collection
      × (list ≢ [])
      × ((n : String) → contains_text n list ≡ asks n vs)
      × (asks "*" vs ≡ false)

contains-trimmed_values :
    (n : String) (vs : List String) → contains_text n (trimmed_values vs) ≡ asks n vs
unfolding trimmed_values contains_text
contains-trimmed_values n [] = refl
contains-trimmed_values n (v ∷ vs) = ground (arith, contains-trimmed_values n vs)

contains-insert :
    (n x : String) (ys : List String)
    → contains_text n (insert_text x ys) ≡ (str_eq x n || contains_text n ys)
unfolding insert_text contains_text
contains-insert n x [] = refl
contains-insert n x (y ∷ ys) = ground (arith, contains-insert n x ys)

contains-sort :
    (n : String) (xs : List String) → contains_text n (sort_texts xs) ≡ contains_text n xs
unfolding sort_texts contains_text
contains-sort n [] = refl
contains-sort n (x ∷ xs) = ground (arith, contains-sort n xs, contains-insert n x (sort_texts xs))

contains-again :
    (n x : String) (xs : List String)
    → starts_with_text x xs ≡ true
    → contains_text n xs ≡ contains_text n (x ∷ xs)
unfolding contains_text
contains-again n x [] h = cc
contains-again n x (y ∷ ys) h = rw ((eq_iff x y).0 h) (ground arith)

contains-dedup : (n : String) (xs : List String) → contains_text n (dedup xs) ≡ contains_text n xs
unfolding dedup contains_text
contains-dedup n [] = refl
contains-dedup n (x ∷ xs) = elim (Bool-cases (starts_with_text x xs)) [
  | inl q ↦ rw q (contains-dedup n xs ∙ contains-again n x xs q)
  | inr q ↦ rw q (ap (λ b. str_eq x n || b) (contains-dedup n xs))
]

not_nothing : (x : String) (list : List String) → contains_text x list ≡ true → list ≢ []
unfolding contains_text
not_nothing x [] h k = cc (h)
not_nothing x (y ∷ ys) h k = cc

-- What the list of a request is read as.
unfoldable Listed : Option (List String) → Option (List String) → Type 0
Listed namespaces none = namespaces ≡ none
Listed namespaces (some list) =
    (vs : List String) × (namespaces ≡ some vs)
    × (list ≢ [])
    × ((n : String) → contains_text n list ≡ asks n vs)
    × ((contains_text "*" list && ltb 1 (length list)) ≡ false)

values-Listed :
    (vs trimmed : List String)
    → ((n : String) → contains_text n trimmed ≡ asks n vs)
    → Ensures (Listed (some vs)) (parse_values trimmed)
unfolding parse_values checked_namespaces Listed contains_text
values-Listed vs [] same = failed
values-Listed vs (x ∷ xs) same =
    let out = dedup (sort_texts (x ∷ xs)) in
    let kept = λ (n : String). contains-dedup n (sort_texts (x ∷ xs)) ∙ contains-sort n (x ∷ xs) in
    elim (Bool-cases (contains_text "*" out && ltb 1 (length out))) [
      | inl q ↦ rw q failed
      | inr q ↦ rw q (
          holds (
            vs,
            refl,
            not_nothing x out (kept x ∙ ground (arith, (eq_iff x x).1 refl)),
            λ n. kept n ∙ same n,
            q,
          ))
    ]

namespaces-Listed : (o : Option (List String)) → Ensures (Listed o) (parse_namespaces o)
unfolding parse_namespaces Listed
namespaces-Listed none = holds refl
namespaces-Listed (some vs) =
    values-Listed vs (trimmed_values vs) (λ n. contains-trimmed_values n vs)

no_star :
    (list : List String)
    → (contains_text "*" list && ltb 1 (length list)) ≡ false
    → only_star list ≡ false
    → contains_text "*" list ≡ false
unfolding contains_text
no_star [] h k = refl
no_star (x ∷ []) h k = ground (arith)
no_star (x ∷ y ∷ ys) h k = ground (arith)

only_star-contains :
    (n : String) (list : List String) → only_star list ≡ true → contains_text n list ≡ str_eq "*" n
unfolding contains_text
only_star-contains n [] h = cc
only_star-contains n (x ∷ []) h = rw ((eq_iff x "*").0 h) (ground arith)
only_star-contains n (x ∷ y ∷ ys) h = cc

-- What the collection of a request is read as.
Single : Option String → Option String → Type 0
Single collection none = Missing collection
Single collection (some c) = (collection ≡ some c) × (is_empty (trim c) ≡ false)

collection-Single : (o : Option String) → Single o (named_collection o)
unfolding Single named_collection
collection-Single none = tt
collection-Single (some c) = elim (Bool-cases (is_empty (trim c))) [
  | inl q ↦ rw q q
  | inr q ↦ rw q (refl, q)
]

is_all-true : (scope : Option String) → is_all scope ≡ true → scope ≡ some "all"
is_all-true none h = cc
is_all-true (some s) h = ap some ((eq_iff s "all").0 h)

is_all-false : (scope : Option String) → is_all scope ≡ false → scope ≢ some "all"
is_all-false scope h e = cc (h, ap is_all e)

module _ (namespaces : Option (List String)) (collection scope : Option String)
    (required : Bool) where
  list-IsNamed :
      (list : List String)
      → Listed namespaces (some list)
      → Missing collection
      → IsNamed namespaces collection scope required
          (if only_star list then everywhere else many list)
  unfolding Listed IsNamed
  list-IsNamed list (vs, e, given, same, h) m = elim (Bool-cases (only_star list)) [
    | inl q ↦ rw q (AllAsked.by_list vs e m (λ n. sym (same n) ∙ only_star-contains n list q))
    | inr q ↦ rw q (vs, e, m, given, same, sym (same "*") ∙ no_star list h q)
  ]

  collection-IsNamed :
      (c : String)
      → namespaces ≡ none
      → Single collection (some c)
      → IsNamed namespaces collection scope required (if str_eq c "*" then everywhere else one c)
  unfolding IsNamed Single
  collection-IsNamed c n (e, h) = elim (Bool-cases (str_eq c "*")) [
    | inl q ↦ rw q (AllAsked.by_collection n (e ∙ ap some ((eq_iff c "*").0 q)))
    | inr q ↦ rw q (n, e, h, q)
  ]

  resolve-IsNamed :
      (list : Option (List String)) (single : Option String)
      → Listed namespaces list
      → Single collection single
      → Ensures (IsNamed namespaces collection scope required) (resolve list single scope required)
  unfolding resolve Listed Single IsNamed
  resolve-IsNamed (some list) (some c) h k = failed
  resolve-IsNamed (some list) none h k = holds (list-IsNamed list h k)
  resolve-IsNamed none (some c) h k = holds (collection-IsNamed c h k)
  resolve-IsNamed none none h k = elim (Bool-cases (is_all scope)) [
    | inl q ↦ rw q (holds (AllAsked.by_scope h k (is_all-true scope q)))
    | inr q ↦ elim (Bool-cases required) [
      | inl r ↦ rw (q, r) failed
      | inr r ↦ rw (q, r) (holds (h, k, is_all-false scope q, refl))
    ]
  ]

  -- Whatever a request says, the resolution ends in an error or in the scope it asks for. A list of names:
  -- it is not empty, its names are exactly the texts of the request's list without the blanks around them
  -- that are then not empty, and none of these is `*`. One name: the collection of a request without a
  -- list, neither blank nor `*`. Every namespace: all that the list asks for is `*`, or without a list the
  -- collection is `*`, or it is missing or blank too and the scope is `all`. No limit: only if none of the
  -- three asks for anything and no namespace is required.
  pub resolve_read_namespace_scope-IsNamed :
      Ensures
        (IsNamed namespaces collection scope required)
        (resolve_read_namespace_scope namespaces collection scope required)
  unfolding resolve_read_namespace_scope
  resolve_read_namespace_scope-IsNamed =
      Ensures-bind _ (namespaces-Listed namespaces) λ list h.
        resolve-IsNamed list (named_collection collection) h (collection-Single collection)
