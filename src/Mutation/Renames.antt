-- ===== src/Mutation/Renames.antt =====
-- src/service/dispatcher/tx_mutation.rs: where the value of a renamed path goes.
use kokoadb.Prelude.{
  String, true, false, ◌≡◌, ◌≢◌, refl, sym, ◌∙◌, List, [], ◌∷◌, none, some, arith, str_eq, eq_iff,
  Bool-cases, inl, inr,
}
use kokoadb.Error.{AppError, AppResult, ok, err, out_of_fuel, ok_injective}
use kokoadb.Json.{Value, string, object, end, field}
use kokoadb.Sort.{validate_projection_path}
use kokoadb.Doc.{
  path_parts, fields_or_empty, get_at, set_at, drop_at, get_path, set_path, drop_path,
}
use kokoadb.Doc.Paths.{apart, get-set_at, same_key}
use kokoadb.Doc.Drops.{get-drop_at}
use kokoadb.Host.{Host}
use kokoadb.Mutation.Macros.{is_known_kdb_macro}
use kokoadb.Mutation.Single.{
  is_protected_target, rename_found, rename_valid, trimmed_text, mutation_named, run_mutation,
  operator_of, apply_single_mutation_field,
}
use kokoadb.Mutation.Frame.{Keeps, apart_nothing, set_path-Keeps}

apart_self : (ps : List String) → apart ps ps ≡ false
unfolding apart
apart_self [] = refl
apart_self (p ∷ ps) = ground (arith, eq_iff p p, apart_self ps)

apart_sym : (ps qs : List String) → apart ps qs ≡ apart qs ps
unfolding apart
apart_sym [] [] = refl
apart_sym [] (q ∷ qs) = refl
apart_sym (p ∷ ps) [] = refl
apart_sym (p ∷ ps) (q ∷ qs) = ground (arith, eq_iff p q, eq_iff q p, apart_sym ps qs)

get-set_apart_from :
    (path other : String) (root v : Value)
    → apart (path_parts other) (path_parts path) ≡ true
    → get_path (set_path root path v) path ≡ some v
unfolding get_path set_path Keeps
get-set_apart_from path other root v a = at (path_parts path) a
  where
    at :
        (ps : List String)
        → apart (path_parts other) ps ≡ true
        → get_at ps (object (set_at ps v (fields_or_empty root))) ≡ some v
    at [] h = absurd (apart_nothing (path_parts other) h)
    at (p ∷ ps) h = get-set_at p ps v (fields_or_empty root)

get-drop_apart_from :
    (path other : String) (root : Value)
    → apart (path_parts path) (path_parts other) ≡ true
    → get_path (drop_path root path) path ≡ none
unfolding get_path drop_path apart
get-drop_apart_from path other root a = at (path_parts path) a
  where
    at :
        (ps : List String) → apart ps (path_parts other) ≡ true → get_at ps (drop_at ps root) ≡ none
    at [] h = cc
    at (p ∷ ps) h = get-drop_at p ps root

err_not_ok : {A : Type 0} {e : AppError} {a : A} → err e ≢ ok a
err_not_ok h = cc

not_apart :
    (path target : String) → apart (path_parts path) (path_parts target) ≡ true → target ≢ path
not_apart path target a e = cc (rw (e, apart_self (path_parts path)) at a)

module _ (doc : Value) (path target : String) (v out : Value)
    (free : apart (path_parts path) (path_parts target) ≡ true)
    (found : get_path doc path ≡ some v) where
  Moved : Type 0
  Moved = (get_path out target ≡ some v) × (get_path out path ≡ none)

  rename_found-Moved : rename_found doc path target (get_path doc path) ≡ ok out → Moved
  unfolding Moved Keeps get_path
  rename_found-Moved h =
      let result = ok_injective (rw found at h) in
      (
        rw (← result) (get-set_apart_from target path (drop_path doc path) v free),
        rw (← result) (
            set_path-Keeps target (path_parts path) v (drop_path doc path)
              (sym (apart_sym (path_parts path) (path_parts target)) ∙ free)
            ∙ get-drop_apart_from path target doc free),
      )

  rename_valid-Moved :
      (r : AppResult (Unit {0})) → rename_valid doc path true target r ≡ ok out → Moved
  rename_valid-Moved (ok u) h = elim (Bool-cases (is_protected_target path target)) [
    | inl p ↦ absurd (err_not_ok (rw p at h))
    | inr p ↦ elim (Bool-cases (str_eq target path)) [
      | inl e ↦ absurd (not_apart path target free (same_key target path e))
      | inr e ↦ rename_found-Moved (rw (p, e) at h)
    ]
  ]
  rename_valid-Moved (err e) h = cc
  rename_valid-Moved out_of_fuel h = cc

-- A strict `$rename` that succeeds on a path with a value, to a target that is neither above the path
-- nor below it, moves the value: it stands at the target, and nothing at the path.
pub rename-moves :
    (host : Host) (doc : Value) (path name target : String) (v out : Value)
    → trimmed_text (string name) ≡ some target
    → apart (path_parts path) (path_parts target) ≡ true
    → get_path doc path ≡ some v
    → apply_single_mutation_field host doc path (object (field "$rename" (string name) end)) true
      ≡ ok out
    → (get_path out target ≡ some v) × (get_path out path ≡ none)
unfolding apply_single_mutation_field operator_of run_mutation mutation_named is_known_kdb_macro
    Moved
rename-moves host doc path name target v out t free found h =
    rename_valid-Moved doc path target v out free found
      (validate_projection_path target "$rename target") (rw t at h)
