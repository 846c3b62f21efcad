-- ===== src/Mutation/Elements.antt =====
-- src/service/dispatcher/tx_mutation.rs: the elements that a selector does not choose.
use mathlib.Core.Path.{subst}
use kokoadb.Prelude.{
  String, Bool, true, false, ◌≡◌, List, [], ◌∷◌, ◌++◌, Option, none, some, if◌then◌else◌,
  Bool-cases, inl, inr,
}
use kokoadb.Error.{AppResult, ok, bind-ok, ok_injective}
use kokoadb.Json.{Value, array, Items, nil, cons, Fields}
use kokoadb.Text.{split, join}
use kokoadb.Doc.{path_parts, get_field, get_path, update_path}
use kokoadb.Doc.Paths.{get-update_at}
use kokoadb.Host.{Host}
use kokoadb.ArrayFilter.Match.{json_filter_matches}
use kokoadb.Mutation.Contract.{is_positional_selector, positional_selector_name}
use kokoadb.Mutation.Patch.{change_items, on_items, positional_at, apply_positional_mutation}
use kokoadb.Mutation.Locality.{selector_prefix, array_path}

-- Two arrays of one length; an element of the first that does not pass the test stands in the second,
-- at the same place.
pub data Aligned (test : Value → AppResult Bool) : Items → Items → Type 0 where
  aligned_nil : Aligned test nil nil
  chosen :
      (v w : Value) (vs ws : Items)
      → test v ≡ ok true
      → Aligned test vs ws
      → Aligned test (cons v vs) (cons w ws)
  kept :
      (v : Value) (vs ws : Items)
      → test v ≡ ok false
      → Aligned test vs ws
      → Aligned test (cons v vs) (cons v ws)

change_items-Aligned :
    (test : Value → AppResult Bool) (change : Value → AppResult Value) (xs ys : Items)
    → change_items test change xs ≡ ok ys
    → Aligned test xs ys
unfolding change_items
change_items-Aligned test change nil ys h = subst (Aligned test nil) (ok_injective h) aligned_nil
change_items-Aligned test change (cons v vs) ys h =
    let (matched, t, g) = bind-ok _ _ h in
    let (w, c, k) = bind-ok _ _ g in
    let (ws, r, e) = bind-ok _ _ k in
    subst (Aligned test (cons v vs)) (ok_injective e)
      (join_one matched t w c ws (change_items-Aligned test change vs ws r))
  where
    join_one :
        (matched : Bool)
        → test v ≡ ok matched
        → (w : Value) → (if matched then change v else ok v) ≡ ok w
        → (ws : Items) → Aligned test vs ws
        → Aligned test (cons v vs) (cons w ws)
    join_one true t w c ws a = chosen v w vs ws t a
    join_one false t w c ws a =
        subst (λ x. Aligned test (cons v vs) (cons x ws)) (ok_injective c) (kept v vs ws t a)

-- The name of the first selector.
unfoldable pub first_selector : List String → Option String
first_selector [] = none
first_selector (segment ∷ rest) =
    let later = first_selector rest in
    if is_positional_selector segment then positional_selector_name segment else later

module _ (host : Host) (filters : Fields) (strict : Bool) (spec : Value) where
  -- What stands at the path of the array afterwards.
  Selected : String → Value → Items → Value → Type 0
  Selected prefix filter xs out =
      (ys : Items) × (get_path out prefix ≡ some (array ys))
      × Aligned (json_filter_matches host filter) xs ys

  on_items-Selected :
      (root out filter : Value) (prefix : String) (change : Value → AppResult Value) (xs : Items)
      → get_path root prefix ≡ some (array xs)
      → on_items root prefix strict
          (change_items (json_filter_matches host filter) change)
          (some (array xs))
        ≡ ok out
      → Selected prefix filter xs out
  unfolding Selected get_path update_path
  on_items-Selected root out filter prefix change xs found h =
      let (ys, c, g) = bind-ok (change_items (json_filter_matches host filter) change xs) _ h in
      (
        ys,
        rw (← ok_injective g)
            (get-update_at (path_parts prefix) (λ old. array ys) root (array xs) found),
        change_items-Aligned (json_filter_matches host filter) change xs ys c,
      )

  positional-Selected :
      (path name : String) (before rest : List String) (root out filter : Value) (xs : Items)
      → first_selector rest ≡ some name
      → get_field name filters ≡ some filter
      → get_path root (join "." (selector_prefix before rest)) ≡ some (array xs)
      → positional_at host filters strict spec path before rest root ≡ ok out
      → Selected (join "." (selector_prefix before rest)) filter xs out
  unfolding positional_at selector_prefix first_selector
  positional-Selected path name before [] root out filter xs f g a h = cc
  positional-Selected path name before (segment ∷ rest) root out filter xs f g a h =
      elim (Bool-cases (is_positional_selector segment)) [
        | inl s ↦
            let at_name = rw s at f in
            let found = rw s at a in
            rw s (
              on_items-Selected root out filter (join "." before) _ xs found
                (rw (s, at_name, g, found) at h))
        | inr s ↦ rw s (
            positional-Selected path name (before ++ (segment ∷ [])) rest root out filter xs
              (rw s at f) g (rw s at a) (rw s at h))
      ]

  -- A positional mutation that succeeds on an array leaves an array of the same length there, in which
  -- every element that the filter of the first selector does not match stands where it stood.
  pub positional-keeps_others :
      (path name : String) (root out filter : Value) (xs : Items)
      → first_selector (split b'.' path) ≡ some name
      → get_field name filters ≡ some filter
      → get_path root (array_path path) ≡ some (array xs)
      → apply_positional_mutation host root path spec filters strict ≡ ok out
      → (ys : Items) × (get_path out (array_path path) ≡ some (array ys))
        × Aligned (json_filter_matches host filter) xs ys
  unfolding apply_positional_mutation Selected
  positional-keeps_others path name root out filter xs f g a h =
      positional-Selected path name [] (split b'.' path) root out filter xs f g a h
