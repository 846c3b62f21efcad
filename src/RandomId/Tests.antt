-- ===== src/RandomId/Tests.antt =====
-- Random identifiers from fixed digests, and instances of the theorems.
use kokoadb.Prelude.{ℕ, String, ◌/◌, ◌≡◌, refl, List, [], ◌∷◌}
use kokoadb.Error.{ok, err, bad_request, Ensures}
use kokoadb.Json.{Value, number, pos_int, string, object, field, end}
use kokoadb.Text.{◌<>◌, contains_char, trim, trim_start, trim_end, is_whitespace, lowercase_is}
use kokoadb.RandomId.{
  random_id_alphabet, ascii_len, pick, add_bytes, fill, random_id_chars, checked_len, apply_option,
  apply_options, resolve_kdb_rand_id,
}
use kokoadb.RandomId.Unbiased.{bytes_adding, add_bytes-unbiased}
use kokoadb.RandomId.Named.{IsComposed, rand_id-IsComposed}

identifiers : Unit {0}
unfolding trim trim_start trim_end is_whitespace lowercase_is random_id_alphabet ascii_len pick
    add_bytes fill random_id_chars checked_len apply_option apply_options resolve_kdb_rand_id
identifiers = tt

-- The byte 255 is passed over for an alphabet of ten characters.
abbrev digest : ℕ → List ℕ
digest turn = 255 ∷ 7 ∷ 12 ∷ []

abbrev options : Value
options = object (
    field "alphabet" (string "numeric")
      (field "len" (number (pos_int 3)) (field "prefix" (string "n-") end)))

options-resolved : resolve_kdb_rand_id digest options ≡ ok (string "n-727")
unfolding identifiers
options-resolved = refl

too_long :
    resolve_kdb_rand_id digest (object (field "len" (number (pos_int 129)) end))
    ≡ err (bad_request "rand_id len must be between 1 and 128")
unfolding identifiers
too_long = refl

rand_id-IsComposed_example : Ensures (IsComposed options) (resolve_kdb_rand_id digest options)
rand_id-IsComposed_example = rand_id-IsComposed digest (λ turn. refl) options

add_bytes-unbiased_example :
    (bytes_adding "0123456789" b'3' 256 ≡ 256 / ascii_len "0123456789")
    × ((len byte : ℕ) (output : String)
        → add_bytes "0123456789" len (byte ∷ []) output
          ≡ output <> add_bytes "0123456789" 1 (byte ∷ []) "")
unfolding identifiers contains_char
add_bytes-unbiased_example = add_bytes-unbiased " Numeric" "0123456789" b'3' refl refl
