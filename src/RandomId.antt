-- ===== src/RandomId.antt =====
-- src/service/dispatcher/tx_mutation.rs: the characters of `@randomid`. The digests of random identifiers
-- are a parameter: the bytes of the digest of each turn of the loop.
pub mod Filled
pub mod Drawn
pub mod Chosen
pub mod Unbiased
pub mod Named
mod Tests
use Prim.Native.Char.{Char, code}
use Prim.Native.String
use kokoadb.Prelude.{
  ℕ, zero, suc, ◌+◌, ◌*◌, ◌/◌, ◌%◌, String, Bool, true, false, ◌==◌, leb, ltb, List, [], ◌∷◌,
  Option, none, some, ◌||◌, str_eq, if◌then◌else◌,
}
use kokoadb.Error.{AppResult, ok, err, out_of_fuel, bad_request, ◌>>=◌}
use kokoadb.Json.{Value, bool, number, pos_int, string, object, Fields, end, field, as_str}
use kokoadb.Text.{◌<>◌, trim, lowercase_is}

unfoldable pub random_id_alphabet : String → AppResult String
random_id_alphabet name =
    if lowercase_is (trim name) "hex"
    then ok "0123456789abcdef"
    else if lowercase_is (trim name) "numeric"
    then ok "0123456789"
    else if lowercase_is (trim name) "base32"
    then ok "0123456789ABCDEFGHJKMNPQRSTVWXYZ"
    else if lowercase_is (trim name) "base62"
    then ok "0123456789ABCDEFGHIJKLMNOPQRSTUVWXYZabcdefghijklmnopqrstuvwxyz"
    else err (bad_request "randomid alphabet must be hex|numeric|base32|base62")

-- The length of a text of ASCII characters.
unfoldable pub ascii_len : String → ℕ
ascii_len String.[] = 0
ascii_len (String.◌∷◌ c s) = suc (ascii_len s)

-- `alphabet[index] as char`
unfoldable pub pick : String → ℕ → String
pick String.[] i = ""
pick (String.◌∷◌ c s) zero = String.◌∷◌ c ""
pick (String.◌∷◌ c s) (suc i) = pick s i

abbrev pub unbiased_limit : ℕ → ℕ
unbiased_limit alphabet_len = (256 / alphabet_len) * alphabet_len

-- The loop over the bytes of a digest.
unfoldable pub add_bytes : String → ℕ → List ℕ → String → String
add_bytes alphabet len [] output = output
add_bytes alphabet len (byte ∷ rest) output =
    let next = output <> pick alphabet (byte % ascii_len alphabet) in
    let skipped = add_bytes alphabet len rest output in
    let more = add_bytes alphabet len rest next in
    if leb (unbiased_limit (ascii_len alphabet)) byte
    then skipped
    else if ascii_len next == len
    then next
    else more

-- The loop until the length is reached; `none` is out of fuel.
unfoldable pub fill : ℕ → String → ℕ → (ℕ → List ℕ) → ℕ → String → Option String
fill zero alphabet len digest turn output = if ltb (ascii_len output) len then none else some output
fill (suc fuel) alphabet len digest turn output =
    let rest =
      fill fuel alphabet len digest (suc turn) (add_bytes alphabet len (digest turn) output) in
    if ltb (ascii_len output) len then rest else some output

unfoldable pub random_id_chars : ℕ → (ℕ → List ℕ) → ℕ → String → Option String
random_id_chars fuel digest len alphabet = fill fuel alphabet len digest 0 ""

pub record Settings : Type 0 where
  pub prefix : String
  pub suffix : String
  pub len : ℕ
  pub alphabet : String

abbrev as_u64 : Value → Option ℕ
as_u64 (number (pos_int n)) = some n
as_u64 _ = none

abbrev or_bad : {A : Type 0} → String → Option A → AppResult A
or_bad message none = err (bad_request message)
or_bad message (some a) = ok a

unfoldable pub checked_len : ℕ → AppResult ℕ
checked_len l =
    if l == 0 || ltb 128 l then err (bad_request "rand_id len must be between 1 and 128") else ok l

-- One key of the options.
unfoldable pub apply_option : String → Value → Settings → AppResult Settings
apply_option key v s =
    if str_eq key "prefix"
    then (or_bad "rand_id prefix must be string" (as_str v) >>= λ p.
        ok (record { prefix = p; suffix = s.suffix; len = s.len; alphabet = s.alphabet }))
    else if str_eq key "suffix"
    then (or_bad "rand_id suffix must be string" (as_str v) >>= λ p.
        ok (record { prefix = s.prefix; suffix = p; len = s.len; alphabet = s.alphabet }))
    else if str_eq key "len"
    then (or_bad "rand_id len must be positive integer" (as_u64 v) >>= checked_len >>= λ l.
        ok (record { prefix = s.prefix; suffix = s.suffix; len = l; alphabet = s.alphabet }))
    else if str_eq key "alphabet"
    then (or_bad "randomid alphabet must be string" (as_str v) >>= random_id_alphabet >>= λ a.
        ok (record { prefix = s.prefix; suffix = s.suffix; len = s.len; alphabet = a }))
    else err (bad_request "randomid options only support prefix|suffix|len|alphabet")

unfoldable pub apply_options : Fields → Settings → AppResult Settings
apply_options end s = ok s
apply_options (field key v rest) s = apply_option key v s >>= apply_options rest

abbrev filled : Settings → Option String → AppResult Value
filled s none = out_of_fuel
filled s (some id) = ok (string (s.prefix <> id <> s.suffix))

abbrev pub with_settings : (ℕ → List ℕ) → Settings → AppResult Value
with_settings digest s = filled s (random_id_chars s.len digest s.len s.alphabet)

-- Twelve characters of the alphabet `hex`.
abbrev pub default_settings : String → Settings
default_settings hex = record { prefix = ""; suffix = ""; len = 12; alphabet = hex }

abbrev pub by_options : (ℕ → List ℕ) → Value → Settings → AppResult Value
by_options digest (bool true) s = with_settings digest s
by_options digest (object options) s = apply_options options s >>= with_settings digest
by_options digest _ s = err (bad_request "@randomid must be true or options object")

unfoldable pub resolve_kdb_rand_id : (ℕ → List ℕ) → Value → AppResult Value
resolve_kdb_rand_id digest arg =
    random_id_alphabet "hex" >>= λ hex. by_options digest arg (default_settings hex)
