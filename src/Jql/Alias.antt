-- ===== src/Jql/Alias.antt =====
-- src/query/jql.rs: the aliases of `json_each` and `json_tree` tables, by a 64-bit FNV-1a hash.
use Prim.Native.Nat.{bit_xor}
use Prim.Native.Char.{code}
use kokoadb.Prelude.{
  ℕ, zero, suc, ◌+◌, ◌*◌, ◌/◌, ◌%◌, ◌^◌, String, List, [], ◌∷◌, ◌++◌, get_or, ltb, ◌==◌,
  if◌then◌else◌,
}
use kokoadb.Text.{◌<>◌}

-- The UTF-8 bytes of a code point.
unfoldable pub utf8 : ℕ → List ℕ
utf8 c =
    if ltb c 0x80
    then c ∷ []
    else if ltb c 0x800
    then (0xc0 + c / 64) ∷ (0x80 + c % 64) ∷ []
    else if ltb c 0x10000
    then (0xe0 + c / 4096) ∷ (0x80 + c / 64 % 64) ∷ (0x80 + c % 64) ∷ []
    else (0xf0 + c / 262144) ∷ (0x80 + c / 4096 % 64) ∷ (0x80 + c / 64 % 64) ∷ (0x80 + c % 64) ∷ []

-- `s.as_bytes()`
unfoldable pub bytes : String → List ℕ
unfolding utf8
bytes String.[] = []
bytes (String.◌∷◌ c s) = utf8 (code c) ++ bytes s

-- `hash ^= byte; hash = hash.wrapping_mul(prime)` for each byte.
unfoldable pub fnv_from : ℕ → List ℕ → ℕ
fnv_from hash [] = hash
fnv_from hash (b ∷ bs) = fnv_from (bit_xor hash b * 0x100000001b3 % 2 ^ 64) bs

unfoldable pub fnv : String → ℕ
fnv s = fnv_from 0xcbf29ce484222325 (bytes s)

abbrev pub hex_digits : List String
hex_digits =
    "0" ∷ "1" ∷ "2" ∷ "3" ∷ "4" ∷ "5" ∷ "6" ∷ "7" ∷ "8" ∷ "9" ∷ "a" ∷ "b" ∷ "c" ∷ "d" ∷ "e" ∷ "f"
    ∷ []

unfoldable pub hex_digit : ℕ → String
hex_digit n = get_or hex_digits n "f"

-- The digits of a number above the k lowest ones, without leading zeros.
unfoldable pub hex_from : ℕ → ℕ → String
hex_from zero n = ""
hex_from (suc k) n =
    let above = hex_from k (n / 16) in if n == 0 then "" else above <> hex_digit (n % 16)

-- `{:x}` of a u64, which has 16 digits at most.
unfoldable pub hex : ℕ → String
hex n = if n == 0 then "0" else hex_from 16 n

unfoldable pub json_each_alias : String → String
json_each_alias array_expr = "je_" <> hex (fnv array_expr)

unfoldable pub json_tree_alias : String → String → String
json_tree_alias base_expr path = "jt_" <> hex (fnv (base_expr <> ":" <> path))
