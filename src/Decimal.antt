-- ===== src/Decimal.antt =====
-- `u64::to_string`, `{:020}` and `str::parse::<u64>` of the standard library.
use Prim.Native.Char.{code}
use kokoadb.Prelude.{
  ℕ, zero, suc, ◌+◌, ◌-◌, ◌*◌, ◌/◌, ◌%◌, ◌^◌, String, ◌&&◌, List, [], ◌∷◌, Option, none, some, ltb,
  leb, ◌==◌, if◌then◌else◌, get_or,
}
use kokoadb.Text.{◌<>◌}

abbrev pub digits : List String
digits = "0" ∷ "1" ∷ "2" ∷ "3" ∷ "4" ∷ "5" ∷ "6" ∷ "7" ∷ "8" ∷ "9" ∷ []

unfoldable pub digit : ℕ → String
digit n = get_or digits n "0"

-- The digits of a number, with k + 1 of them at most.
unfoldable pub show_from : ℕ → ℕ → String
show_from zero n = digit (n % 10)
show_from (suc k) n =
    let above = show_from k (n / 10) in
    if n / 10 == 0 then digit (n % 10) else above <> digit (n % 10)

-- A u64 has 20 digits at most.
unfoldable pub show : ℕ → String
show n = show_from 19 n

-- Exactly k digits.
unfoldable pub pad : ℕ → ℕ → String
pad zero n = ""
pad (suc k) n = pad k (n / 10) <> digit (n % 10)

-- `none` is a parse error: a character that is no digit, or a value of 2^64 or more.
unfoldable pub parse_from : ℕ → String → Option ℕ
parse_from acc String.[] = some acc
parse_from acc (String.◌∷◌ c s) =
    let next = acc * 10 + (code c - b'0') in
    let rest = parse_from next s in
    if (leb b'0' (code c) && leb (code c) b'9') && ltb next (2 ^ 64) then rest else none

-- The empty text is an error; a leading `+` is allowed.
unfoldable pub parse : String → Option ℕ
parse String.[] = none
parse (String.◌∷◌ c String.[]) = parse_from 0 (String.◌∷◌ c "")
parse (String.◌∷◌ c (String.◌∷◌ d s)) =
    if code c == b'+'
    then parse_from 0 (String.◌∷◌ d s)
    else parse_from 0 (String.◌∷◌ c (String.◌∷◌ d s))
