-- ===== src/Sql.antt =====
-- How SQLite reads the boolean SQL text that the program writes, as far as the compilers need it: a
-- scan over characters that tracks string literals, parentheses and placeholders, and refuses every
-- character that such text has no use for, such as `;`, `"`, `/` and `\`.
pub mod Spans
pub mod Truth
use Prim.Native.Char.{Char, code}
use Prim.Native.String
use kokoadb.Prelude.{
  ℕ, zero, suc, String, Bool, true, false, ◌||◌, Option, none, some, ◌==◌, if◌then◌else◌,
}
use kokoadb.Text.{is_word_char}

-- Outside or inside a string literal, with the depth of open parentheses and the placeholders met.
pub data Scan : Type 0 where
  outside quoted : ℕ → ℕ → Scan

is_symbol : ℕ → Bool
is_symbol c =
    c == b' '
    || c == b'.'
    || c == b','
    || c == b'='
    || c == b'<'
    || c == b'>'
    || c == b'!'
    || c == b'-'

abbrev close : ℕ → ℕ → Option Scan
close zero h = none
close (suc d) h = some (outside d h)

unfoldable pub step : ℕ → Scan → Option Scan
unfolding is_symbol is_word_char
step c (quoted d h) = some (if c == 39 then outside d h else quoted d h)
step c (outside d h) =
    if c == 39
    then some (quoted d h)
    else if c == b'?'
    then some (outside d (suc h))
    else if c == b'('
    then some (outside (suc d) h)
    else if c == b')'
    then close d h
    else if is_word_char c || is_symbol c
    then some (outside d h)
    else none

unfoldable pub scan : String → Scan → Option Scan
unfolding step
scan String.[] st = some st
scan (String.◌∷◌ c s) st = elim (step (code c) st) [ none ↦ none | some st' ↦ scan s st' ]
