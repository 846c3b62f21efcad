-- ===== src/Text.antt =====
-- The functions on `str` that the program calls: split, join, suffixes, counting, character tests.
pub mod Laws
pub mod Order
use Prim.Native.Char.{Char, code}
use Prim.Native.String
use kokoadb.Prelude.{
  ℕ, zero, suc, ◌+◌, String, Bool, true, false, ◌&&◌, ◌||◌, List, [], ◌∷◌, Option, none, some, leb,
  ◌==◌, str_eq, if◌then◌else◌,
}

infixr 66 ◌<>◌
abbrev pub ◌<>◌ : String → String → String
s <> t = String.◌++◌ s t

abbrev pub prepend : Char → List String → List String
prepend c [] = String.◌∷◌ c "" ∷ []
prepend c (p ∷ ps) = String.◌∷◌ c p ∷ ps

-- `s.split(sep)` for one character: never empty, `"".split(..)` is one empty part.
unfoldable pub split : ℕ → String → List String
split sep String.[] = "" ∷ []
split sep (String.◌∷◌ c s) =
    let rest = split sep s in if code c == sep then "" ∷ rest else prepend c rest

-- `parts.join(sep)`
unfoldable pub join : String → List String → String
join sep [] = ""
join sep (p ∷ []) = p
join sep (p ∷ q ∷ ps) = p <> sep <> join sep (q ∷ ps)

abbrev cons_some : Char → Option String → Option String
cons_some c none = none
cons_some c (some s) = some (String.◌∷◌ c s)

-- `s.strip_suffix(suffix)`
unfoldable pub strip_suffix : String → String → Option String
strip_suffix suffix String.[] = if str_eq "" suffix then some "" else none
strip_suffix suffix (String.◌∷◌ c s) =
    let rest = strip_suffix suffix s in
    if str_eq (String.◌∷◌ c s) suffix then some "" else cons_some c rest

-- `s.chars().all(p)` on code points.
unfoldable pub all_chars : (ℕ → Bool) → String → Bool
all_chars p String.[] = true
all_chars p (String.◌∷◌ c s) = p (code c) && all_chars p s

-- How often a character stands in a text.
unfoldable pub count_char : ℕ → String → ℕ
count_char k String.[] = 0
count_char k (String.◌∷◌ c s) = (if code c == k then 1 else 0) + count_char k s

-- `s.contains(c)` for a character.
unfoldable pub contains_char : ℕ → String → Bool
contains_char k String.[] = false
contains_char k (String.◌∷◌ c s) = code c == k || contains_char k s

-- `s.starts_with(c)` for a character.
abbrev pub starts_with_char : ℕ → String → Bool
starts_with_char k String.[] = false
starts_with_char k (String.◌∷◌ c s) = code c == k

-- `s.matches("ab").count()` for two different characters, whose matches cannot overlap.
unfoldable pub count_pair : ℕ → ℕ → String → ℕ
count_pair a b String.[] = 0
count_pair a b (String.◌∷◌ c s) =
    (if code c == a && starts_with_char b s then 1 else 0) + count_pair a b s

abbrev pub is_empty : String → Bool
is_empty s = str_eq s ""

-- `c.is_ascii_alphanumeric() || c == '_'`
unfoldable pub is_word_char : ℕ → Bool
is_word_char c =
    (leb b'a' c && leb c b'z')
    || (leb b'A' c && leb c b'Z')
    || (leb b'0' c && leb c b'9')
    || c == b'_'

-- `char::is_whitespace`: the code points with the property White_Space of Unicode.
unfoldable pub is_whitespace : ℕ → Bool
is_whitespace c =
    (leb 9 c && leb c 13)
    || c == 32
    || c == 133
    || c == 160
    || c == 5760
    || (leb 8192 c && leb c 8202)
    || (leb 8232 c && leb c 8233)
    || c == 8239
    || c == 8287
    || c == 12288

unfoldable pub trim_start : String → String
trim_start String.[] = ""
trim_start (String.◌∷◌ c s) =
    let rest = trim_start s in if is_whitespace (code c) then rest else String.◌∷◌ c s

unfoldable pub trim_end : String → String
trim_end String.[] = ""
trim_end (String.◌∷◌ c s) =
    let rest = trim_end s in
    if is_empty rest && is_whitespace (code c) then "" else String.◌∷◌ c rest

-- `s.trim()`
unfoldable pub trim : String → String
trim s = trim_end (trim_start s)

-- `set.contains(s)` on the texts that were inserted.
unfoldable pub contains_text : String → List String → Bool
contains_text s [] = false
contains_text s (x ∷ xs) = str_eq x s || contains_text s xs

-- At the end of a word: at a blank, or at the end of the text.
abbrev starts_with_whitespace : String → Bool
starts_with_whitespace String.[] = true
starts_with_whitespace (String.◌∷◌ c s) = is_whitespace (code c)

-- `s.split_whitespace()`: the parts between blanks that are not empty.
unfoldable pub split_whitespace : String → List String
split_whitespace String.[] = []
split_whitespace (String.◌∷◌ c s) =
    let rest = split_whitespace s in
    if is_whitespace (code c)
    then rest
    else if starts_with_whitespace s
    then String.◌∷◌ c "" ∷ rest
    else prepend c rest

-- `u8::to_ascii_lowercase`, on code points.
abbrev lower : ℕ → ℕ
lower c = if leb b'A' c && leb c b'Z' then c + 32 else c

-- `s.to_ascii_lowercase() == t`
unfoldable pub lowercase_is : String → String → Bool
lowercase_is String.[] String.[] = true
lowercase_is String.[] (String.◌∷◌ d t) = false
lowercase_is (String.◌∷◌ c s) String.[] = false
lowercase_is (String.◌∷◌ c s) (String.◌∷◌ d t) = lower (code c) == code d && lowercase_is s t

-- `s.starts_with(p)`, `s.ends_with(p)` and `s.contains(p)` for a text.
unfoldable pub starts_with : String → String → Bool
starts_with String.[] s = true
starts_with (String.◌∷◌ c p) String.[] = false
starts_with (String.◌∷◌ c p) (String.◌∷◌ d s) = code c == code d && starts_with p s

unfoldable pub ends_with : String → String → Bool
ends_with p String.[] = is_empty p
ends_with p (String.◌∷◌ c s) = str_eq p (String.◌∷◌ c s) || ends_with p s

unfoldable pub contains_part : String → String → Bool
contains_part p String.[] = is_empty p
contains_part p (String.◌∷◌ c s) = starts_with p (String.◌∷◌ c s) || contains_part p s
