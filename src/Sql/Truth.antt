-- ===== src/Sql/Truth.antt =====
-- SQL's three truth values, for a column of texts that may be NULL: a comparison with NULL is neither true
-- nor false, and a row is kept on true alone.
use kokoadb.Prelude.{
  String, Bool, true, false, ◌≡◌, refl, List, [], ◌∷◌, Option, none, some, str_eq, if◌then◌else◌,
}
use kokoadb.Json.{SqlValue, text}

pub data Truth : Type 0 where
  yes no unknown : Truth

-- `column = v` for a bound v. The conditions bind texts only, so other values are left unknown.
abbrev pub equal : Option String → SqlValue → Truth
equal none v = unknown
equal (some u) (text s) = if str_eq s u then yes else no
equal (some u) _ = unknown

abbrev pub negate : Truth → Truth
negate yes = no
negate no = yes
negate unknown = unknown

abbrev pub either : Truth → Truth → Truth
either yes b = yes
either no b = b
either unknown yes = yes
either unknown _ = unknown

unfoldable pub one_of : Option String → List SqlValue → Truth
one_of user [] = no
one_of user (b ∷ bs) = either (equal user b) (one_of user bs)

abbrev pub is_null : Option String → Truth
is_null none = yes
is_null (some u) = no

abbrev pub kept : Truth → Bool
kept yes = true
kept no = false
kept unknown = false

pub kept-unknown : (t : Truth) → kept (either unknown t) ≡ kept t
kept-unknown yes = refl
kept-unknown no = refl
kept-unknown unknown = refl
