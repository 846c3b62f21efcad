-- ===== src/RandomId/Named.antt =====
-- src/service/dispatcher/tx_mutation.rs: the identifiers that `@randomid` stands for.
use kokoadb.Prelude.{
  ℕ, ◌≤◌, ◌<◌, String, Bool, true, false, ◌||◌, ◌&&◌, ◌≡◌, refl, List, [], ◌∷◌, Option, none, some,
  arith, leb, ltb, ◌==◌, any, str_eq, Bool-cases, inl, inr, ==_iff,
}
use kokoadb.Error.{AppResult, ok, Ensures, Ensures-ok, holds, failed, Ensures-bind, Ensures-if}
use kokoadb.Json.{Value, bool, string, object, Fields, end, field, as_str}
use kokoadb.Text.{
  ◌<>◌, trim, trim_start, trim_end, is_whitespace, lowercase_is, all_chars, contains_char,
}
use kokoadb.RandomId.{
  ascii_len, unbiased_limit, random_id_alphabet, Settings, as_u64, or_bad, checked_len,
  apply_option, apply_options, with_settings, default_settings, by_options, resolve_kdb_rand_id,
}
use kokoadb.RandomId.Filled.{is_useful, random_id_chars-ends}
use kokoadb.RandomId.Drawn.{random_id_chars-drawn}
use kokoadb.RandomId.Chosen.{AreChosen, nothing-AreChosen, options-AreChosen}

-- An alphabet that takes at least the bytes below 248.
unfoldable pub is_wide : String → Bool
is_wide alphabet = ltb 0 (ascii_len alphabet) && leb 248 (unbiased_limit (ascii_len alphabet))

unfoldable pub Wide : String → Type 0
Wide alphabet = is_wide alphabet ≡ true

alphabet-Wide : (name : String) → Ensures Wide (random_id_alphabet name)
unfolding random_id_alphabet Wide is_wide ascii_len
alphabet-Wide name = Ensures-if (lowercase_is (trim name) "hex") (holds refl) (
    Ensures-if (lowercase_is (trim name) "numeric") (holds refl) (
      Ensures-if (lowercase_is (trim name) "base32") (holds refl)
        (Ensures-if (lowercase_is (trim name) "base62") (holds refl) failed)))

record IsSound (s : Settings) : Type 0 where
  at_least : 0 < s.len
  at_most : s.len ≤ 128
  wide : Wide s.alphabet

unfoldable pub AnyOf : {A : Type 0} → A → Type 0
AnyOf a = Unit {0}

or_bad-Ensures : {A : Type 0} (message : String) (o : Option A) → Ensures AnyOf (or_bad message o)
unfolding AnyOf
or_bad-Ensures message none = failed
or_bad-Ensures message (some a) = holds tt

unfoldable pub IsLen : ℕ → Type 0
IsLen l = (0 < l) × (l ≤ 128)

checked_len-IsLen : (l : ℕ) → Ensures IsLen (checked_len l)
unfolding checked_len IsLen
checked_len-IsLen l = elim (Bool-cases (l == 0 || ltb 128 l)) [
  | inl b ↦ rw b failed
  | inr b ↦ rw b (holds (ground (arith, b, ==_iff l 0), ground (arith, b, ==_iff l 0)))
]

option-IsSound :
    (key : String) (v : Value) (s : Settings) → IsSound s → Ensures IsSound (apply_option key v s)
unfolding apply_option IsLen
option-IsSound key v s sound =
    Ensures-if (str_eq key "prefix")
      (Ensures-bind _ (or_bad-Ensures _ (as_str v)) λ p _.
        holds (record { at_least = sound.at_least; at_most = sound.at_most; wide = sound.wide }))
      (Ensures-if (str_eq key "suffix")
        (Ensures-bind _ (or_bad-Ensures _ (as_str v)) λ p _.
          holds (record { at_least = sound.at_least; at_most = sound.at_most; wide = sound.wide }))
        (Ensures-if (str_eq key "len")
          (Ensures-bind _ (Ensures-bind _ (or_bad-Ensures _ (as_u64 v)) λ l _. checked_len-IsLen l)
            λ l b. holds (record { at_least = b.0; at_most = b.1; wide = sound.wide }))
          (Ensures-if (str_eq key "alphabet")
            (Ensures-bind _ (Ensures-bind _ (or_bad-Ensures _ (as_str v)) λ a _. alphabet-Wide a)
              λ a w.
                holds (record { at_least = sound.at_least; at_most = sound.at_most; wide = w }))
            failed)))

options-IsSound :
    (options : Fields) (s : Settings) → IsSound s → Ensures IsSound (apply_options options s)
unfolding apply_options
options-IsSound end s sound = holds sound
options-IsSound (field key v rest) s sound =
    Ensures-bind _ (option-IsSound key v s sound) λ t more. options-IsSound rest t more

-- The options that are given: none for `true`.
abbrev pub options_of : Value → Fields
options_of (object options) = options
options_of _ = end

-- The settings of an argument: a prefix and a suffix of no characters, 12 characters, and the digits of
-- hexadecimal numbers, where no option says otherwise.
abbrev start : Settings
start = default_settings "0123456789abcdef"

-- The text is made of the prefix, an identifier and the suffix, as the options say.
pub record IsComposed (arg v : Value) : Type 0 where
  settings : Settings
  id : String
  chosen : AreChosen (options_of arg) start settings
  text : v ≡ string (settings.prefix <> id <> settings.suffix)
  long : ascii_len id ≡ settings.len
  at_least : 0 < ascii_len id
  at_most : ascii_len id ≤ 128
  drawn : all_chars (λ k. contains_char k settings.alphabet) id ≡ true

Ensures-both :
    {A : Type 0} {P Q : A → Type 0} {r : AppResult A}
    → Ensures P r
    → Ensures Q r
    → Ensures (λ a. P a × Q a) r
Ensures-both (holds {a = a} p) q = holds (p, Ensures-ok q refl)
Ensures-both failed q = failed

start-IsSound : IsSound start
unfolding Wide is_wide ascii_len
start-IsSound = record { at_least = omega arith; at_most = omega arith; wide = refl }

low-useful :
    (alphabet : String) (bytes : List ℕ)
    → Wide alphabet
    → any (λ byte. ltb byte 248) bytes ≡ true
    → any (λ byte. ltb byte (unbiased_limit (ascii_len alphabet))) bytes ≡ true
unfolding Wide is_wide
low-useful alphabet [] w h = cc
low-useful alphabet (b ∷ bs) w h = elim (Bool-cases (ltb b 248)) [
  | inl y ↦ ground (arith, y, w)
  | inr n ↦ ground (arith, low-useful alphabet bs w (rw n at h))
]

hex_named : random_id_alphabet "hex" ≡ ok "0123456789abcdef"
unfolding random_id_alphabet trim trim_start trim_end is_whitespace lowercase_is
hex_named = refl

-- The bytes of every digest include one below 248.
module _ (digest : ℕ → List ℕ)
    (low : (turn : ℕ) → any (λ byte. ltb byte 248) (digest turn) ≡ true) where
  settings-IsComposed :
      (arg : Value) (s : Settings)
      → IsSound s
      → AreChosen (options_of arg) start s
      → Ensures (IsComposed arg) (with_settings digest s)
  unfolding is_useful Wide is_wide
  settings-IsComposed arg s sound chosen =
      let given : 0 < ascii_len s.alphabet = ground (arith, sound.wide) in
      let (id, e, n) =
        random_id_chars-ends s.alphabet s.len given digest
          (λ turn. low-useful s.alphabet (digest turn) sound.wide (low turn)) in
      rw e (
        holds (record {
          settings = s;
          id = id;
          chosen = chosen;
          text = refl;
          long = n;
          at_least = rw n sound.at_least;
          at_most = rw n sound.at_most;
          drawn = random_id_chars-drawn s.len digest s.len s.alphabet id e;
        }))

  by_options-IsComposed : (arg : Value) → Ensures (IsComposed arg) (by_options digest arg start)
  by_options-IsComposed (bool true) =
      settings-IsComposed (bool true) start start-IsSound (nothing-AreChosen start)
  by_options-IsComposed (bool false) = failed
  by_options-IsComposed (object options) =
      Ensures-bind _
        (Ensures-both (options-IsSound options start start-IsSound)
          (options-AreChosen options start))
        λ s h. settings-IsComposed (object options) s h.0 h.1
  by_options-IsComposed _ = failed

  -- If each digest has a byte below 248, `@randomid` ends, whatever it is given, in an error or in a text:
  -- the prefix, an identifier and the suffix. The prefix and the suffix are the texts of the last options
  -- of these names, or empty if there is none; the identifier has exactly as many characters as the last
  -- `len` says, or 12, and never none or more than 128; and each is a character of the alphabet that the
  -- last `alphabet` names, or of `hex`.
  pub rand_id-IsComposed : (arg : Value) → Ensures (IsComposed arg) (resolve_kdb_rand_id digest arg)
  unfolding resolve_kdb_rand_id
  rand_id-IsComposed arg = rw hex_named (by_options-IsComposed arg)
