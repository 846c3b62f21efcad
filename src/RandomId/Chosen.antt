-- ===== src/RandomId/Chosen.antt =====
-- src/service/dispatcher/tx_mutation.rs: what the options of `@randomid` say, and the settings that the loop
-- over them ends with.
use kokoadb.Prelude.{
  ℕ, String, true, false, ◌≡◌, refl, sym, ◌∙◌, ap, ◌⊎◌, inl, inr, Option, none, some, str_eq,
  eq_iff, if◌then◌else◌, Bool-cases,
}
use mathlib.Core.Path.{subst}
use kokoadb.Error.{AppResult, ok, Ensures, holds, failed, Ensures-bind, Ensures-if}
use kokoadb.Json.{Value, number, pos_int, string, Fields, end, field, as_str}
use kokoadb.Text.{trim, lowercase_is}
use kokoadb.RandomId.{
  random_id_alphabet, Settings, as_u64, or_bad, checked_len, apply_option, apply_options,
}

abbrev last_of : Option Value → Option Value → Option Value
last_of none earlier = earlier
last_of (some v) earlier = some v

-- The last value of a name in the options.
abbrev pub option_of : String → Fields → Option Value
option_of name end = none
option_of name (field key v rest) =
    last_of (option_of name rest) (if str_eq key name then some v else none)

-- A setting is what the last option of a name says, or what it was if there is none.
abbrev pub Chosen : {A : Type 0} → (A → Value → Type 0) → String → Fields → A → A → Type 0
Chosen P name o before a =
    ((option_of name o ≡ none) × (a ≡ before)) ⊎ ((v : Value) × (option_of name o ≡ some v) × P a v)

abbrev pub SaysText : String → Value → Type 0
SaysText s v = v ≡ string s

abbrev pub SaysLen : ℕ → Value → Type 0
SaysLen n v = v ≡ number (pos_int n)

abbrev pub SaysAlphabet : String → Value → Type 0
SaysAlphabet a v = (name : String) × (v ≡ string name) × (random_id_alphabet name ≡ ok a)

-- The settings after the options, from those before them.
pub record AreChosen (o : Fields) (s t : Settings) : Type 0 where
  prefix : Chosen SaysText "prefix" o s.prefix t.prefix
  suffix : Chosen SaysText "suffix" o s.suffix t.suffix
  len : Chosen SaysLen "len" o s.len t.len
  alphabet : Chosen SaysAlphabet "alphabet" o s.alphabet t.alphabet

-- One option sets a setting or leaves it.
Step : {A : Type 0} → (A → Value → Type 0) → String → String → Value → A → A → Type 0
Step P name key v before a =
    ((str_eq key name ≡ true) × P a v) ⊎ ((str_eq key name ≡ false) × (a ≡ before))

record AreStepped (key : String) (v : Value) (s t : Settings) : Type 0 where
  prefix : Step SaysText "prefix" key v s.prefix t.prefix
  suffix : Step SaysText "suffix" key v s.suffix t.suffix
  len : Step SaysLen "len" key v s.len t.len
  alphabet : Step SaysAlphabet "alphabet" key v s.alphabet t.alphabet

Is : {A : Type 0} → AppResult A → A → Type 0
Is r a = r ≡ ok a

result-Is : {A : Type 0} {P : A → Type 0} {r : AppResult A} → Ensures P r → Ensures (Is r) r
unfolding Is
result-Is (holds p) = holds refl
result-Is failed = failed

alphabet-ends : (name : String) → Ensures (λ a. Unit {0}) (random_id_alphabet name)
unfolding random_id_alphabet
alphabet-ends name = Ensures-if (lowercase_is (trim name) "hex") (holds tt) (
    Ensures-if (lowercase_is (trim name) "numeric") (holds tt) (
      Ensures-if (lowercase_is (trim name) "base32") (holds tt)
        (Ensures-if (lowercase_is (trim name) "base62") (holds tt) failed)))

text-Says : (message : String) (v : Value) → Ensures (λ p. SaysText p v) (or_bad message (as_str v))
text-Says message (string s) = holds refl
text-Says message _ = failed

number-Says :
    (message : String) (v : Value) → Ensures (λ n. SaysLen n v) (or_bad message (as_u64 v))
number-Says message (number (pos_int n)) = holds refl
number-Says message _ = failed

checked_len-same : (n : ℕ) → Ensures (λ l. l ≡ n) (checked_len n)
unfolding checked_len
checked_len-same n = Ensures-if _ failed (holds refl)

module _ (v : Value) (s : Settings) where
  prefix-AreStepped : Ensures (AreStepped "prefix" v s) (apply_option "prefix" v s)
  unfolding apply_option Step
  prefix-AreStepped = Ensures-bind _ (text-Says _ v) λ p h. holds (record {
    prefix = inl (refl, h);
    suffix = inr (refl, refl);
    len = inr (refl, refl);
    alphabet = inr (refl, refl);
  })

  suffix-AreStepped : Ensures (AreStepped "suffix" v s) (apply_option "suffix" v s)
  unfolding apply_option Step
  suffix-AreStepped = Ensures-bind _ (text-Says _ v) λ p h. holds (record {
    prefix = inr (refl, refl);
    suffix = inl (refl, h);
    len = inr (refl, refl);
    alphabet = inr (refl, refl);
  })

  len-AreStepped : Ensures (AreStepped "len" v s) (apply_option "len" v s)
  unfolding apply_option Step
  len-AreStepped =
      Ensures-bind {P = λ l. SaysLen l v} _
        (Ensures-bind _ (number-Says _ v) λ n h. len_checked n h)
        λ l h. holds (record {
          prefix = inr (refl, refl);
          suffix = inr (refl, refl);
          len = inl (refl, h);
          alphabet = inr (refl, refl);
        })
    where
      len_checked : (n : ℕ) → SaysLen n v → Ensures (λ l. SaysLen l v) (checked_len n)
      len_checked n h = same (checked_len-same n)
        where
          same : {r : AppResult ℕ} → Ensures (λ l. l ≡ n) r → Ensures (λ l. SaysLen l v) r
          same (holds e) = holds (h ∙ ap (λ m. number (pos_int m)) (sym e))
          same failed = failed

  alphabet-AreStepped : Ensures (AreStepped "alphabet" v s) (apply_option "alphabet" v s)
  unfolding apply_option Step Is
  alphabet-AreStepped =
      Ensures-bind {P = λ a. SaysAlphabet a v} _
        (Ensures-bind _ (text-Says _ v) λ name h. named name h (result-Is (alphabet-ends name)))
        λ a h. holds (record {
          prefix = inr (refl, refl);
          suffix = inr (refl, refl);
          len = inr (refl, refl);
          alphabet = inl (refl, h);
        })
    where
      named :
          (name : String)
          → SaysText name v
          → {r : AppResult String} → Ensures (Is (random_id_alphabet name)) r
          → Ensures (λ a. SaysAlphabet a v) r
      named name h (holds e) = holds (name, h, e)
      named name h failed = failed

option-AreStepped :
    (key : String) (v : Value) (s : Settings) → Ensures (AreStepped key v s) (apply_option key v s)
unfolding apply_option
option-AreStepped key v s = elim (Bool-cases (str_eq key "prefix")) [
  | inl q ↦ at (sym ((eq_iff key "prefix").0 q)) (prefix-AreStepped v s)
  | inr q ↦ elim (Bool-cases (str_eq key "suffix")) [
    | inl r ↦ at (sym ((eq_iff key "suffix").0 r)) (suffix-AreStepped v s)
    | inr r ↦ elim (Bool-cases (str_eq key "len")) [
      | inl l ↦ at (sym ((eq_iff key "len").0 l)) (len-AreStepped v s)
      | inr l ↦ elim (Bool-cases (str_eq key "alphabet")) [
        | inl a ↦ at (sym ((eq_iff key "alphabet").0 a)) (alphabet-AreStepped v s)
        | inr a ↦ unknown_key q r l a
      ]
    ]
  ]
]
  where
    at :
        {name : String}
        → name ≡ key
        → Ensures (AreStepped name v s) (apply_option name v s)
        → Ensures (AreStepped key v s) (apply_option key v s)
    at e h = subst (λ k. Ensures (AreStepped k v s) (apply_option k v s)) e h

    unknown_key :
        str_eq key "prefix" ≡ false
        → str_eq key "suffix" ≡ false
        → str_eq key "len" ≡ false
        → str_eq key "alphabet" ≡ false
        → Ensures (AreStepped key v s) (apply_option key v s)
    unknown_key q r l a = rw (apply_option, q, r, l, a) failed

field-Chosen :
    {A : Type 0} (P : A → Value → Type 0) (name key : String) (v : Value) (rest : Fields)
    (a0 a1 a : A)
    → Step P name key v a0 a1
    → Chosen P name rest a1 a
    → Chosen P name (field key v rest) a0 a
unfolding Step
field-Chosen P name key v rest a0 a1 a h (inr (w, e, p)) = inr (w, rw e refl, p)
field-Chosen P name key v rest a0 a1 a (inl (q, p)) (inl (e, same)) =
    inr (v, rw (e, q) refl, subst (λ x. P x v) (sym same) p)
field-Chosen P name key v rest a0 a1 a (inr (q, kept)) (inl (e, same)) =
    inl (rw (e, q) refl, same ∙ kept)

pub nothing-AreChosen : (s : Settings) → AreChosen end s s
nothing-AreChosen s = record {
  prefix = inl (refl, refl);
  suffix = inl (refl, refl);
  len = inl (refl, refl);
  alphabet = inl (refl, refl);
}

-- After the loop over the options each setting is what its last option says.
pub options-AreChosen :
    (options : Fields) (s : Settings) → Ensures (AreChosen options s) (apply_options options s)
unfolding apply_options
options-AreChosen end s = holds (nothing-AreChosen s)
options-AreChosen (field key v rest) s =
    Ensures-bind _ (option-AreStepped key v s) λ t h. after t h (options-AreChosen rest t)
  where
    after :
        (t : Settings)
        → AreStepped key v s t
        → {r : AppResult Settings} → Ensures (AreChosen rest t) r
        → Ensures (AreChosen (field key v rest) s) r
    after t h (holds {a = u} k) = holds (record {
      prefix =
          field-Chosen SaysText "prefix" key v rest s.prefix t.prefix u.prefix h.prefix k.prefix;
      suffix =
          field-Chosen SaysText "suffix" key v rest s.suffix t.suffix u.suffix h.suffix k.suffix;
      len = field-Chosen SaysLen "len" key v rest s.len t.len u.len h.len k.len;
      alphabet =
          field-Chosen SaysAlphabet "alphabet" key v rest s.alphabet t.alphabet u.alphabet
            h.alphabet k.alphabet;
    })
    after t h failed = failed
