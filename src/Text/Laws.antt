-- ===== src/Text/Laws.antt =====
-- Laws of the text functions: what splitting, joining and stripping do to the characters of a text.
use Prim.Native.Char.{Char, code}
use text.Mathlib.TextLemmas.{nil-append, cons-append}
use kokoadb.Prelude.{
  ℕ, ◌+◌, String, ◌≡◌, refl, ◌≢◌, Bool, true, ◌&&◌, ◌||◌, List, [], ◌∷◌, some, arith, ◌==◌, eq_iff,
  if◌then◌else◌, all, Option-cases, Bool-cases, inl, inr,
}
use kokoadb.Text.{
  ◌<>◌, split, join, strip_suffix, all_chars, count_char, prepend, trim, trim_start, trim_end,
  split_whitespace, is_whitespace, is_empty,
}

pub count_char-append :
    (k : ℕ) (s t : String) → count_char k (s <> t) ≡ count_char k s + count_char k t
unfolding count_char
count_char-append k String.[] t = rw nil-append (omega arith)
count_char-append k (String.◌∷◌ c s) t = rw cons-append (omega (arith, count_char-append k s t))

-- How often a character stands in the parts of a list.
abbrev pub total : ℕ → List String → ℕ
total k [] = 0
total k (p ∷ ps) = count_char k p + total k ps

total-prepend :
    (k c : ℕ) (x : _) (ps : List String)
    → total k (prepend x ps) ≡ (if code x == k then 1 else 0) + total k ps
unfolding count_char
total-prepend k c x [] = omega arith
total-prepend k c x (p ∷ ps) = omega arith

pub total-split : (k sep : ℕ) (s : String) → k ≢ sep → total k (split sep s) ≡ count_char k s
unfolding split count_char
total-split k sep String.[] h = omega arith
total-split k sep (String.◌∷◌ c s) h =
    ground (arith, total-split k sep s h, total-prepend k 0 c (split sep s))

pub count_char-join :
    (k : ℕ) (sep : String) (ps : List String)
    → count_char k sep ≡ 0
    → count_char k (join sep ps) ≡ total k ps
unfolding join
count_char-join k sep [] h = unfold count_char in refl
count_char-join k sep (p ∷ []) h = omega arith
count_char-join k sep (p ∷ q ∷ ps) h = omega (
  arith,
  count_char-append k p (sep <> join sep (q ∷ ps)),
  count_char-append k sep (join sep (q ∷ ps)),
  count_char-join k sep (q ∷ ps) h,
)

pub strip_suffix-append : (suffix s f : String) → strip_suffix suffix s ≡ some f → s ≡ f <> suffix
unfolding strip_suffix
strip_suffix-append suffix String.[] f h = ground (arith, eq_iff "" suffix, nil-append suffix)
strip_suffix-append suffix (String.◌∷◌ c s) f h = elim (Option-cases (strip_suffix suffix s)) [
  | inl e ↦ ground (arith, e, eq_iff (String.◌∷◌ c s) suffix, nil-append suffix)
  | inr (g, e) ↦ ground (
    arith,
    e,
    eq_iff (String.◌∷◌ c s) suffix,
    nil-append suffix,
    cons-append c g suffix,
    strip_suffix-append suffix s g e,
  )
]

all-prepend :
    (p : ℕ → Bool) (c : Char) (ps : List String)
    → all (all_chars p) (prepend c ps) ≡ true
    → (p (code c) ≡ true) × (all (all_chars p) ps ≡ true)
unfolding all_chars
all-prepend p c [] h = ground arith
all-prepend p c (q ∷ ps) h = ground arith

-- What holds of the characters of every part, and of the separator, holds of the text.
pub all_chars-split :
    (p : ℕ → Bool) (sep : ℕ) (s : String)
    → all (all_chars p) (split sep s) ≡ true
    → all_chars (λ c. c == sep || p c) s ≡ true
unfolding split all_chars
all_chars-split p sep String.[] h = refl
all_chars-split p sep (String.◌∷◌ c s) h =
    ground (arith, all-prepend p c (split sep s), all_chars-split p sep s)

pub all_chars-append :
    (p : ℕ → Bool) (s t : String) → all_chars p (s <> t) ≡ (all_chars p s && all_chars p t)
unfolding all_chars
all_chars-append p String.[] t = rw nil-append
all_chars-append p (String.◌∷◌ c s) t = rw cons-append (ground (arith, all_chars-append p s t))

-- What holds of every character of a text holds in the text trimmed and in its parts.
module _ (p : ℕ → Bool) where
  all_chars-trim_start : (s : String) → all_chars p s ≡ true → all_chars p (trim_start s) ≡ true
  unfolding all_chars trim_start
  all_chars-trim_start String.[] h = refl
  all_chars-trim_start (String.◌∷◌ c s) h = ground (arith, all_chars-trim_start s)

  all_chars-trim_end : (s : String) → all_chars p s ≡ true → all_chars p (trim_end s) ≡ true
  unfolding all_chars trim_end
  all_chars-trim_end String.[] h = refl
  all_chars-trim_end (String.◌∷◌ c s) h =
      elim (Bool-cases (is_empty (trim_end s) && is_whitespace (code c))) [
        | inl q ↦ rw q refl
        | inr q ↦ rw q (ground (arith, all_chars-trim_end s))
      ]

  pub all_chars-trim : (s : String) → all_chars p s ≡ true → all_chars p (trim s) ≡ true
  unfolding trim
  all_chars-trim s h = all_chars-trim_end (trim_start s) (all_chars-trim_start s h)

  all-prepend_chars :
      (c : Char) (ps : List String)
      → p (code c) ≡ true
      → all (all_chars p) ps ≡ true
      → all (all_chars p) (prepend c ps) ≡ true
  unfolding all_chars
  all-prepend_chars c [] h k = ground arith
  all-prepend_chars c (q ∷ ps) h k = ground arith

  pub all-split :
      (sep : ℕ) (s : String) → all_chars p s ≡ true → all (all_chars p) (split sep s) ≡ true
  unfolding all_chars split
  all-split sep String.[] h = refl
  all-split sep (String.◌∷◌ c s) h =
      ground (arith, all-split sep s, all-prepend_chars c (split sep s))

  pub all-split_whitespace :
      (s : String) → all_chars p s ≡ true → all (all_chars p) (split_whitespace s) ≡ true
  unfolding all_chars split_whitespace
  all-split_whitespace String.[] h = refl
  all-split_whitespace (String.◌∷◌ c s) h =
      ground (arith, all-split_whitespace s, all-prepend_chars c (split_whitespace s))

-- Splitting gives at least one part.
pub split-parts :
    (sep : ℕ) (s : String) → (p : String) × (ps : List String) × (split sep s ≡ p ∷ ps)
unfolding split
split-parts sep String.[] = ("", [], refl)
split-parts sep (String.◌∷◌ c s) =
    let (p, ps, e) = split-parts sep s in
    elim (Bool-cases (code c == sep)) [
      | inl q ↦ ("", split sep s, rw q refl)
      | inr q ↦ (String.◌∷◌ c p, ps, rw (q, e) refl)
    ]
