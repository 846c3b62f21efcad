-- ===== src/Sql/Spans.antt =====
-- Fragments of SQL text by their effect on the scan, and how fragments compose.
use Prim.Native.Char.{code}
use mathlib.Core.Path.{subst}
use text.Mathlib.TextLemmas.{nil-append, cons-append}
use kokoadb.Prelude.{
  ℕ, zero, suc, ◌+◌, String, ◌≡◌, refl, ap, ◌∙◌, true, Option, none, some, List, [], ◌∷◌, ◌++◌,
  ◌||◌, ◌==◌, arith, Option-cases, inl, inr, and-true,
}
use kokoadb.Text.{◌<>◌, join, all_chars, is_word_char}
use kokoadb.Sql.{Scan, outside, quoted, step, scan}

-- k more than n, by k constructors.
abbrev pub up : ℕ → ℕ → ℕ
up zero n = n
up (suc k) n = suc (up k n)

up-eq : (k n : ℕ) → up k n ≡ n + k
up-eq zero n = omega arith
up-eq (suc k) n = omega (arith, up-eq k n)

up-up : (j k n : ℕ) → up j (up k n) ≡ up (k + j) n
up-up j k n = omega (arith, up-eq j (up k n), up-eq k n, up-eq (k + j) n)

abbrev pub then_scan : String → Option Scan → Option Scan
then_scan t none = none
then_scan t (some st) = scan t st

pub scan-append : (s t : String) (st : Scan) → scan (s <> t) st ≡ then_scan t (scan s st)
unfolding scan
scan-append String.[] t st = rw nil-append
scan-append (String.◌∷◌ c s) t st = elim (Option-cases (step (code c) st)) [
  | inl e ↦ rw (cons-append, e, scan)
  | inr (st', e) ↦ rw (cons-append, e, scan) (scan-append s t st')
]

-- The fragment closes i and opens o parentheses, ends outside a literal, and holds n placeholders.
pub record Spans (s : String) (i o n : ℕ) : Type 0 where
  pub at : (d h : ℕ) → scan s (outside (up i d) h) ≡ some (outside (up o d) (up n h))

-- The claim about a closed text is decided by running the scan: `by_scan λ d h. refl`.
pub by_scan :
    {s : String} {i o n : ℕ}
    → ((d h : ℕ) → scan s (outside (up i d) h) ≡ some (outside (up o d) (up n h)))
    → Spans s i o n
by_scan run = record { at = run }

-- A fragment with balanced parentheses.
abbrev pub Flat : String → ℕ → Type 0
Flat s n = Spans s 0 0 n

module _ {s t : String} {i m o : ℕ} (n k : ℕ) where
  pub Spans-append : Spans s i m n → Spans t m o k → Spans (s <> t) i o (n + k)
  Spans-append a b = record {
    at = λ d h.
        rw (scan-append, a.at d h)
          (b.at d (up n h) ∙ ap (λ x. some (outside (up o d) x)) (up-up k n h));
  }

pub Spans-cast : {s : String} {i o : ℕ} {n : ℕ} (k : ℕ) → Spans s i o n → n ≡ k → Spans s i o k
Spans-cast {s} {i} {o} k a e = subst (λ x. Spans s i o x) e a

-- A fragment may stand k levels deeper.
pub Spans-lift : {s : String} {n : ℕ} (k : ℕ) → Flat s n → Spans s k k n
Spans-lift k a = record { at = λ d h. a.at (up k d) h }

pub Flat-append : {s t : String} (n k : ℕ) → Flat s n → Flat t k → Flat (s <> t) (n + k)
Flat-append n k a b = Spans-append n k a b

-- A flat fragment between one that opens k parentheses and one that closes them.
pub Flat-wrap :
    {pre s post : String} (k a n b : ℕ)
    → Spans pre 0 k a
    → Flat s n
    → Spans post k 0 b
    → Flat (pre <> s <> post) (a + (n + b))
Flat-wrap k a n b p f q = Spans-append a (n + b) p (Spans-append n b (Spans-lift k f) q)

-- The parts of a list are flat, with n placeholders in all.
pub data FlatAll : List String → ℕ → Type 0 where
  none_left : FlatAll [] 0
  one_more :
      {p : String} {ps : List String} {n k : ℕ} → Flat p n → FlatAll ps k → FlatAll (p ∷ ps) (n + k)

Flat-empty : Flat "" 0
unfolding scan
Flat-empty = record { at = λ d h. refl }

pub Flat-join :
    {sep : String} {ps : List String} {n : ℕ} → Flat sep 0 → FlatAll ps n → Flat (join sep ps) n
unfolding join
Flat-join f none_left = Flat-empty
Flat-join f (one_more {n = n} a none_left) = Spans-cast (n + 0) a (omega arith)
Flat-join f (one_more {n = n} a (one_more {n = m} {k = k} b r)) =
    let rest = Flat-append 0 (m + k) f (Flat-join f (one_more b r)) in
    Flat-append n (m + k) a (Spans-cast (m + k) rest (omega arith))

pub FlatAll-cast : {ps : List String} (n k : ℕ) → n ≡ k → FlatAll ps n → FlatAll ps k
FlatAll-cast {ps} n k e a = subst (FlatAll ps) e a

pub FlatAll-concat :
    {ps : List String} {p : String} {n k : ℕ}
    → FlatAll ps n
    → Flat p k
    → FlatAll (ps ++ p ∷ []) (n + k)
FlatAll-concat {k} none_left b = FlatAll-cast (k + 0) (0 + k) (omega arith) (one_more b none_left)
FlatAll-concat {k} (one_more {n = n} {k = m} a r) b =
    FlatAll-cast (n + (m + k)) (n + m + k) (omega arith) (one_more a (FlatAll-concat r b))

-- A literal between quotes: `path` stays inside it, and `pre` and `post` enter and leave it.
pub Spans-quote :
    (pre path post : String) {i o : ℕ}
    → ((d h : ℕ) → scan pre (outside (up i d) h) ≡ some (quoted (up i d) h))
    → ((d h : ℕ) → scan path (quoted d h) ≡ some (quoted d h))
    → ((d h : ℕ) → scan post (quoted (up i d) h) ≡ some (outside (up o d) h))
    → Spans (pre <> path <> post) i o 0
Spans-quote pre path post {i} enter stay leave = record {
  at = λ d h. rw (scan-append, enter d h, scan-append, stay (up i d) h) (leave d h);
}

word_step : (c d h : ℕ) → is_word_char c ≡ true → step c (outside d h) ≡ some (outside d h)
unfolding step is_word_char
word_step c d h a = ground arith

word-scan :
    (s : String) (d h : ℕ)
    → all_chars is_word_char s ≡ true
    → scan s (outside d h) ≡ some (outside d h)
unfolding scan all_chars
word-scan String.[] d h a = refl
word-scan (String.◌∷◌ c s) d h a =
    let (here, later) = and-true (is_word_char (code c)) (all_chars is_word_char s) a in
    rw (word_step (code c) d h here, scan) (word-scan s d h later)

-- Word characters are text outside of literals, and path characters inside.
pub Flat-word : (s : String) → all_chars is_word_char s ≡ true → Flat s 0
Flat-word s a = record { at = λ d h. word-scan s d h a }

pub scan-path :
    (s : String) (d h : ℕ)
    → all_chars (λ c. c == b'.' || is_word_char c) s ≡ true
    → scan s (quoted d h) ≡ some (quoted d h)
unfolding scan all_chars is_word_char
scan-path String.[] d h a = refl
scan-path (String.◌∷◌ c s) d h a = ground (arith, scan-path s d h)
