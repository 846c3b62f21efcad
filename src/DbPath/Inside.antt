-- ===== src/DbPath/Inside.antt =====
-- src/storage/db_path.rs: where the resolved file lies.
use Prim.Native.Char.{Char, code}
use text.Mathlib.TextLemmas.{nil-append, cons-append}
use kokoadb.Prelude.{
  ℕ, zero, suc, ◌+◌, ◌≤◌, ◌<◌, String, Bool, true, false, ◌&&◌, ◌≡◌, refl, ap, ◌∙◌, List, [], ◌∷◌,
  Option, none, some, arith, Bool-cases, inl, inr, str_eq, eq_iff, ◌==◌, if◌then◌else◌,
}
use kokoadb.Error.{Ensures, holds, failed, Ensures-bind}
use kokoadb.Text.{
  ◌<>◌, split, join, prepend, trim, is_empty, all_chars, starts_with_char, count_pair, count_char,
  is_word_char,
}
use kokoadb.Text.Laws.{count_char-append}
use kokoadb.DbPath.{
  is_path_char, check_segments, is_unsafe, normalize_db_path, pushed, PathBuf, resolve_db_file,
}

up : (ℕ → Option ℕ) → ℕ → Option ℕ
up walk_on zero = none
up walk_on (suc d) = walk_on d

-- How far below a directory the walk along the components ends, by the rules of a file system: `.`
-- stays, `..` goes up, and a name goes down. There is none if the walk leaves the directory.
unfoldable pub walk : List String → ℕ → Option ℕ
unfolding up
walk [] depth = some depth
walk (c ∷ cs) depth =
    let walk_on = walk cs in
    if str_eq c "."
    then walk_on depth
    else if str_eq c ".."
    then up walk_on depth
    else walk_on (suc depth)

pairs : String → ℕ
pairs s = count_pair b'.' b'.' s

total_pairs : List String → ℕ
unfolding pairs
total_pairs [] = 0
total_pairs (p ∷ ps) = pairs p + total_pairs ps

starts_first : List String → Bool
starts_first [] = false
starts_first (p ∷ ps) = starts_with_char b'.' p

first-prepend :
    (c : Char) (ps : List String) → starts_first (prepend c ps) ≡ true → (code c == b'.') ≡ true
unfolding starts_first
first-prepend c [] h = h
first-prepend c (p ∷ ps) h = h

first-split : (s : String) → starts_first (split b'/' s) ≡ true → starts_with_char b'.' s ≡ true
unfolding split starts_first
first-split String.[] h = h
first-split (String.◌∷◌ c s) h = ground (arith, first-prepend c (split b'/' s))

pairs-prepend :
    (c : Char) (ps : List String)
    → total_pairs (prepend c ps)
      ≡ (if code c == b'.' && starts_first ps then 1 else 0) + total_pairs ps
unfolding total_pairs pairs count_pair starts_first
pairs-prepend c [] = ground arith
pairs-prepend c (p ∷ ps) = omega arith

pairs-split : (s : String) → total_pairs (split b'/' s) ≤ pairs s
unfolding total_pairs pairs split count_pair
pairs-split String.[] = omega arith
pairs-split (String.◌∷◌ c s) =
    ground (arith, pairs-split s, pairs-prepend c (split b'/' s), first-split s)

Safe : String → Type 0
unfolding pairs
Safe c = (is_empty c ≡ false) × (all_chars is_path_char c ≡ true) × (pairs c ≡ 0)

AllSafe : List String → Type 0
unfolding Safe
AllSafe [] = Unit {0}
AllSafe (c ∷ cs) = Safe c × AllSafe cs

split-segment : (s : String) → all_chars is_path_char s ≡ true → split b'/' s ≡ s ∷ []
unfolding split all_chars is_path_char is_word_char
split-segment String.[] h = refl
split-segment (String.◌∷◌ c s) h = ground (arith, split-segment s)

split-before :
    (s t : String) → all_chars is_path_char s ≡ true → split b'/' (s <> "/" <> t) ≡ s ∷ split b'/' t
unfolding split all_chars is_path_char is_word_char
split-before String.[] t h = rw (nil-append, cons-append, nil-append) refl
split-before (String.◌∷◌ c s) t h = rw (cons-append) (ground (arith, split-before s t))

split-join :
    (c : String) (cs : List String) → AllSafe (c ∷ cs) → split b'/' (join "/" (c ∷ cs)) ≡ c ∷ cs
unfolding join AllSafe Safe
split-join c [] ((n, a, q), h) = split-segment c a
split-join c (d ∷ ds) ((n, a, q), h) =
    split-before c (join "/" (d ∷ ds)) a ∙ ap (λ x. c ∷ x) (split-join d ds h)

check_segments-AllSafe :
    (segs : List String)
    → total_pairs segs ≡ 0
    → Ensures (λ (out : List String). AllSafe out × (out ≡ segs)) (check_segments segs)
unfolding check_segments AllSafe Safe total_pairs
check_segments-AllSafe [] h = holds (tt, refl)
check_segments-AllSafe (seg ∷ rest) h = elim (Bool-cases (is_empty seg)) [
  | inl e ↦ rw e failed
  | inr e ↦ elim (Bool-cases (all_chars is_path_char seg)) [
    | inl a ↦
        rw (e, a)
          (Ensures-bind _ (check_segments-AllSafe rest (omega arith))
            λ out p. holds (((e, a, omega arith), p.0), ap (λ x. seg ∷ x) p.1))
    | inr a ↦ rw (e, a) failed
  ]
]

-- With the extension, a part is neither `.` nor `..`.
extension-name :
    (part : String) (name : String) → count_char b'd' name ≡ 0 → str_eq (part <> ".db") name ≡ false
unfolding count_char
extension-name part name h = elim (Bool-cases (str_eq (part <> ".db") name)) [
  | inl q ↦ absurd (
      omega (
        arith,
        ap (count_char b'd') ((eq_iff (part <> ".db") name).0 q),
        count_char-append b'd' part ".db",
        h,
      ))
  | inr q ↦ q
]

Safe-not_parent : (c : String) → Safe c → str_eq c ".." ≡ false
unfolding Safe pairs count_pair
Safe-not_parent c (n, a, q) = elim (Bool-cases (str_eq c "..")) [
  | inl e ↦ absurd (omega (arith, ap (count_pair b'.' b'.') ((eq_iff c "..").0 e), q))
  | inr e ↦ e
]

-- Walks that go down from every depth.
Descends : List String → Type 0
Descends cs = (depth : ℕ) → (k : ℕ) × (walk cs depth ≡ some k) × (depth < k)

walk-pushed : (c : String) (cs : List String) → AllSafe (c ∷ cs) → Descends (pushed (c ∷ cs))
unfolding AllSafe pushed walk Descends count_char
walk-pushed c [] (p, h) = λ depth.
    (suc depth, rw (extension-name c "." refl, extension-name c ".." refl) refl, omega arith)
walk-pushed c (d ∷ ds) (p, h) = λ depth.
    let below = walk-pushed d ds h in
    elim (Bool-cases (str_eq c ".")) [
      | inl e ↦ rw e (below depth)
      | inr e ↦ let (k, w, q) = below (suc depth) in (k, rw (e, Safe-not_parent c p) w, omega arith)
    ]

joined-Descends : (out : List String) → AllSafe out → Descends (pushed (split b'/' (join "/" out)))
unfolding Descends pushed walk split join
joined-Descends [] h = λ depth. (suc depth, refl, omega arith)
joined-Descends (c ∷ cs) h = rw (split-join c cs h) (walk-pushed c cs h)

safe-pairs : (s : String) → is_unsafe s ≡ false → pairs s ≡ 0
unfolding is_unsafe pairs
safe-pairs s h = ground arith

Below : String → Type 0
Below n = Descends (pushed (split b'/' n))

normalize-Below : (db_path : String) → Ensures Below (normalize_db_path db_path)
unfolding normalize_db_path Below
normalize-Below db_path = elim (Bool-cases (is_empty (trim db_path))) [
  | inl e ↦ rw e failed
  | inr e ↦ elim (Bool-cases (is_unsafe (trim db_path))) [
    | inl u ↦ rw (e, u) failed
    | inr u ↦
        let none_left = safe-pairs (trim db_path) u in
        rw (e, u)
          (Ensures-bind _
            (check_segments-AllSafe (split b'/' (trim db_path))
              (omega (arith, pairs-split (trim db_path), none_left)))
            λ out p. holds (joined-Descends out p.0))
  ]
]

-- Whatever the base directory and the name, `resolve_db_file` ends in an error or in a file that lies
-- below the base directory: the components pushed to it never lead out of it on the way, and end at
-- least one level down.
pub resolve_db_file-inside :
    (base_path db_path : String)
    → Ensures
        (λ (r : String × PathBuf).
          (r.1.directory ≡ base_path) × ((k : ℕ) × (walk r.1.components 0 ≡ some k) × (0 < k)))
        (resolve_db_file base_path db_path)
unfolding resolve_db_file Below Descends
resolve_db_file-inside base_path db_path =
    Ensures-bind _ (normalize-Below db_path) λ n p. holds (refl, p 0)
