-- ===== src/RandomId/Unbiased.antt =====
-- src/service/dispatcher/tx_mutation.rs: how many bytes lead to a character of a random identifier.
use Prim.Native.Char.{code}
use text.Mathlib.TextLemmas.{nil-append, append-nil}
use kokoadb.Prelude.{
  ℕ, zero, suc, ◌+◌, ◌/◌, ◌%◌, ◌<◌, String, Bool, true, false, not, ◌&&◌, ◌≡◌, refl, sym, ◌∙◌, ap,
  [], ◌∷◌, ◌==◌, leb, ltb, arith, if◌then◌else◌, Bool-cases, inl, inr, ==_iff,
}
use kokoadb.Error.{ok, Ensures, holds, failed, Ensures-if, Ensures-ok}
use kokoadb.Text.{◌<>◌, trim, lowercase_is, contains_char}
use kokoadb.RandomId.{ascii_len, pick, unbiased_limit, add_bytes, random_id_alphabet}

-- How many of the bytes below n are taken and lead to this index.
unfoldable leading_to : ℕ → ℕ → ℕ → ℕ
leading_to alphabet_len index zero = 0
leading_to alphabet_len index (suc byte) =
    (if ltb byte (unbiased_limit alphabet_len) && (byte % alphabet_len) == index then 1 else 0)
    + leading_to alphabet_len index byte

-- Every index below n has as many.
unfoldable all_equal : ℕ → ℕ → Bool
all_equal alphabet_len zero = true
all_equal alphabet_len (suc index) =
    leading_to alphabet_len index 256 == 256 / alphabet_len && all_equal alphabet_len index

all_equal-at :
    (alphabet_len n index : ℕ)
    → all_equal alphabet_len n ≡ true
    → index < n
    → leading_to alphabet_len index 256 ≡ 256 / alphabet_len
unfolding all_equal
all_equal-at alphabet_len zero index a h = ground arith
all_equal-at alphabet_len (suc n) index a h = elim (Bool-cases (index == n)) [
  | inl e ↦ ground (arith, a, e)
  | inr e ↦ all_equal-at alphabet_len n index (ground (arith, a)) (ground (arith, e, h))
]

-- No character stands twice in a text.
unfoldable distinct : String → Bool
distinct String.[] = true
distinct (String.◌∷◌ c s) = not (contains_char (code c) s) && distinct s

record Even (alphabet : String) : Type 0 where
  evenly : all_equal (ascii_len alphabet) (ascii_len alphabet) ≡ true
  once : distinct alphabet ≡ true

alphabet-Even : (name : String) → Ensures Even (random_id_alphabet name)
unfolding random_id_alphabet ascii_len all_equal leading_to distinct contains_char
alphabet-Even name =
    Ensures-if (lowercase_is (trim name) "hex") (holds (record { evenly = refl; once = refl })) (
      Ensures-if (lowercase_is (trim name) "numeric")
        (holds (record { evenly = refl; once = refl }))
        (Ensures-if (lowercase_is (trim name) "base32")
          (holds (record { evenly = refl; once = refl }))
          (Ensures-if (lowercase_is (trim name) "base62")
            (holds (record { evenly = refl; once = refl })) failed)))

pick-missing :
    (k : ℕ) (s : String) (j : ℕ) → contains_char k s ≡ false → contains_char k (pick s j) ≡ false
unfolding pick contains_char
pick-missing k String.[] j h = refl
pick-missing k (String.◌∷◌ c s) zero h = ground (arith, h)
pick-missing k (String.◌∷◌ c s) (suc j) h = pick-missing k s j (ground (arith, h))

-- The one place of a character in a text in which none stands twice.
record Place (k : ℕ) (s : String) : Type 0 where
  index : ℕ
  inside : index < ascii_len s
  only : (j : ℕ) → contains_char k (pick s j) ≡ (j == index)

distinct-Place : (k : ℕ) (s : String) → distinct s ≡ true → contains_char k s ≡ true → Place k s
unfolding pick contains_char distinct ascii_len
distinct-Place k String.[] d h = cc
distinct-Place k (String.◌∷◌ c s) d h = elim (Bool-cases (code c == k)) [
  | inl q ↦
      let same = (==_iff (code c) k).0 q in
      record { index = 0; inside = omega arith; only = at_front same }
  | inr q ↦
      let next = distinct-Place k s (ground (arith, d)) (ground (arith, q, h)) in
      record { index = suc next.index; inside = omega (arith, next.inside); only = behind q next }
]
  where
    at_front : code c ≡ k → (j : ℕ) → contains_char k (pick (String.◌∷◌ c s) j) ≡ (j == 0)
    at_front e zero = ground (arith, (==_iff (code c) k).1 e)
    at_front e (suc j) = pick-missing k s j (rw (← e) (ground (arith, d))) ∙ ground arith

    behind :
        (code c == k) ≡ false
        → (next : Place k s) → (j : ℕ)
        → contains_char k (pick (String.◌∷◌ c s) j) ≡ (j == suc next.index)
    behind q next zero = ground (arith, q)
    behind q next (suc j) = next.only j ∙ ground arith

-- One byte of a digest adds a character or none, to any text.
one_byte :
    (alphabet : String) (len byte : ℕ) (output : String)
    → add_bytes alphabet len (byte ∷ []) output
      ≡ output
        <> (if leb (unbiased_limit (ascii_len alphabet)) byte
            then ""
            else pick alphabet (byte % ascii_len alphabet))
unfolding add_bytes
one_byte alphabet len byte output =
    elim (Bool-cases (leb (unbiased_limit (ascii_len alphabet)) byte)) [
      | inl s ↦ rw s (sym (append-nil output))
      | inr s ↦ rw s (ground arith)
    ]

-- How many of the bytes below n make the loop add this character.
unfoldable pub bytes_adding : String → ℕ → ℕ → ℕ
bytes_adding alphabet k zero = 0
bytes_adding alphabet k (suc byte) =
    (if contains_char k (add_bytes alphabet 1 (byte ∷ []) "") then 1 else 0)
    + bytes_adding alphabet k byte

nothing : (k : ℕ) → contains_char k "" ≡ false
unfolding contains_char
nothing k = refl

adding-leading :
    (alphabet : String) (k : ℕ) (place : Place k alphabet) (n : ℕ)
    → bytes_adding alphabet k n ≡ leading_to (ascii_len alphabet) place.index n
unfolding bytes_adding leading_to
adding-leading alphabet k place zero = refl
adding-leading alphabet k place (suc byte) =
    elim (Bool-cases (leb (unbiased_limit (ascii_len alphabet)) byte)) [
      | inl s ↦
          rw (one_byte alphabet 1 byte "", nil-append, s)
            (ground (arith, s, adding-leading alphabet k place byte, nothing k))
      | inr s ↦
          rw (one_byte alphabet 1 byte "", nil-append, s, place.only)
            (ground (arith, s, adding-leading alphabet k place byte))
    ]

-- For each alphabet that can be named: each of its characters is added by the same number of the 256
-- bytes, that of the bytes divided by that of its characters. What a byte adds depends neither on the
-- text before it nor on the length asked for.
pub add_bytes-unbiased :
    (name alphabet : String) (k : ℕ)
    → random_id_alphabet name ≡ ok alphabet
    → contains_char k alphabet ≡ true
    → (bytes_adding alphabet k 256 ≡ 256 / ascii_len alphabet)
      × ((len byte : ℕ) (output : String)
          → add_bytes alphabet len (byte ∷ []) output
            ≡ output <> add_bytes alphabet 1 (byte ∷ []) "")
add_bytes-unbiased name alphabet k e h =
    let even = Ensures-ok (alphabet-Even name) e in
    let place = distinct-Place k alphabet even.once h in
    (
      adding-leading alphabet k place 256
          ∙ all_equal-at (ascii_len alphabet) (ascii_len alphabet) place.index even.evenly
              place.inside,
      λ len byte output.
          one_byte alphabet len byte output
          ∙ ap (λ t. output <> t) (sym (one_byte alphabet 1 byte "" ∙ nil-append _)),
    )
