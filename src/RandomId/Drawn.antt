-- ===== src/RandomId/Drawn.antt =====
-- src/service/dispatcher/tx_mutation.rs: the characters of a random identifier are those of its alphabet.
use Prim.Native.Char.{code}
use kokoadb.Prelude.{
  ℕ, zero, suc, ◌%◌, String, Bool, true, ◌≡◌, refl, ◌==◌, leb, ltb, List, [], ◌∷◌, some, arith,
  Bool-cases, inl, inr, ==_iff,
}
use kokoadb.Text.{◌<>◌, all_chars, contains_char}
use kokoadb.Text.Laws.{all_chars-append}
use kokoadb.RandomId.{ascii_len, pick, unbiased_limit, add_bytes, fill, random_id_chars}

all_chars-within :
    (p : ℕ → Bool) (s : String)
    → ((k : ℕ) → contains_char k s ≡ true → p k ≡ true)
    → all_chars p s ≡ true
unfolding all_chars contains_char
all_chars-within p String.[] h = refl
all_chars-within p (String.◌∷◌ c s) h = ground (
  arith,
  h (code c) (ground (arith, (==_iff (code c) (code c)).1 refl)),
  all_chars-within p s (λ k i. h k (ground (arith, i))),
)

all_chars-pick :
    (p : ℕ → Bool) (s : String) (i : ℕ) → all_chars p s ≡ true → all_chars p (pick s i) ≡ true
unfolding all_chars pick
all_chars-pick p String.[] i h = refl
all_chars-pick p (String.◌∷◌ c s) zero h = ground (arith, h)
all_chars-pick p (String.◌∷◌ c s) (suc i) h = all_chars-pick p s i (ground (arith, h))

module _ (alphabet : String) (len : ℕ) (p : ℕ → Bool) (of_it : all_chars p alphabet ≡ true) where
  all_chars-add_bytes :
      (bytes : List ℕ) (output : String)
      → all_chars p output ≡ true
      → all_chars p (add_bytes alphabet len bytes output) ≡ true
  unfolding add_bytes
  all_chars-add_bytes [] output h = h
  all_chars-add_bytes (byte ∷ rest) output h =
      let next = output <> pick alphabet (byte % ascii_len alphabet) in
      let of_next : all_chars p next ≡ true = ground (
        arith,
        h,
        all_chars-append p output (pick alphabet (byte % ascii_len alphabet)),
        all_chars-pick p alphabet (byte % ascii_len alphabet) of_it,
      ) in
      elim (Bool-cases (leb (unbiased_limit (ascii_len alphabet)) byte)) [
        | inl s ↦ rw s (all_chars-add_bytes rest output h)
        | inr s ↦ elim (Bool-cases (ascii_len next == len)) [
          | inl e ↦ rw (s, e) of_next
          | inr e ↦ rw (s, e) (all_chars-add_bytes rest next of_next)
        ]
      ]

  all_chars-fill :
      (digest : ℕ → List ℕ) (fuel turn : ℕ) (output id : String)
      → all_chars p output ≡ true
      → fill fuel alphabet len digest turn output ≡ some id
      → all_chars p id ≡ true
  unfolding fill
  all_chars-fill digest zero turn output id h e = elim (Bool-cases (ltb (ascii_len output) len)) [
    | inl l ↦ cc (rw l at e)
    | inr l ↦ cc (h, rw l at e)
  ]
  all_chars-fill digest (suc fuel) turn output id h e =
      elim (Bool-cases (ltb (ascii_len output) len)) [
        | inl l ↦
            all_chars-fill digest fuel (suc turn) (add_bytes alphabet len (digest turn) output) id
              (all_chars-add_bytes (digest turn) output h) (rw l at e)
        | inr l ↦ cc (h, rw l at e)
      ]

-- Every character is one of the alphabet.
pub random_id_chars-drawn :
    (fuel : ℕ) (digest : ℕ → List ℕ) (len : ℕ) (alphabet id : String)
    → random_id_chars fuel digest len alphabet ≡ some id
    → all_chars (λ k. contains_char k alphabet) id ≡ true
unfolding random_id_chars all_chars
random_id_chars-drawn fuel digest len alphabet id e =
    all_chars-fill alphabet len (λ k. contains_char k alphabet)
      (all_chars-within (λ k. contains_char k alphabet) alphabet (λ k h. h)) digest fuel 0 "" id
      refl e
