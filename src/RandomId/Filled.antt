-- ===== src/RandomId/Filled.antt =====
-- src/service/dispatcher/tx_mutation.rs: the length of a random identifier, and when the loop ends.
use text.Mathlib.TextLemmas.{nil-append, cons-append}
use kokoadb.Prelude.{
  ℕ, zero, suc, ◌+◌, ◌%◌, ◌≤◌, ◌<◌, String, Bool, true, ◌≡◌, refl, ◌==◌, leb, ltb, List, [], ◌∷◌,
  some, arith, Bool-cases, inl, inr, any, ltb→lt, ==_iff,
}
use kokoadb.Text.{◌<>◌}
use kokoadb.RandomId.{ascii_len, pick, unbiased_limit, add_bytes, fill, random_id_chars}

len-append : (s t : String) → ascii_len (s <> t) ≡ ascii_len s + ascii_len t
unfolding ascii_len
len-append String.[] t = rw nil-append (omega arith)
len-append (String.◌∷◌ c s) t = rw cons-append (omega (arith, len-append s t))

len-pick : (s : String) (i : ℕ) → i < ascii_len s → ascii_len (pick s i) ≡ 1
unfolding ascii_len pick
len-pick String.[] i h = ground arith
len-pick (String.◌∷◌ c s) zero h = refl
len-pick (String.◌∷◌ c s) (suc i) h = len-pick s i (omega arith)

mod-below : (b n : ℕ) → 0 < n → b % n < n
mod-below b n h = omega arith

module _ (alphabet : String) (len : ℕ) (given : 0 < ascii_len alphabet) where
  len-next :
      (output : String) (byte : ℕ)
      → ascii_len (output <> pick alphabet (byte % ascii_len alphabet)) ≡ ascii_len output + 1
  len-next output byte = omega (
    arith,
    len-append output (pick alphabet (byte % ascii_len alphabet)),
    len-pick alphabet (byte % ascii_len alphabet) (mod-below byte (ascii_len alphabet) given),
  )

  add_bytes-bound :
      (bytes : List ℕ) (output : String)
      → ascii_len output < len
      → (ascii_len output ≤ ascii_len (add_bytes alphabet len bytes output))
        × (ascii_len (add_bytes alphabet len bytes output) ≤ len)
  unfolding add_bytes
  add_bytes-bound [] output h = (omega arith, omega arith)
  add_bytes-bound (byte ∷ rest) output h =
      elim (Bool-cases (leb (unbiased_limit (ascii_len alphabet)) byte)) [
        | inl s ↦ rw s (add_bytes-bound rest output h)
        | inr s ↦
            let next = output <> pick alphabet (byte % ascii_len alphabet) in
            elim (Bool-cases (ascii_len next == len)) [
              | inl e ↦
                  rw (s, e)
                    (
                      omega (arith, len-next output byte),
                      ground (arith, e, ==_iff (ascii_len next) len),
                    )
              | inr e ↦
                  let below : ascii_len next < len =
                    ground (arith, e, h, len-next output byte, ==_iff (ascii_len next) len) in
                  let (low, high) = add_bytes-bound rest next below in
                  rw (s, e) (omega (arith, len-next output byte, low), high)
            ]
      ]

  -- Whether some byte is taken.
  unfoldable pub is_useful : List ℕ → Bool
  is_useful bytes = any (λ byte. ltb byte (unbiased_limit (ascii_len alphabet))) bytes

  add_bytes-grows :
      (bytes : List ℕ) (output : String)
      → ascii_len output < len
      → is_useful bytes ≡ true
      → ascii_len output < ascii_len (add_bytes alphabet len bytes output)
  unfolding add_bytes is_useful
  add_bytes-grows [] output h u = cc
  add_bytes-grows (byte ∷ rest) output h u =
      elim (Bool-cases (leb (unbiased_limit (ascii_len alphabet)) byte)) [
        | inl s ↦ rw s (add_bytes-grows rest output h (ground (arith, s, u)))
        | inr s ↦
            let next = output <> pick alphabet (byte % ascii_len alphabet) in
            elim (Bool-cases (ascii_len next == len)) [
              | inl e ↦ rw (s, e) (omega (arith, len-next output byte))
              | inr e ↦
                  let below : ascii_len next < len =
                    ground (arith, e, h, len-next output byte, ==_iff (ascii_len next) len) in
                  let (low, high) = add_bytes-bound rest next below in
                  rw (s, e) (omega (arith, len-next output byte, low))
            ]
      ]

  fill-ends :
      (digest : ℕ → List ℕ) (useful : (turn : ℕ) → is_useful (digest turn) ≡ true) (fuel turn : ℕ)
      (output : String)
      → ascii_len output ≤ len
      → len ≤ fuel + ascii_len output
      → (id : String) × (fill fuel alphabet len digest turn output ≡ some id) × (ascii_len id ≡ len)
  unfolding fill
  fill-ends digest useful zero turn output h f = (output, ground (arith, h, f), omega arith)
  fill-ends digest useful (suc fuel) turn output h f =
      elim (Bool-cases (ltb (ascii_len output) len)) [
        | inl l ↦
            let below = ltb→lt (ascii_len output) len l in
            let (low, high) = add_bytes-bound (digest turn) output below in
            let grown = add_bytes-grows (digest turn) output below (useful turn) in
            rw l (
              fill-ends digest useful fuel (suc turn) (add_bytes alphabet len (digest turn) output)
                high (omega (arith, grown)))
        | inr l ↦ (output, rw l refl, ground (arith, l, h))
      ]

  -- If the alphabet has a character and each digest has a byte that is taken, as many turns as
  -- characters are asked for are enough, and the identifier has exactly that many characters.
  pub random_id_chars-ends :
      (digest : ℕ → List ℕ)
      → ((turn : ℕ) → is_useful (digest turn) ≡ true)
      → (id : String) × (random_id_chars len digest len alphabet ≡ some id) × (ascii_len id ≡ len)
  unfolding random_id_chars ascii_len
  random_id_chars-ends digest useful = fill-ends digest useful len 0 "" (omega arith) (omega arith)
