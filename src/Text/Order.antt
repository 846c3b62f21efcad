-- ===== src/Text/Order.antt =====
-- The order of texts by `compare`.
use Prim.Native.String.compare
use Prim.Native.String.{compare}
use text.Mathlib.Text.{is_le}
use kokoadb.Prelude.{String, true, false, ◌≡◌, refl, arith}

pub text_le_total : (s t : String) → is_le (compare s t) ≡ false → is_le (compare t s) ≡ true
text_le_total String.[] String.[] h = refl
text_le_total String.[] (String.◌∷◌ d t) h = cc (rw compare.nil-cons at h)
text_le_total (String.◌∷◌ c s) String.[] h = rw compare.nil-cons refl
text_le_total (String.◌∷◌ c s) (String.◌∷◌ d t) h =
    let k = rw compare.cons-cons at h in rw compare.cons-cons (ground (arith, k, text_le_total s t))

pub text_le_trans :
    (s t u : String)
    → is_le (compare s t) ≡ true
    → is_le (compare t u) ≡ true
    → is_le (compare s u) ≡ true
text_le_trans String.[] t String.[] h k = refl
text_le_trans String.[] t (String.◌∷◌ e u) h k = rw compare.nil-cons refl
text_le_trans (String.◌∷◌ c s) String.[] u h k = cc (rw compare.cons-nil at h)
text_le_trans (String.◌∷◌ c s) (String.◌∷◌ d t) String.[] h k = cc (rw compare.cons-nil at k)
text_le_trans (String.◌∷◌ c s) (String.◌∷◌ d t) (String.◌∷◌ e u) h k =
    let a = rw compare.cons-cons at h in
    let b = rw compare.cons-cons at k in
    rw compare.cons-cons (ground (arith, a, b, text_le_trans s t u))
