-- ===== src/Page/Laws.antt =====
-- src/service/dispatcher/runtime_support.rs: a page by number and by offset.
use Prim.Native.Nat.{min, max}
use native.Mathlib.Nat.{mul-div_cancel}
use kokoadb.Prelude.{ℕ, suc, ◌+◌, ◌-◌, ◌*◌, ◌/◌, ◌<◌, ◌≡◌, refl, ap, ◌∙◌, none, some, arith}
use kokoadb.Error.{ok}
use kokoadb.Json.{nonneg, number, pos_int}
use kokoadb.Page.{
  i64_end, wrap, PageArgs, size_or, offset_or_zero, by_page, resolve_sizes, resolve_pagination_args,
  build_offsets,
}

abbrev pub page_args : ℕ → ℕ → PageArgs
page_args size page = record {
  limit = none;
  offset = none;
  per_page = some (nonneg size);
  page = some (nonneg page);
}

abbrev pub offset_args : ℕ → ℕ → PageArgs
offset_args limit offset = record {
  limit = some (nonneg limit);
  offset = some (nonneg offset);
  per_page = none;
  page = none;
}

saturated-fits : (n : ℕ) → n < i64_end → min n (i64_end - 1) ≡ n
saturated-fits n h = omega arith

wrap-fits : (n : ℕ) → n < i64_end → wrap n ≡ nonneg n
wrap-fits n h = ground arith

wrap-page :
    (size before : ℕ)
    → 0 < size
    → suc before < i64_end
    → wrap (before * size / size + 1) ≡ nonneg (suc before)
wrap-page size before h k =
    rw (mul-div_cancel before h) (wrap-fits (before + 1) (omega arith) ∙ ap nonneg (omega arith))

-- If the numbers fit in an i64, the page after `before` others, asked for by its number or by the offset of
-- its first item, is resolved to the same size, offset and number, whatever the default; and if it is full
-- and more items follow it, the next offset that `build_offsets` gives is that of the page after it.
pub pages-by_offset :
    (default_limit size before total : ℕ)
    → 0 < size
    → size < i64_end
    → suc before < i64_end
    → before * size + size < i64_end
    → before * size + size < total
    → (resolve_pagination_args (page_args size (suc before)) default_limit
        ≡ ok (size, before * size, nonneg (suc before)))
      × (resolve_pagination_args (offset_args size (before * size)) default_limit
          ≡ ok (size, before * size, nonneg (suc before)))
      × ((build_offsets total size size (before * size)).0
          ≡ number (pos_int (before * size + size)))
unfolding resolve_pagination_args resolve_sizes size_or offset_or_zero by_page build_offsets
pages-by_offset default_limit size before total h s k f more = (
  rw (at_least_one, saturated-fits (before * size) (omega arith)) refl,
  rw (at_least_one, at_least_zero, wrap-page size before h k) refl,
  rw (saturated-fits size s, saturated-fits (before * size + size) f) (ground arith),
)
  where
    at_least_one : max size 1 ≡ size
    at_least_one = omega arith

    at_least_zero : max (before * size) 0 ≡ before * size
    at_least_zero = omega arith
