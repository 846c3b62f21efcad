-- ===== src/Page/Tests.antt =====
-- Pages and offsets, and an instance of the theorem.
use kokoadb.Prelude.{◌≡◌, refl, arith, none, some}
use kokoadb.Error.{ok}
use kokoadb.Json.{nonneg, minus, number, pos_int, neg_int}
use kokoadb.Page.{
  resolve_pagination_args, default_size, resolve_sizes, size_or, offset_or_zero, by_page,
  build_offsets, previous,
}
use kokoadb.Page.Laws.{page_args, offset_args, pages-by_offset}

pages : Unit {0}
unfolding resolve_pagination_args default_size resolve_sizes size_or offset_or_zero by_page
    build_offsets previous
pages = tt

default_page :
    resolve_pagination_args
      (record { limit = none; offset = none; per_page = none; page = none })
      50
    ≡ ok (50, 0, nonneg 1)
unfolding pages
default_page = refl

negative_offset :
    resolve_pagination_args
      (record { limit = some (nonneg 0); offset = some (minus 4); per_page = none; page = none })
      50
    ≡ ok (1, 0, nonneg 1)
unfolding pages
negative_offset = refl

-- The offset before a short first stretch is negative.
previous_is_negative : build_offsets 20 10 10 5 ≡ (number (pos_int 15), number (neg_int 4))
unfolding pages
previous_is_negative = refl

pages-by_offset_example :
    (resolve_pagination_args (page_args 10 3) 50 ≡ ok (10, 20, nonneg 3))
    × (resolve_pagination_args (offset_args 10 20) 50 ≡ ok (10, 20, nonneg 3))
    × ((build_offsets 45 10 10 20).0 ≡ number (pos_int 30))
pages-by_offset_example =
    pages-by_offset 50 10 2 45 (omega arith) (omega arith) (omega arith) (omega arith) (omega arith)
