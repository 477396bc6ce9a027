-- ===== src/Paging/Tests.antt =====
-- Pagination at small inputs, and the theorems at inputs that meet their hypotheses.
use kubectl_mcp.Prelude.{ℕ, ◌+◌, ◌-◌, true, none, some, List, [], ◌∷◌, ◌≡◌, refl, arith}
use kubectl_mcp.Prelude.Int.{pos, negsuc}
use kubectl_mcp.Paging.{
  PaginationRequest, PaginationInfo, wrap64, normalize_pagination, calculate_pagination,
  paginate_slice, slice,
}
use kubectl_mcp.Paging.Pages.{read_pages, read_pages-calculate, paginate_slice-overflow}

too_large :
    normalize_pagination (some (record { page = negsuc 0; page_size = pos 900 }))
    ≡ record { page = pos 1; page_size = pos 500 }
unfolding normalize_pagination
too_large = refl

abbrev second_page : PaginationRequest
second_page = record { page = pos 2; page_size = pos 2 }

abbrev five : List ℕ
five = 1 ∷ 2 ∷ 3 ∷ 4 ∷ 5 ∷ []

-- five items, two to a page
abbrev five_info : PaginationInfo
five_info = record {
  page = pos 1;
  page_size = pos 2;
  total_count = pos 5;
  total_pages = pos 3;
  has_more = true;
}

five_counted : calculate_pagination (pos 1) (pos 2) (pos 5) ≡ some five_info
unfolding calculate_pagination wrap64
five_counted = refl

third_page : slice (paginate_slice (pos 5) (pos 3) (pos 2)) five ≡ some (5 ∷ [])
unfolding slice paginate_slice wrap64
third_page = refl

-- a size of zero is a division by zero
zero_size : calculate_pagination (pos 1) (pos 0) (pos 5) ≡ none
unfolding calculate_pagination wrap64
zero_size = refl

read_pages-calculate_example : read_pages 3 0 2 five ≡ some five
read_pages-calculate_example =
    read_pages-calculate 1 3 five five_info five_counted refl (omega arith) (omega arith)

-- the page number is 2^62 + 1, which passes every check of a request
paginate_slice-overflow_example :
    ((paginate_slice (pos 5) (pos (4611686018427387904 + 1)) (pos 2)).0
      ≡ negsuc (18446744073709551616 - 9223372036854775808 - 1))
    × (slice (paginate_slice (pos 5) (pos (4611686018427387904 + 1)) (pos 2)) five ≡ none)
paginate_slice-overflow_example =
    paginate_slice-overflow five 4611686018427387904 2 (omega arith) (omega arith) (omega arith)
