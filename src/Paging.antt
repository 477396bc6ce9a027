-- ===== src/Paging.antt =====
-- internal/mcp/types.go, the pagination helpers: `NormalizePagination`, `CalculatePagination` and
-- `PaginateSlice`. A Go `int` is an integer here, and what the source computes wraps to 64 bits.
pub mod Bounds
pub mod Pages
mod Tests
use kubectl_mcp.Prelude.{
  ℕ, suc, ◌+◌, ◌-◌, ◌/◌, ◌%◌, ◌^◌, Bool, true, false, Option, none, some, List, ltb, leb, take,
  drop, length, ◌&&◌, if◌then◌else◌,
}
use kubectl_mcp.Prelude.Int.{
  ℤ, pos, negsuc, pos_part, neg_part, sub_ℕ, ◌+ℤ◌, ◌-ℤ◌, ◌*ℤ◌, ltb_ℤ, leb_ℤ,
}

pub record PaginationRequest : Type 0 where
  pub page : ℤ
  pub page_size : ℤ

pub record PaginationInfo : Type 0 where
  pub page : ℤ
  pub page_size : ℤ
  pub total_count : ℤ
  pub total_pages : ℤ
  pub has_more : Bool

abbrev pub default_page_size : ℤ
default_page_size = pos 50

abbrev pub max_page_size : ℤ
max_page_size = pos 500

-- the `int64` that a bit pattern stands for
abbrev pub signed64 : ℕ → ℤ
signed64 n = if ltb n (2 ^ 63) then pos n else negsuc (2 ^ 64 - n - 1)

-- an integer as an `int64`
unfoldable pub wrap64 : ℤ → ℤ
wrap64 (pos n) = signed64 (n % 2 ^ 64)
wrap64 (negsuc n) = signed64 (2 ^ 64 - 1 - n % 2 ^ 64)

normalize_page : ℤ → ℤ
normalize_page page = if ltb_ℤ page (pos 1) then pos 1 else page

normalize_page_size : ℤ → ℤ
normalize_page_size page_size =
    if ltb_ℤ page_size (pos 1)
    then default_page_size
    else if ltb_ℤ max_page_size page_size
    then max_page_size
    else page_size

unfoldable pub normalize_pagination : Option PaginationRequest → PaginationRequest
unfolding normalize_page normalize_page_size
normalize_pagination none = record { page = pos 1; page_size = default_page_size }
normalize_pagination (some req) = record {
  page = normalize_page req.page;
  page_size = normalize_page_size req.page_size;
}

-- Go's `/`, which truncates towards zero; the panic on a divisor of zero is at the caller
truncated : ℤ → ℤ → ℤ
truncated (pos a) (pos b) = pos (a / b)
truncated (pos a) (negsuc b) = sub_ℕ 0 (a / suc b)
truncated (negsuc a) (pos b) = sub_ℕ 0 (suc a / b)
truncated (negsuc a) (negsuc b) = pos (suc a / suc b)

is_zero : ℤ → Bool
is_zero (pos n) = leb n 0
is_zero (negsuc n) = false

-- `none` is the run-time panic of a division by zero
unfoldable pub calculate_pagination : ℤ → ℤ → ℤ → Option PaginationInfo
unfolding truncated is_zero
calculate_pagination page page_size total_count =
    let quotient = truncated (wrap64 (wrap64 (total_count +ℤ page_size) -ℤ pos 1)) page_size in
    let total_pages = if ltb_ℤ quotient (pos 1) then pos 1 else quotient in
    if is_zero page_size
    then none
    else some (record {
      page = page;
      page_size = page_size;
      total_count = total_count;
      total_pages = total_pages;
      has_more = ltb_ℤ page total_pages;
    })

unfoldable pub paginate_slice : ℤ → ℤ → ℤ → ℤ × ℤ
paginate_slice total_len page page_size =
    let offset = wrap64 (wrap64 (page -ℤ pos 1) *ℤ page_size) in
    let start = if leb_ℤ total_len offset then total_len else offset in
    let stop = wrap64 (start +ℤ page_size) in
    let end' = if ltb_ℤ total_len stop then total_len else stop in (start, end')

-- `items[start:end]`, and `none` for the run-time panic on bounds out of range
unfoldable pub slice {ℓ} : {A : Type ℓ} → ℤ × ℤ → List A → Option (List A)
slice (pos start, pos stop) items =
    if leb start stop && leb stop (length items)
    then some (take (stop - start) (drop start items))
    else none
slice (_, _) items = none
