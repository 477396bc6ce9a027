-- ===== src/Paging/Bounds.antt =====
-- What normalisation promises, and the two pagination functions at whole numbers that fit 64 bits.
use kubectl_mcp.Prelude.{
  ℕ, suc, ◌+◌, ◌-◌, ◌*◌, ◌/◌, ◌^◌, ◌≤◌, ◌<◌, Option, none, some, ◌≡◌, arith, ltb, if◌then◌else◌,
}
use Prim.Native.Nat.{min, max}
use kubectl_mcp.Prelude.Int.{pos, negsuc, ◌≤ℤ◌, ltb_ℤ, leb_ℤ, ◌+ℤ◌, ◌-ℤ◌, ◌*ℤ◌}
use kubectl_mcp.Paging.{
  PaginationRequest, max_page_size, wrap64, normalize_pagination, calculate_pagination,
  paginate_slice,
}

-- A normalised request names a page from 1 on, of between 1 and 500 items.
pub normalize_pagination_bounds :
    (req : Option PaginationRequest)
    → (pos 1 ≤ℤ (normalize_pagination req).page)
      × (pos 1 ≤ℤ (normalize_pagination req).page_size)
      × ((normalize_pagination req).page_size ≤ℤ max_page_size)
unfolding normalize_pagination
normalize_pagination_bounds none = (omega arith, omega arith, omega arith)
normalize_pagination_bounds (some req) = (ground arith, ground arith, ground arith)

-- A request in range is left as it is.
pub normalize_pagination_valid :
    (req : PaginationRequest)
    → pos 1 ≤ℤ req.page
    → pos 1 ≤ℤ req.page_size
    → req.page_size ≤ℤ max_page_size
    → normalize_pagination (some req) ≡ req
unfolding normalize_pagination
normalize_pagination_valid req a b c = ground arith

pub wrap64_small : (n : ℕ) → n < 2 ^ 63 → wrap64 (pos n) ≡ pos n
unfolding wrap64
wrap64_small n h = ground arith

pub wrap64_large : (n : ℕ) → 2 ^ 63 ≤ n → n < 2 ^ 64 → wrap64 (pos n) ≡ negsuc (2 ^ 64 - n - 1)
unfolding wrap64
wrap64_large n a b = ground arith

pub minus_one : (p : ℕ) → pos (p + 1) -ℤ pos 1 ≡ pos p
minus_one p = ground arith

pub times : (p s : ℕ) → pos p *ℤ pos s ≡ pos (p * s)
times p s = ground arith

plus : (p s : ℕ) → pos p +ℤ pos s ≡ pos (p + s)
plus p s = ground arith

clamp_pos : (n a : ℕ) → (if leb_ℤ (pos n) (pos a) then pos n else pos a) ≡ pos (min a n)
clamp_pos n a = ground arith

clamp_pos_strict : (n a : ℕ) → (if ltb_ℤ (pos n) (pos a) then pos n else pos a) ≡ pos (min a n)
clamp_pos_strict n a = ground arith

last_item : (n s : ℕ) → pos (n + suc s) -ℤ pos 1 ≡ pos (n + s)
last_item n s = ground arith

stop_min : (a s n : ℕ) → min (min a n + s) n ≡ min (a + s) n
stop_min a s n = omega arith

-- the bounds of the page after the p-th, of s items, in a slice of n
pub paginate_slice_lem :
    (n p s : ℕ)
    → p * s < 2 ^ 63
    → p < 2 ^ 63
    → n + s < 2 ^ 63
    → paginate_slice (pos n) (pos (p + 1)) (pos s) ≡ (pos (min (p * s) n), pos (min (p * s + s) n))
unfolding paginate_slice
paginate_slice_lem n p s hps hp hns = rw (
  minus_one p,
  wrap64_small p hp,
  times p s,
  wrap64_small (p * s) hps,
  clamp_pos n (p * s),
  plus (min (p * s) n) s,
  wrap64_small (min (p * s) n + s) (omega arith),
  clamp_pos_strict n (min (p * s) n + s),
  stop_min (p * s) s n,
)

at_least_one : (q : ℕ) → (if ltb_ℤ (pos q) (pos 1) then pos 1 else pos q) ≡ pos (max 1 q)
at_least_one q = ground arith

-- the page count of n items at s + 1 to a page
pub calculate_pagination_lem :
    (n p s : ℕ)
    → n + suc s < 2 ^ 63
    → calculate_pagination (pos p) (pos (suc s)) (pos n)
      ≡ some (record {
        page = pos p;
        page_size = pos (suc s);
        total_count = pos n;
        total_pages = pos (max 1 ((n + s) / suc s));
        has_more = ltb p (max 1 ((n + s) / suc s));
      })
unfolding calculate_pagination
calculate_pagination_lem n p s h =
    rw
      (
        plus n (suc s),
        wrap64_small (n + suc s) h,
        last_item n s,
        wrap64_small (n + s) (omega arith),
        at_least_one ((n + s) / suc s),
      )
      (ground arith)
