-- ===== src/Paging/Pages.antt =====
-- The pages of a list, read one after the other, are the list, and `HasMore` says when to stop.
use Prim.Native.Nat.{min, max}
use mathlib.Core.Path.{subst}
use kubectl_mcp.Prelude.{
  ℕ, zero, suc, ◌+◌, ◌-◌, ◌*◌, ◌/◌, ◌^◌, ◌≤◌, ◌<◌, false, Option, none, some, List, [], ◌∷◌, ◌++◌,
  ◌≡◌, refl, ap, arith, le→leb, length, take, drop, length-drop,
}
use kubectl_mcp.Prelude.Int.{pos, negsuc, ltb_ℤ, leb_ℤ}
use kubectl_mcp.Paging.{PaginationInfo, calculate_pagination, paginate_slice, slice}
use kubectl_mcp.Paging.Bounds.{
  paginate_slice_lem, calculate_pagination_lem, minus_one, times, wrap64_small, wrap64_large,
}

-- a page that is not the last of those that n items need ends before them
pages_more : (n p s : ℕ) → p + 1 < max 1 ((n + s) / suc s) → p * suc s + suc s < n
pages_more n p s h = grind arith

-- the last page that n items need, and any after it, ends at them
pages_last : (n p s : ℕ) → max 1 ((n + s) / suc s) ≤ p → n ≤ p * suc s
pages_last n p s h = grind arith

mul_next : (p s : ℕ) → (p + 1) * s ≡ p * s + s
mul_next p s = grind arith

min-suc : (a n : ℕ) → min (suc a) (suc n) ≡ suc (min a n)
min-suc a n = omega arith

min-zero_right : (n : ℕ) → min n 0 ≡ 0
min-zero_right n = omega arith

min-zero_left : (n : ℕ) → min 0 n ≡ 0
min-zero_left n = omega arith

module _ {ℓ} {A : Type ℓ} where
  -- the items of the page after the p-th
  unfoldable pub page_items : ℕ → ℕ → List A → Option (List A)
  page_items p s items = slice (paginate_slice (pos (length items)) (pos (p + 1)) (pos s)) items

  append_page : Option (List A) → Option (List A) → Option (List A)
  append_page none rest = none
  append_page (some xs) none = none
  append_page (some xs) (some ys) = some (xs ++ ys)

  -- k pages, from the one after the p-th on
  unfoldable pub read_pages : ℕ → ℕ → ℕ → List A → Option (List A)
  unfolding append_page
  read_pages zero p s items = some []
  read_pages (suc k) p s items = append_page (page_items p s items) (read_pages k (suc p) s items)

  drop-min : (a : ℕ) (xs : List A) → drop (min a (length xs)) xs ≡ drop a xs
  drop-min zero [] = refl
  drop-min zero (x ∷ xs) = rw (min-zero_left (suc (length xs)))
  drop-min (suc a) [] = rw (min-zero_right (suc a))
  drop-min (suc a) (x ∷ xs) = rw (min-suc a (length xs)) (drop-min a xs)

  take-min : (a : ℕ) (xs : List A) → take (min a (length xs)) xs ≡ take a xs
  take-min zero [] = refl
  take-min zero (x ∷ xs) = rw (min-zero_left (suc (length xs)))
  take-min (suc a) [] = rw (min-zero_right (suc a))
  take-min (suc a) (x ∷ xs) = rw (min-suc a (length xs)) (ap (◌∷◌ x) (take-min a xs))

  drop_nil : (c : ℕ) → drop {A = A} c [] ≡ []
  drop_nil zero = refl
  drop_nil (suc c) = refl

  take_nil : (b : ℕ) → take {A = A} b [] ≡ []
  take_nil zero = refl
  take_nil (suc b) = refl

  take-append-drop : (a b : ℕ) (xs : List A) → take b (drop a xs) ++ drop (a + b) xs ≡ drop a xs
  take-append-drop zero zero xs = refl
  take-append-drop zero (suc b) [] = drop_nil (0 + suc b)
  take-append-drop zero (suc b) (x ∷ xs) =
      let e : 0 + suc b ≡ suc (0 + b) = omega arith in
      rw e (ap (◌∷◌ x) (take-append-drop zero b xs))
  take-append-drop (suc a) b [] = rw (take_nil b, drop_nil (suc a + b))
  take-append-drop (suc a) b (x ∷ xs) =
      let e : suc a + b ≡ suc (a + b) = omega arith in rw e (take-append-drop a b xs)

  drop_all : (a : ℕ) (xs : List A) → length xs ≤ a → drop a xs ≡ []
  drop_all zero [] h = refl
  drop_all zero (x ∷ xs) h = absurd (omega arith)
  drop_all (suc a) [] h = refl
  drop_all (suc a) (x ∷ xs) h = drop_all a xs (omega arith)

  -- a cut between two clamped bounds
  slice-min :
      (a b : ℕ) (items : List A)
      → slice (pos (min a (length items)), pos (min (a + b) (length items))) items
        ≡ some (take b (drop a items))
  unfolding slice
  slice-min a b items =
      let n = length items in
      let e : min (a + b) n - min a n ≡ min b (length (drop a items)) =
        omega (arith, length-drop a items) in
      rw (
        le→leb (min a n) (min (a + b) n) (omega arith),
        le→leb (min (a + b) n) n (omega arith),
        e,
        drop-min a items,
        take-min b (drop a items),
      )

  page_items_lem :
      (p s : ℕ) (items : List A)
      → p * s < 2 ^ 63
      → p < 2 ^ 63
      → length items + s < 2 ^ 63
      → page_items p s items ≡ some (take s (drop (p * s) items))
  unfolding page_items
  page_items_lem p s items a b c =
      rw (paginate_slice_lem (length items) p s a b c) (slice-min (p * s) s items)

  read_pages_lem :
      (k p s : ℕ) (items : List A)
      → (p + k) * s < 2 ^ 63
      → p + k < 2 ^ 63
      → length items + s < 2 ^ 63
      → length items ≤ (p + k) * s
      → read_pages k p s items ≡ some (drop (p * s) items)
  unfolding read_pages
  read_pages_lem zero p s items a b c d = rw (drop_all (p * s) items (grind arith))
  read_pages_lem (suc k) p s items a b c d =
      let shift : (suc p + k) ≡ (p + suc k) = omega arith in
      let next : suc p * s ≡ p * s + s = omega arith in
      rw (
        page_items_lem p s items (grind arith) (omega arith) c,
        read_pages_lem k (suc p) s items (rw shift a) (rw shift b) c (rw shift d),
        next,
        take-append-drop (p * s) s items,
      )

  -- Reading every page that `CalculatePagination` counts, at any size of page, reads every item
  -- once and in order, as long as the numbers stay below 2^63.
  pub read_pages-calculate :
      (s k : ℕ) (items : List A) (info : PaginationInfo)
      → calculate_pagination (pos 1) (pos (suc s)) (pos (length items)) ≡ some info
      → info.total_pages ≡ pos k
      → k * suc s < 2 ^ 63
      → length items + suc s < 2 ^ 63
      → read_pages k 0 (suc s) items ≡ some items
  read_pages-calculate s k items info h pages fits room =
      let n = length items in
      let counted : k ≡ max 1 ((n + s) / suc s) =
        ground (arith, calculate_pagination_lem n 1 s room) in
      let none_skipped : 0 * suc s ≡ 0 = grind arith in
      subst (λ a. read_pages k 0 (suc s) items ≡ some (drop a items)) none_skipped
        (read_pages_lem k 0 (suc s) items (grind arith) (grind arith) room
          (grind (arith, pages_last n k s)))

-- `HasMore` of a page says exactly whether the page ends before the last item, for every page from
-- the first on, past the end too.
pub has_more-paginate_slice :
    (n p s : ℕ) (info : PaginationInfo)
    → calculate_pagination (pos (p + 1)) (pos (suc s)) (pos n) ≡ some info
    → p * suc s < 2 ^ 63
    → n + suc s < 2 ^ 63
    → info.has_more ≡ ltb_ℤ (paginate_slice (pos n) (pos (p + 1)) (pos (suc s))).1 (pos n)
has_more-paginate_slice n p s info h fits room =
    rw (paginate_slice_lem n p (suc s) fits (grind arith) room) (
      ground (
        arith,
        calculate_pagination_lem n (p + 1) s room,
        pages_more n p s,
        pages_last n (p + 1) s,
        mul_next p (suc s),
      ))

not_clamped : (n k : ℕ) → leb_ℤ (pos n) (negsuc k) ≡ false
not_clamped n k = ground arith

-- Where the offset of a page, p pages of s items, passes 2^63 (but not 2^64), the start that
-- `PaginateSlice` gives is negative, p * s - 2^64, and slicing a list from there is a panic.
pub paginate_slice-overflow {ℓ} :
    {A : Type ℓ} (items : List A) (p s : ℕ)
    → p < 2 ^ 63
    → 2 ^ 63 ≤ p * s
    → p * s < 2 ^ 64
    → ((paginate_slice (pos (length items)) (pos (p + 1)) (pos s)).0 ≡ negsuc (2 ^ 64 - p * s - 1))
      × (slice (paginate_slice (pos (length items)) (pos (p + 1)) (pos s)) items ≡ none)
unfolding slice paginate_slice
paginate_slice-overflow items p s small wraps once =
    rw
      (
        minus_one p,
        wrap64_small p small,
        times p s,
        wrap64_large (p * s) wraps once,
        not_clamped (length items) (2 ^ 64 - p * s - 1),
      )
      (refl, refl)
