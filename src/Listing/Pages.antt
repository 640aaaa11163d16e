-- ===== src/Listing/Pages.antt =====
-- The paging that src/services/admin-booking.service.ts and src/services/audit-log.service.ts share:
-- `count`, `skip`, `take`, and the number of pages.
use native.Mathlib.Nat.{div-add-mod, mod-lt}
use booking_availability_pla.Shared.{
  ℕ, zero, suc, ◌+◌, ◌-◌, ◌*◌, ◌/◌, ◌≤◌, ◌<◌, ◌≡◌, ◌∙◌, Bool, List, [], ◌++◌, arith, length, take,
  drop, keep, sort_with, ◌==◌, if◌then◌else◌, take-add, take_all, All, All-take, All-drop,
  All-sort_with, keep_sound, All-map_weaken, true,
}

pub record PaginationMeta : Type 0 where
  pub page : ℕ
  pub page_size : ℕ
  pub total_items : ℕ
  pub total_pages : ℕ

-- `totalItems === 0 ? 0 : Math.ceil(totalItems / page_size)`
abbrev pub total_pages : ℕ → ℕ → ℕ
total_pages total_items page_size =
    if total_items == 0 then 0 else (total_items + page_size - 1) / page_size

abbrev pub pagination : ℕ → ℕ → ℕ → PaginationMeta
pagination page page_size total_items = record {
  page = page;
  page_size = page_size;
  total_items = total_items;
  total_pages = total_pages total_items page_size;
}

enough_pages : (total size : ℕ) → 0 < size → total ≤ total_pages total size * size
enough_pages total size h =
    grind (arith, div-add-mod (total + size - 1) size, mod-lt (total + size - 1) h)

before-suc : (n : ℕ) → suc n - 1 ≡ n
before-suc n = omega arith

suc-times : (n m : ℕ) → suc n * m ≡ n * m + m
suc-times n m = omega arith

zero-times : (m : ℕ) → 0 * m ≡ 0
zero-times m = omega arith

module _ {A : Type 0} where
  -- `skip: (page - 1) * page_size, take: page_size`
  abbrev pub page_of : ℕ → ℕ → List A → List A
  page_of page page_size rows = take page_size (drop ((page - 1) * page_size) rows)

  -- `where`, `orderBy`, `skip` and `take` together.
  abbrev pub select_page : (A → Bool) → (A → A → Bool) → ℕ → ℕ → List A → List A
  select_page test le page page_size rows = page_of page page_size (sort_with le (keep test rows))

  -- The pages from the first to a given one, put together.
  abbrev pub first_pages : ℕ → ℕ → List A → List A
  first_pages zero page_size rows = []
  first_pages (suc n) page_size rows =
      first_pages n page_size rows ++ page_of (suc n) page_size rows

  first_pages-take :
      (n page_size : ℕ) (rows : List A) → first_pages n page_size rows ≡ take (n * page_size) rows
  first_pages-take zero page_size rows = rw (zero-times page_size)
  first_pages-take (suc n) page_size rows =
      rw (before-suc n, suc-times n page_size, first_pages-take n page_size rows)
        (take-add (n * page_size) page_size rows)

  -- The pages from 1 to `totalPages` hold every row once and in order.
  pub first_pages-all :
      (page_size : ℕ) (rows : List A)
      → 0 < page_size
      → first_pages (total_pages (length rows) page_size) page_size rows ≡ rows
  first_pages-all page_size rows h =
      first_pages-take (total_pages (length rows) page_size) page_size rows
      ∙ take_all _ rows (enough_pages (length rows) page_size h)

  pub All-select_page {κ} :
      (P : A → Type κ) (test : A → Bool) (le : A → A → Bool) (page page_size : ℕ) (rows : List A)
      → ((x : A) → test x ≡ true → P x)
      → All P (select_page test le page page_size rows)
  All-select_page P test le page page_size rows sound = All-take P page_size _ (
      All-drop P ((page - 1) * page_size) _ (
        All-sort_with P le (keep test rows)
          (All-map_weaken P sound (keep test rows) (keep_sound test rows))))
