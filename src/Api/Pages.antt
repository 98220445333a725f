-- ===== src/Api/Pages.antt =====
-- The cursors and the limits of the pages.
use yaxter.Common.{
  ℕ, ◌+◌, ◌%◌, ◌^◌, ◌≤◌, ◌<◌, ◌≡◌, ◌≢◌, refl, ap, true, Option, none, some, [], ◌∷◌, arith,
}
use yaxter.Common.Int.{ℤ, pos, negsuc}
use yaxter.Common.Decimal.{Text, decimal, decimal-ne-nil}
use yaxter.Common.Strconv.{parse_int, parse_int-decimal}
use yaxter.Api.{parse_page, page_limit, page_cursor, cursor_of, format_id}

-- Whatever the query, the limit is from 1 to 100. A limit in this range is taken as it is, a limit
-- of 0, below 0 or above 100 becomes 20, and so does an absent one.
pub parse_page-limit :
    (cursor : Option Text) (limit : Option ℤ) (n : ℕ)
    → (1 ≤ (parse_page cursor limit).1)
      × ((parse_page cursor limit).1 ≤ 100)
      × ((parse_page cursor (some (pos (n % 100 + 1)))).1 ≡ n % 100 + 1)
      × ((parse_page cursor (some (pos (n + 101)))).1 ≡ 20)
      × ((parse_page cursor (some (negsuc n))).1 ≡ 20)
      × ((parse_page cursor (some (pos 0))).1 ≡ 20)
      × ((parse_page cursor none).1 ≡ 20)
unfolding parse_page page_limit
parse_page-limit cursor none n =
    (omega arith, omega arith, ground arith, ground arith, refl, ground arith, refl)
parse_page-limit cursor (some (pos m)) n =
    (ground arith, ground arith, ground arith, ground arith, refl, ground arith, refl)
parse_page-limit cursor (some (negsuc m)) n =
    (omega arith, omega arith, ground arith, ground arith, refl, ground arith, refl)

page_cursor-read :
    (s : Text) {n : ℕ} → s ≢ [] → parse_int s ≡ (pos n, true) → page_cursor (some s) ≡ pos n
unfolding page_cursor
page_cursor-read [] ne h = absurd (ne refl)
page_cursor-read (c ∷ cs) ne h = ap (λ x. x.0) h

-- The `next_cursor` that a page prints is read back as the id that it was made of.
pub parse_page-cursor_of :
    (id : ℕ) (limit : Option ℤ) → id < 2 ^ 63 → (parse_page (cursor_of (some id)) limit).0 ≡ pos id
unfolding parse_page format_id
parse_page-cursor_of id limit fits =
    page_cursor-read (decimal id) (decimal-ne-nil id) (parse_int-decimal id fits)
