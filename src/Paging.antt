-- ===== src/Paging.antt =====
-- The cursor pagination that the read endpoints share (ARCHITECTURE.md §2.6): a query
-- `WHERE $2 = 0 OR id < $2 ORDER BY id DESC LIMIT $3`, and the handler's cut of a page of
-- `limit + 1` rows.
pub mod Walk
pub mod Client
mod Tests
use yaxter.Common.{
  ℕ, zero, suc, ◌+◌, ◌-◌, Bool, true, false, ◌||◌, Option, none, some, List, [], ◌∷◌, ◌++◌, ltb,
  ◌==◌, if◌then◌else◌, filter, take, length, get_elem?,
}
use yaxter.Common.Sort.{sort_desc}

module _ {A : Type 0} (key : A → ℕ) where
  -- `$2 = 0 OR id < $2`
  abbrev pub before : ℕ → A → Bool
  before cursor a = cursor == 0 || ltb (key a) cursor

  -- The query over the rows that the rest of its WHERE clause selects.
  unfoldable pub query : ℕ → ℕ → List A → List A
  query cursor limit rows = take limit (sort_desc key (filter (before cursor) rows))

  -- The id of the last item of a page: `items[limit-1].ID`.
  abbrev pub last_key : List A → ℕ
  last_key [] = 0
  last_key (x ∷ []) = key x
  last_key (x ∷ y ∷ ys) = last_key (y ∷ ys)

  -- The limit is 1 at least, as the handlers see to: at 0 the index would be out of range.
  -- `if len(items) > limit { next = items[limit-1].ID; items = items[:limit] }`
  unfoldable pub cut_page : ℕ → List A → List A × Option ℕ
  cut_page limit items =
      if ltb limit (length items)
      then (take limit items, some (last_key (take limit items)))
      else (items, none)
