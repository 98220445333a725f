-- ===== src/Paging/Tests.antt =====
-- Pages of two rows over three.
use yaxter.Common.{◌≡◌, refl, [], ◌∷◌, arith}
use yaxter.Common.Sort.{sort_desc, insert_desc}
use yaxter.Paging.Walk.{walk, walk-eq-sort_desc}

walk-eq-sort_desc_example : walk (λ n. n) 4 0 2 (5 ∷ 9 ∷ 7 ∷ []) ≡ 9 ∷ 7 ∷ 5 ∷ []
unfolding sort_desc insert_desc
walk-eq-sort_desc_example =
    walk-eq-sort_desc (λ n. n) 2 (5 ∷ 9 ∷ 7 ∷ []) (omega arith) (refl, (refl, (refl, tt)))
      (omega arith, (omega arith, (omega arith, tt)))
