-- ===== src/SourceList/Members.antt =====
-- The operators of mcproxy/include/proxy/def.hpp as operations on sets of keys.
use mcproxy.Base.{
  ℕ, ◌≡◌, refl, true, false, not, ◌&&◌, ◌||◌, none, List, [], ◌∷◌, arith, if◌then◌else◌, or_else,
  is_empty,
}
use mcproxy.SourceList.{find?, contains, union, inter, diff, IsSorted}
use mcproxy.SourceList.Laws.{
  find?-union, find?-diff, find?-inter, inter-Ascending, union-IsSorted, diff-IsSorted,
}

module _ {A : Type 0} (key : A → ℕ) where
  pub empty_contains : (j : ℕ) (l : List A) → is_empty l ≡ true → contains key j l ≡ false
  unfolding contains find?
  empty_contains j [] e = refl
  empty_contains j (x ∷ l) e = ground (arith, e)

  pub contains-union :
      (j : ℕ) (l r : List A)
      → IsSorted key l
      → contains key j (union key l r) ≡ (contains key j l || contains key j r)
  unfolding contains
  contains-union j l r s = ground (arith, find?-union key j 0 l r s)

  pub contains-inter :
      (j : ℕ) (l r : List A)
      → IsSorted key l
      → IsSorted key r
      → contains key j (inter key l r) ≡ (contains key j l && contains key j r)
  unfolding contains
  contains-inter j l r s t = ground (arith, find?-inter key j 0 0 l r s t)

  pub contains-diff :
      (j : ℕ) (l r : List A)
      → contains key j (diff key l r) ≡ (contains key j l && not (contains key j r))
  unfolding contains
  contains-diff j l r = ground (arith, find?-diff key j l r)

  -- The operators `+=`, `*=` and `-=` on sorted lists give the union, the intersection and the
  -- difference of the key sets, as sorted lists again; an element that both lists have is the one
  -- of the left list.
  pub operators_lem :
      (l r : List A)
      → IsSorted key l
      → IsSorted key r
      → IsSorted key (union key l r)
        × IsSorted key (inter key l r)
        × IsSorted key (diff key l r)
        × ((j : ℕ)
            → (find? key j (union key l r) ≡ or_else (find? key j l) (find? key j r))
              × (find? key j (inter key l r) ≡ (if contains key j r then find? key j l else none))
              × (find? key j (diff key l r) ≡ (if contains key j r then none else find? key j l)))
  operators_lem l r s t = (
    union-IsSorted key l r s,
    inter-Ascending key 0 l r s,
    diff-IsSorted key l r s,
    λ j. (find?-union key j 0 l r s, find?-inter key j 0 0 l r s t, find?-diff key j l r),
  )
