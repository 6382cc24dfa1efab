-- ===== src/SourceList.antt =====
-- mcproxy/include/proxy/def.hpp: `source_list<T>`, a `std::set`, and the operators on it.
-- A set is the list of its elements in the order of `operator<`, which for the elements that the
-- program puts into it is the order of a number, the `key`; `operator==` compares the keys too.
pub mod Laws
pub mod Members
use mcproxy.Base.{
  ℕ, suc, ◌≤◌, Bool, List, [], ◌∷◌, Option, none, some, ltb, ◌==◌, if◌then◌else◌, is_some,
}

module _ {A : Type 0} (key : A → ℕ) where
  -- `std::set::insert(x)`: an element with an equal key stays.
  unfoldable pub insert : A → List A → List A
  insert x [] = x ∷ []
  insert x (y ∷ l) =
      if ltb (key x) (key y) then x ∷ y ∷ l else if key x == key y then y ∷ l else y ∷ insert x l

  -- `std::set::erase(k)`
  unfoldable pub erase : ℕ → List A → List A
  erase k [] = []
  erase k (x ∷ l) = let rest = erase k l in if key x == k then rest else x ∷ rest

  -- `std::set::find(k)`
  unfoldable pub find? : ℕ → List A → Option A
  find? k [] = none
  find? k (x ∷ l) = if key x == k then some x else find? k l

  unfoldable pub contains : ℕ → List A → Bool
  unfolding find?
  contains k l = is_some (find? k l)

  -- A write through the iterator that `find(k)` returned.
  unfoldable pub update : ℕ → (A → A) → List A → List A
  update k f [] = []
  update k f (x ∷ l) = if key x == k then f x ∷ l else x ∷ update k f l

  -- `l += r`
  unfoldable pub union : List A → List A → List A
  union l [] = l
  union l (x ∷ r) = union (insert x l) r

  -- `l *= r`: both iterators move up; what `l` has left when `r` is at its end is erased.
  unfoldable pub inter : List A → List A → List A
  inter [] r = []
  inter (x ∷ l) [] = []
  inter (x ∷ l) (y ∷ r) =
      let both = x ∷ inter l r in
      let below = inter l (y ∷ r) in
      let above = inter (x ∷ l) r in
      if key x == key y then both else if ltb (key x) (key y) then below else above

  -- `l -= r`
  unfoldable pub diff : List A → List A → List A
  diff l [] = l
  diff l (x ∷ r) = diff (erase (key x) l) r

  -- Keys rise from `b` on.
  abbrev pub Ascending : ℕ → List A → Type 0
  Ascending b [] = Unit {0}
  Ascending b (x ∷ l) = (b ≤ key x) × Ascending (suc (key x)) l

  abbrev pub IsSorted : List A → Type 0
  IsSorted l = Ascending 0 l
