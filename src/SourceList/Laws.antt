-- ===== src/SourceList/Laws.antt =====
-- What the operators of mcproxy/include/proxy/def.hpp do to one key.
use mathlib.Core.Option
use mcproxy.Base.{
  ℕ, suc, ◌≤◌, ◌<◌, ◌≡◌, refl, none, some, List, [], ◌∷◌, arith, ◌==◌, if◌then◌else◌, or_else,
}
use mcproxy.SourceList.{
  insert, erase, find?, contains, update, union, inter, diff, Ascending, IsSorted,
}

module _ {A : Type 0} (key : A → ℕ) where
  pub Ascending-mono : {b c : ℕ} (l : List A) → b ≤ c → Ascending key c l → Ascending key b l
  Ascending-mono [] h s = tt
  Ascending-mono (x ∷ l) h s = (omega arith, s.1)

  pub find?_below : (j b : ℕ) (l : List A) → j < b → Ascending key b l → find? key j l ≡ none
  unfolding find?
  find?_below j b [] h s = refl
  find?_below j b (x ∷ l) h s = ground (arith, find?_below j (suc (key x)) l)

  pub insert-Ascending :
      (b : ℕ) (x : A) (l : List A)
      → b ≤ key x
      → Ascending key b l
      → Ascending key b (insert key x l)
  unfolding insert
  insert-Ascending b x [] h s = (h, tt)
  insert-Ascending b x (y ∷ l) h s = ground (arith, insert-Ascending (suc (key y)) x l)

  pub erase-Ascending : (b k : ℕ) (l : List A) → Ascending key b l → Ascending key b (erase key k l)
  unfolding erase
  erase-Ascending b k [] s = tt
  erase-Ascending b k (x ∷ l) s = ground (
    arith,
    erase-Ascending (suc (key x)) k l s.1,
    Ascending-mono {b = b} {c = suc (key x)} (erase key k l),
  )

  pub find?-insert :
      (j b : ℕ) (x : A) (l : List A)
      → Ascending key b l
      → find? key j (insert key x l) ≡ or_else (find? key j l) (if key x == j then some x else none)
  unfolding insert find?
  find?-insert j b x [] s = ground arith
  find?-insert j b x (y ∷ l) s =
      ground (arith, find?-insert j (suc (key y)) x l s.1, find?_below j (suc (key y)) l)

  pub find?-erase :
      (j k : ℕ) (l : List A)
      → find? key j (erase key k l) ≡ (if k == j then none else find? key j l)
  unfolding erase find?
  find?-erase j k [] = ground arith
  find?-erase j k (x ∷ l) = ground (arith, find?-erase j k l)

  pub find?-union :
      (j b : ℕ) (l r : List A)
      → Ascending key b l
      → find? key j (union key l r) ≡ or_else (find? key j l) (find? key j r)
  unfolding union find?
  find?-union j b l [] s = ground arith
  find?-union j b l (x ∷ r) s = ground (
    arith,
    find?-union j 0 (insert key x l) r
        (insert-Ascending 0 x l (omega arith) (Ascending-mono l (omega arith) s)),
    find?-insert j b x l s,
  )

  pub find?-diff :
      (j : ℕ) (l r : List A)
      → find? key j (diff key l r) ≡ (if contains key j r then none else find? key j l)
  unfolding diff contains find?
  find?-diff j l [] = refl
  find?-diff j l (x ∷ r) =
      ground (arith, find?-diff j (erase key (key x) l) r, find?-erase j (key x) l)

  pub find?-inter :
      (j b c : ℕ) (l r : List A)
      → Ascending key b l
      → Ascending key c r
      → find? key j (inter key l r) ≡ (if contains key j r then find? key j l else none)
  unfolding inter contains find?
  find?-inter j b c [] r s t = ground arith
  find?-inter j b c (x ∷ l) [] s t = refl
  find?-inter j b c (x ∷ l) (y ∷ r) s t = ground (
    arith,
    find?-inter j (suc (key x)) (suc (key y)) l r s.1 t.1,
    find?-inter j (suc (key x)) c l (y ∷ r) s.1 t,
    find?-inter j b (suc (key y)) (x ∷ l) r s t.1,
    find?_below j (suc (key x)) l,
    find?_below j (suc (key y)) r,
  )

  pub inter-Ascending : (b : ℕ) (l r : List A) → Ascending key b l → Ascending key b (inter key l r)
  unfolding inter
  inter-Ascending b [] r s = tt
  inter-Ascending b (x ∷ l) [] s = tt
  inter-Ascending b (x ∷ l) (y ∷ r) s = ground (
    arith,
    inter-Ascending (suc (key x)) l r s.1,
    inter-Ascending (suc (key x)) l (y ∷ r) s.1,
    inter-Ascending b (x ∷ l) r s,
    Ascending-mono {b = b} {c = suc (key x)} (inter key l (y ∷ r)),
  )

  pub union-IsSorted : (l r : List A) → IsSorted key l → IsSorted key (union key l r)
  unfolding union
  union-IsSorted l [] s = s
  union-IsSorted l (x ∷ r) s =
      union-IsSorted (insert key x l) r (insert-Ascending 0 x l (omega arith) s)

  pub diff-IsSorted : (l r : List A) → IsSorted key l → IsSorted key (diff key l r)
  unfolding diff
  diff-IsSorted l [] s = s
  diff-IsSorted l (x ∷ r) s = diff-IsSorted (erase key (key x) l) r (erase-Ascending 0 (key x) l s)

  -- `f` keeps the key.
  abbrev pub KeepsKey : (A → A) → Type 0
  KeepsKey f = (x : A) → key (f x) ≡ key x

  pub find?-update :
      (j k : ℕ) (f : A → A) (l : List A)
      → KeepsKey f
      → find? key j (update key k f l)
        ≡ (if k == j then Option.map f (find? key j l) else find? key j l)
  unfolding update find?
  find?-update j k f [] h = ground arith
  find?-update j k f (x ∷ l) h = ground (arith, find?-update j k f l h, h x)

  pub update-Ascending :
      (b k : ℕ) (f : A → A) (l : List A)
      → KeepsKey f
      → Ascending key b l
      → Ascending key b (update key k f l)
  unfolding update
  update-Ascending b k f [] h s = tt
  update-Ascending b k f (x ∷ l) h s =
      ground (arith, update-Ascending (suc (key x)) k f l h s.1, h x)
