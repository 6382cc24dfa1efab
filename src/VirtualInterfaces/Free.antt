-- ===== src/VirtualInterfaces/Free.antt =====
-- mcproxy/src/proxy/interfaces.cpp: the number that `get_free_vif_number` gives is not used.
use mcproxy.Base.{
  ℕ, zero, suc, ◌+◌, ◌<◌, ◌≡◌, refl, subst, ◌∙◌, ◌≢◌, inl, inr, Option, none, some, List, [], ◌∷◌,
  arith, ◌==◌, if◌then◌else◌, Bool-cases, some-inj, length, All,
}
use mcproxy.MapOf.{lookup}
use mcproxy.VirtualInterfaces.{
  zeros, set_element, fill_vifs, first_zero, vifs_elements, get_free_vif_number, Interfaces,
}

abbrev element : ℕ → List ℕ → ℕ
element k [] = 0
element zero (x ∷ l) = x
element (suc k) (x ∷ l) = element k l

element-set_element :
    (k j x : ℕ) (l : List ℕ)
    → k < length l
    → element j (set_element k x l) ≡ (if k == j then x else element j l)
unfolding set_element
element-set_element k j x [] h = absurd (omega arith)
element-set_element zero zero x (y ∷ l) h = refl
element-set_element zero (suc j) x (y ∷ l) h = ground arith
element-set_element (suc k) zero x (y ∷ l) h = ground arith
element-set_element (suc k) (suc j) x (y ∷ l) h =
    ground (arith, element-set_element k j x l (omega arith))

length-set_element : (k x : ℕ) (l : List ℕ) → length (set_element k x l) ≡ length l
unfolding set_element
length-set_element k x [] = refl
length-set_element zero x (y ∷ l) = refl
length-set_element (suc k) x (y ∷ l) = ground (arith, length-set_element k x l)

length-zeros : (n : ℕ) → length (zeros n) ≡ n
length-zeros zero = refl
length-zeros (suc n) = ground (arith, length-zeros n)

-- Interfaces have indexes that are not zero.
abbrev pub NonZero : List (ℕ × ℕ) → Type 0
NonZero m = All (λ e. e.0 ≢ 0) m

fill_vifs-step :
    (n i v : ℕ) (m : List (ℕ × ℕ)) (vifs vifs' : List ℕ)
    → fill_vifs n ((i, v) ∷ m) vifs ≡ some vifs'
    → (v < n) × (fill_vifs n m (set_element v i vifs) ≡ some vifs')
unfolding fill_vifs
fill_vifs-step n i v m vifs vifs' h = ground arith

set_element-keeps :
    (k j x : ℕ) (l : List ℕ)
    → k < length l
    → x ≢ 0
    → element j l ≢ 0
    → element j (set_element k x l) ≢ 0
set_element-keeps k j x l h hx hj = ground (arith, element-set_element k j x l h)

-- An element that is not zero stays so.
fill_vifs-keeps :
    (n j : ℕ) (m : List (ℕ × ℕ)) (vifs vifs' : List ℕ)
    → length vifs ≡ n
    → NonZero m
    → fill_vifs n m vifs ≡ some vifs'
    → element j vifs ≢ 0
    → element j vifs' ≢ 0
unfolding fill_vifs
fill_vifs-keeps n j [] vifs vifs' e h hf hj = subst (λ l. element j l ≢ 0) (some-inj hf) hj
fill_vifs-keeps n j ((i, v) ∷ m) vifs vifs' e h hf hj =
    let step = fill_vifs-step n i v m vifs vifs' hf in
    fill_vifs-keeps n j m (set_element v i vifs) vifs' (length-set_element v i vifs ∙ e) h.1 step.1
      (set_element-keeps v j i vifs (omega arith) h.0 hj)

-- The numbers that interfaces have are not zero in the vector.
fill_vifs-used :
    (n i v : ℕ) (m : List (ℕ × ℕ)) (vifs vifs' : List ℕ)
    → length vifs ≡ n
    → NonZero m
    → fill_vifs n m vifs ≡ some vifs'
    → lookup i m ≡ some v
    → element v vifs' ≢ 0
unfolding fill_vifs lookup
fill_vifs-used n i v [] vifs vifs' e h hf hl = cc
fill_vifs-used n i v ((j, w) ∷ m) vifs vifs' e h hf hl =
    let step = fill_vifs-step n j w m vifs vifs' hf in
    let same = length-set_element w j vifs ∙ e in
    elim (Bool-cases (j == i)) [
      | inl ej ↦
          fill_vifs-keeps n v m (set_element w j vifs) vifs' same h.1 step.1
            (ground (arith, element-set_element w v j vifs))
      | inr nj ↦ fill_vifs-used n i v m (set_element w j vifs) vifs' same h.1 step.1 (ground arith)
    ]

first_zero-element :
    (i k : ℕ) (l : List ℕ)
    → first_zero i l ≡ some k
    → (d : ℕ) × (k ≡ i + d) × (element d l ≡ 0) × (d < length l)
unfolding first_zero
first_zero-element i k [] h = cc
first_zero-element i k (x ∷ l) h = elim (Bool-cases (x == 0)) [
  | inl e ↦ (0, ground arith, ground arith, omega arith)
  | inr e ↦
      let (d, ek, ed, hd) = first_zero-element (suc i) k l (ground arith) in
      (suc d, omega arith, ed, omega arith)
]

free_in : ℕ → List (ℕ × ℕ) → Option ℕ
free_in n m = elim (fill_vifs n m (zeros n)) [ none ↦ none | some vifs ↦ first_zero 0 vifs ]

free_in-unused :
    (n i v : ℕ) (m : List (ℕ × ℕ)) → NonZero m → free_in n m ≡ some v → lookup i m ≢ some v
unfolding free_in
free_in-unused n i v m h hf hl = go (fill_vifs n m (zeros n)) refl hf
  where
    go :
        (o : Option (List ℕ))
        → fill_vifs n m (zeros n) ≡ o
        → (elim o as (λ _. Option ℕ) [ none ↦ none | some vifs ↦ first_zero 0 vifs ]) ≡ some v
        → ⊥
    go none e hk = cc
    go (some vifs) e hk =
        let (d, ek, ed, hd) = first_zero-element 0 v vifs hk in
        let used = fill_vifs-used n i v m (zeros n) vifs (length-zeros n) h e hl in
        absurd (used (subst (λ k. element k vifs ≡ 0) (omega arith) ed))

module _ (maxvifs maxmifs : ℕ) where
  pub get_free_vif_number-unused :
      (t : Interfaces) (i v : ℕ)
      → NonZero t.if_vif
      → get_free_vif_number maxvifs maxmifs t ≡ some v
      → lookup i t.if_vif ≢ some v
  unfolding get_free_vif_number free_in
  get_free_vif_number-unused t i v h hf hl = go (vifs_elements maxvifs maxmifs t.addr_family) hf
    where
      go :
          (o : Option ℕ)
          → (elim o as (λ _. Option ℕ) [ none ↦ none | some n ↦ free_in n t.if_vif ]) ≡ some v
          → ⊥
      go none e = cc
      go (some n) e = free_in-unused n i v t.if_vif h e hl
