-- ===== src/Addr/Value.antt =====
-- mcproxy/src/utils/addr_storage.cpp: the addresses of a family as the numbers below 2 ^ 32 and
-- 2 ^ 128.
use mcproxy.Base.{ℕ, ◌+◌, ◌*◌, ◌^◌, ◌<◌, ◌≡◌, refl, ◌⊎◌, List, [], ◌∷◌, arith, length, All}
use mcproxy.Addr.{
  carry_up, carry_down, Addr, Family, unspec, ipv4, ipv6, af_unspec, af_inet, af_inet6,
}

-- The words of an address are 32 bits wide.
abbrev pub IsWords : List ℕ → Type 0
IsWords l = All (λ w. w < 2 ^ 32) l

abbrev pub IsAddr : Addr → Type 0
IsAddr unspec = Unit
IsAddr (ipv4 a) = a < 2 ^ 32
IsAddr (ipv6 a b c d) = IsWords (d ∷ c ∷ b ∷ a ∷ [])

-- The number that words make, the last one first.
abbrev pub value_of : List ℕ → ℕ
value_of [] = 0
value_of (w ∷ l) = w + 2 ^ 32 * value_of l

abbrev pub top_of : List ℕ → ℕ
top_of [] = 1
top_of (w ∷ l) = 2 ^ 32 * top_of l

abbrev pub value : Addr → ℕ
value unspec = 0
value (ipv4 a) = a
value (ipv6 a b c d) = value_of (d ∷ c ∷ b ∷ a ∷ [])

-- How many addresses a family has.
abbrev pub size : Family → ℕ
size af_unspec = 1
size af_inet = 2 ^ 32
size af_inet6 = 2 ^ 128

pub carry_up-value :
    (l : List ℕ)
    → IsWords l
    → ((value_of (carry_up l) ≡ value_of l + 1) × (value_of l + 1 < top_of l))
      ⊎ ((value_of l + 1 ≡ top_of l) × (value_of (carry_up l) ≡ 0))
unfolding carry_up
carry_up-value [] h = ground arith
carry_up-value (w ∷ l) (hw, h) = ground (arith, carry_up-value l h)

pub carry_down-value :
    (l : List ℕ)
    → IsWords l
    → (value_of (carry_down l) + 1 ≡ value_of l)
      ⊎ ((value_of (carry_down l) + 1 ≡ top_of l) × (value_of l ≡ 0))
unfolding carry_down
carry_down-value [] h = ground arith
carry_down-value (w ∷ l) (hw, h) = ground (arith, carry_down-value l h)

pub carry_up-IsWords : (l : List ℕ) → IsWords l → IsWords (carry_up l)
unfolding carry_up
carry_up-IsWords [] h = ground arith
carry_up-IsWords (w ∷ l) (hw, h) = ground (arith, carry_up-IsWords l h)

pub carry_down-IsWords : (l : List ℕ) → IsWords l → IsWords (carry_down l)
unfolding carry_down
carry_down-IsWords [] h = ground arith
carry_down-IsWords (w ∷ l) (hw, h) = ground (arith, carry_down-IsWords l h)

-- Incrementing undoes in every word what decrementing does.
pub carry_down-carry_up : (l : List ℕ) → IsWords l → carry_down (carry_up l) ≡ l
unfolding carry_up carry_down
carry_down-carry_up [] h = refl
carry_down-carry_up (w ∷ l) (hw, h) = ground (arith, carry_down-carry_up l h)

pub carry_up-carry_down : (l : List ℕ) → IsWords l → carry_up (carry_down l) ≡ l
unfolding carry_up carry_down
carry_up-carry_down [] h = refl
carry_up-carry_down (w ∷ l) (hw, h) = ground (arith, carry_up-carry_down l h)

pub length-carry_up : (l : List ℕ) → length (carry_up l) ≡ length l
unfolding carry_up
length-carry_up [] = refl
length-carry_up (w ∷ l) = ground (arith, length-carry_up l)

pub length-carry_down : (l : List ℕ) → length (carry_down l) ≡ length l
unfolding carry_down
length-carry_down [] = refl
length-carry_down (w ∷ l) = ground (arith, length-carry_down l)
