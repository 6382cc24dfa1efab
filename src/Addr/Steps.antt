-- ===== src/Addr/Steps.antt =====
-- mcproxy/src/utils/addr_storage.cpp: the operators `++` and `--`.
use mcproxy.Base.{ℕ, ◌+◌, ◌%◌, ◌≡◌, refl, ap, ◌∙◌, List, [], ◌∷◌, arith, length}
use mcproxy.Addr.{
  get_addr_family, carry_up, carry_down, of_words, prefix_inc, prefix_dec, Addr, unspec, ipv4, ipv6,
}
use mcproxy.Addr.Value.{
  IsAddr, value_of, value, size, carry_up-value, carry_down-value, carry_down-carry_up,
  carry_up-carry_down, length-carry_up, length-carry_down,
}

-- What the operations do to the address of four words.
HasWords : List ℕ → Type 0
HasWords l =
    (value (of_words l) ≡ value_of l)
    × (prefix_inc (of_words l) ≡ of_words (carry_up l))
    × (prefix_dec (of_words l) ≡ of_words (carry_down l))

HasWords_lem : (l : List ℕ) → length l ≡ 4 → HasWords l
unfolding HasWords prefix_inc prefix_dec
HasWords_lem [] e = absurd (omega arith)
HasWords_lem (a ∷ []) e = absurd (omega arith)
HasWords_lem (a ∷ b ∷ []) e = absurd (omega arith)
HasWords_lem (a ∷ b ∷ c ∷ []) e = absurd (omega arith)
HasWords_lem (a ∷ b ∷ c ∷ d ∷ []) e = (refl, refl, refl)
HasWords_lem (a ∷ b ∷ c ∷ d ∷ x ∷ l) e = absurd (omega arith)

pub prefix_inc-value :
    (a : Addr) → IsAddr a → value (prefix_inc a) ≡ (value a + 1) % size (get_addr_family a)
unfolding prefix_inc get_addr_family HasWords
prefix_inc-value unspec h = refl
prefix_inc-value (ipv4 a) h = refl
prefix_inc-value (ipv6 a b c d) h = ground (
  arith,
  carry_up-value (d ∷ c ∷ b ∷ a ∷ []) h,
  length-carry_up (d ∷ c ∷ b ∷ a ∷ []),
  HasWords_lem (carry_up (d ∷ c ∷ b ∷ a ∷ [])),
)

pub prefix_dec-value :
    (a : Addr) → IsAddr a → value a ≡ (value (prefix_dec a) + 1) % size (get_addr_family a)
unfolding prefix_dec get_addr_family HasWords
prefix_dec-value unspec h = refl
prefix_dec-value (ipv4 a) h = omega arith
prefix_dec-value (ipv6 a b c d) h = ground (
  arith,
  carry_down-value (d ∷ c ∷ b ∷ a ∷ []) h,
  length-carry_down (d ∷ c ∷ b ∷ a ∷ []),
  HasWords_lem (carry_down (d ∷ c ∷ b ∷ a ∷ [])),
)

prefix_dec-prefix_inc : (a : Addr) → IsAddr a → prefix_dec (prefix_inc a) ≡ a
unfolding prefix_inc prefix_dec HasWords
prefix_dec-prefix_inc unspec h = refl
prefix_dec-prefix_inc (ipv4 a) h = ground arith
prefix_dec-prefix_inc (ipv6 a b c d) h =
    (HasWords_lem (carry_up (d ∷ c ∷ b ∷ a ∷ [])) (length-carry_up (d ∷ c ∷ b ∷ a ∷ []))).2
    ∙ ap of_words (carry_down-carry_up (d ∷ c ∷ b ∷ a ∷ []) h)

prefix_inc-prefix_dec : (a : Addr) → IsAddr a → prefix_inc (prefix_dec a) ≡ a
unfolding prefix_inc prefix_dec HasWords
prefix_inc-prefix_dec unspec h = refl
prefix_inc-prefix_dec (ipv4 a) h = ground arith
prefix_inc-prefix_dec (ipv6 a b c d) h =
    (HasWords_lem (carry_down (d ∷ c ∷ b ∷ a ∷ [])) (length-carry_down (d ∷ c ∷ b ∷ a ∷ []))).1
    ∙ ap of_words (carry_up-carry_down (d ∷ c ∷ b ∷ a ∷ []) h)

-- The prefix operators undo each other, on every address of either family: the carry and the borrow
-- go over the same words.
pub prefix_inc-inverse :
    (a : Addr) → IsAddr a → (prefix_dec (prefix_inc a) ≡ a) × (prefix_inc (prefix_dec a) ≡ a)
prefix_inc-inverse a h = (prefix_dec-prefix_inc a h, prefix_inc-prefix_dec a h)
