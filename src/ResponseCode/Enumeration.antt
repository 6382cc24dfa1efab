-- ===== src/ResponseCode/Enumeration.antt =====
-- A test of every number below a bound, for the codes of mcproxy/src/proxy/timers_values.cpp.
use mcproxy.Base.{
  ℕ, zero, suc, ◌<◌, ◌≡◌, subst, inl, inr, Bool, true, ◌&&◌, arith, ◌==◌, ==_iff, Bool-cases,
}

-- `p` holds of every number below `n`.
unfoldable pub all_below : ℕ → (ℕ → Bool) → Bool
all_below zero p = true
all_below (suc n) p = p n && all_below n p

both : (a b : Bool) → (a && b) ≡ true → (a ≡ true) × (b ≡ true)
both a b h = ground (arith, h)

pub all_below_sound : (n : ℕ) (p : ℕ → Bool) → all_below n p ≡ true → (c : ℕ) → c < n → p c ≡ true
unfolding all_below
all_below_sound zero p h c l = absurd (omega (arith, l))
all_below_sound (suc n) p h c l =
    let (here, below) = both (p n) (all_below n p) h in
    elim (Bool-cases (n == c)) [
      | inl e ↦ subst (λ k. p k ≡ true) ((==_iff n c).0 e) here
      | inr e ↦ all_below_sound n p below c (ground (arith, e, l))
    ]
