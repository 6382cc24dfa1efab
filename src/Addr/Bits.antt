-- ===== src/Addr/Bits.antt =====
-- Masks of high and low bits as arithmetic. No code of the repository is modelled here.
use Prim.Native.Nat.{bit_and, bit_or, min, max, digits, bitwise, bit_and-bitwise, bit_or-bitwise}
use native.Mathlib.Nat.{pow-suc, one-le-pow}
use mcproxy.Base.{
  ℕ, zero, suc, ◌+◌, ◌-◌, ◌*◌, ◌/◌, ◌%◌, ◌^◌, ◌≤◌, ◌<◌, ◌≡◌, refl, ap, subst, ◌∙◌, arith,
}

suc_add : (k x : ℕ) → suc (k + x) ≡ suc k + x
suc_add k x = omega arith

-- One unit of fuel more than the number changes nothing, hence any surplus does not.
module _ (rest : ℕ → ℕ) (op : ℕ → ℕ → ℕ) where
  one_more : (fuel x y : ℕ) → x ≤ fuel → digits rest op (suc fuel) x y ≡ digits rest op fuel x y
  one_more zero zero y h = refl
  one_more zero (suc x) y h = ground arith
  one_more (suc fuel) zero y h = refl
  one_more (suc fuel) (suc x) y h =
      ap (λ (t : ℕ). t * 2 + op (suc x % 2) (y % 2))
        (one_more fuel (suc x / 2) (y / 2) (omega arith))

  surplus : (k x y : ℕ) → digits rest op (k + x) x y ≡ digits rest op x x y
  surplus zero x y = ap (λ (n : ℕ). digits rest op n x y) (omega arith)
  surplus (suc k) x y =
      subst (λ n. digits rest op n x y ≡ digits rest op x x y) (suc_add k x)
        (one_more (k + x) x y (omega arith) ∙ surplus k x y)

  half_fuel : (x y : ℕ) → digits rest op x (suc x / 2) y ≡ bitwise rest op (suc x / 2) y
  half_fuel x y =
      let half = suc x / 2 in
      ap (λ (n : ℕ). digits rest op n half y) (omega arith) ∙ surplus (x - half) half y

-- The lowest digit of a conjunction and of a disjunction.
and_step : (x y : ℕ) → bit_and x y ≡ bit_and (x / 2) (y / 2) * 2 + min (x % 2) (y % 2)
and_step zero y = omega (arith, bit_and-bitwise 0 y, bit_and-bitwise 0 (y / 2))
and_step (suc x) y = omega (
  arith,
  bit_and-bitwise (suc x) y,
  bit_and-bitwise (suc x / 2) (y / 2),
  half_fuel (λ t. 0) min x (y / 2),
)

or_step : (x y : ℕ) → bit_or x y ≡ bit_or (x / 2) (y / 2) * 2 + max (x % 2) (y % 2)
or_step zero y = omega (arith, bit_or-bitwise 0 y, bit_or-bitwise 0 (y / 2))
or_step (suc x) y = omega (
  arith,
  bit_or-bitwise (suc x) y,
  bit_or-bitwise (suc x / 2) (y / 2),
  half_fuel (λ t. t) max x (y / 2),
)

and_ones : (n a : ℕ) → a < 2 ^ n → bit_and a (2 ^ n - 1) ≡ a
and_ones zero zero h = refl
and_ones zero (suc a) h = absurd (omega arith)
and_ones (suc n) a h =
    ground (arith, and_step a (2 ^ suc n - 1), pow-suc 2 n, one-le-pow n 2, and_ones n (a / 2))

or_none : (n a : ℕ) → a < 2 ^ n → bit_or a 0 ≡ a
or_none zero zero h = refl
or_none zero (suc a) h = absurd (omega arith)
or_none (suc n) a h = ground (arith, or_step a 0, pow-suc 2 n, or_none n (a / 2))

double : (q k : ℕ) → q * 2 ^ suc k ≡ 2 * (q * 2 ^ k)
double q k = omega (arith, ap (λ (t : ℕ). q * t) (pow-suc 2 k))

-- The high bits `q` of a number of `k + n` bits.
pub and_high :
    (n k q r : ℕ)
    → r < 2 ^ k
    → q * 2 ^ k + r < 2 ^ (k + n)
    → bit_and (q * 2 ^ k + r) (2 ^ (k + n) - 2 ^ k) ≡ q * 2 ^ k
and_high n zero q r hr h = ground (arith, and_ones n q)
and_high n (suc k) q r hr h = ground (
  arith,
  and_step (q * 2 ^ suc k + r) (2 ^ suc (k + n) - 2 ^ suc k),
  double q k,
  pow-suc 2 k,
  pow-suc 2 (k + n),
  and_high n k q (r / 2),
)

pub or_low :
    (n k q r : ℕ)
    → r < 2 ^ k
    → q * 2 ^ k + r < 2 ^ (k + n)
    → bit_or (q * 2 ^ k + r) (2 ^ k - 1) ≡ q * 2 ^ k + (2 ^ k - 1)
or_low n zero q r hr h = ground (arith, or_none n q)
or_low n (suc k) q r hr h = ground (
  arith,
  or_step (q * 2 ^ suc k + r) (2 ^ suc k - 1),
  double q k,
  pow-suc 2 k,
  pow-suc 2 (k + n),
  one-le-pow k 2,
  or_low n k q (r / 2),
)
