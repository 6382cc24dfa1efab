-- ===== src/Addr/Subnet.antt =====
-- mcproxy/src/utils/addr_storage.cpp: `mask` and `broadcast_addr` as the ends of a subnet.
use Prim.Native.Nat.{bit_and, bit_or}
use native.Mathlib.Nat.{one-le-pow}
use mcproxy.Base.{
  ℕ, zero, suc, ◌+◌, ◌-◌, ◌*◌, ◌/◌, ◌%◌, ◌^◌, ◌≤◌, ◌<◌, ◌≡◌, refl, ap, ◌≢◌, ◌↔◌, ◌⊎◌, Bool, true,
  ◌&&◌, none, some, arith, ◌==◌, ==_iff,
}
use mcproxy.Addr.{
  addr_eq, addr_lt, addr_le, ones_after, mask_word, each_word, mask, broadcast_addr, Addr, ipv4,
  ipv6,
}
use mcproxy.Addr.Bits.{and_high, or_low}

-- A test that every number below a bound passes.
all_below : ℕ → (ℕ → Bool) → Bool
all_below zero p = true
all_below (suc n) p = p n && all_below n p

all_below_lem : (n : ℕ) (p : ℕ → Bool) (x : ℕ) → all_below n p ≡ true → x < n → p x ≡ true
unfolding all_below
all_below_lem zero p x h lt = absurd (omega arith)
all_below_lem (suc n) p x h lt = ground (arith, all_below_lem n p x)

ones_table : all_below 32 (λ n. (2 ^ 32 - 1) / 2 ^ n == 2 ^ (32 - n) - 1) ≡ true
unfolding all_below
ones_table = refl

ones_after_lem : (n : ℕ) → n < 32 → ones_after n ≡ some (2 ^ (32 - n) - 1)
unfolding ones_after
ones_after_lem n h = ground (
  arith,
  ==_iff ((2 ^ 32 - 1) / 2 ^ n) (2 ^ (32 - n) - 1),
  all_below_lem 32 (λ n. (2 ^ 32 - 1) / 2 ^ n == 2 ^ (32 - n) - 1) n ones_table h,
)

pow-add : (n : ℕ) → n < 32 → 32 - n + n ≡ 32
pow-add n h = omega arith

-- For the parts of an address.
and_not :
    (n a : ℕ)
    → n < 32
    → a < 2 ^ 32
    → bit_and a (2 ^ 32 - 1 - (2 ^ (32 - n) - 1)) ≡ a / 2 ^ (32 - n) * 2 ^ (32 - n)
and_not n a hn ha = ground (
  arith,
  one-le-pow (32 - n) 2,
  ap (λ (k : ℕ). 2 ^ k) (pow-add n hn),
  and_high n (32 - n) (a / 2 ^ (32 - n)) (a % 2 ^ (32 - n)),
)

or_ones :
    (n a : ℕ)
    → n < 32
    → a < 2 ^ 32
    → bit_or a (2 ^ (32 - n) - 1) ≡ a / 2 ^ (32 - n) * 2 ^ (32 - n) + (2 ^ (32 - n) - 1)
or_ones n a hn ha = ground (
  arith,
  one-le-pow (32 - n) 2,
  ap (λ (k : ℕ). 2 ^ k) (pow-add n hn),
  or_low n (32 - n) (a / 2 ^ (32 - n)) (a % 2 ^ (32 - n)),
)

pub mask-ipv4 :
    (n a : ℕ)
    → n < 32
    → a < 2 ^ 32
    → mask n (ipv4 a) ≡ some (ipv4 (a / 2 ^ (32 - n) * 2 ^ (32 - n)))
unfolding mask
mask-ipv4 n a hn ha = rw (ones_after_lem n hn, and_not n a hn ha)

pub broadcast_addr-ipv4 :
    (n a : ℕ)
    → n < 32
    → a < 2 ^ 32
    → broadcast_addr n (ipv4 a) ≡ some (ipv4 (a / 2 ^ (32 - n) * 2 ^ (32 - n) + (2 ^ (32 - n) - 1)))
unfolding broadcast_addr
broadcast_addr-ipv4 n a hn ha = rw (ones_after_lem n hn, or_ones n a hn ha)

between : (p q x : ℕ) → 1 ≤ p → ((q * p ≤ x) × (x ≤ q * p + (p - 1))) ↔ (x / p ≡ q)
between p q x h = grind arith

-- For every prefix length below 32 and all IPv4 addresses `a` and `x`: `mask` and `broadcast_addr`
-- give addresses, and `x` lies between them exactly if it has the leading bits of `a`.
pub mask-broadcast_addr :
    (n a x : ℕ)
    → n < 32
    → a < 2 ^ 32
    → x < 2 ^ 32
    → (lo : Addr) × (hi : Addr) × (mask n (ipv4 a) ≡ some lo)
      × (broadcast_addr n (ipv4 a) ≡ some hi)
      × ((addr_le lo (ipv4 x) && addr_le (ipv4 x) hi ≡ true)
          ↔ (x / 2 ^ (32 - n) ≡ a / 2 ^ (32 - n)))
unfolding addr_le addr_lt addr_eq
mask-broadcast_addr n a x hn ha hx = (
  _,
  _,
  mask-ipv4 n a hn ha,
  broadcast_addr-ipv4 n a hn ha,
  ground (arith, between (2 ^ (32 - n)) (a / 2 ^ (32 - n)) x, one-le-pow (32 - n) 2),
)

mask_word-cases :
    (i n w : ℕ)
    → i ≤ 3
    → ((mask_word i n w ≡ none) × (i * 32 < n) × (n < i * 32 + 32) × (32 ≤ n))
      ⊎ ((v : ℕ) × (mask_word i n w ≡ some v) × ((n ≤ i * 32) ⊎ (i * 32 + 32 ≤ n) ⊎ (n < 32)))
unfolding mask_word ones_after
mask_word-cases i n w h = ground arith

-- `mask` is undefined exactly for an IPv4 address with a prefix length of 32 or more, and for an
-- IPv6 address with one between 32 and 128 that is no multiple of 32.
pub mask-undefined :
    (n w a b c d : ℕ)
    → ((mask n (ipv4 w) ≡ none) ↔ (32 ≤ n))
      × ((mask n (ipv6 a b c d) ≡ none) ↔ ((32 < n) × (n < 128) × (n % 32 ≢ 0)))
unfolding mask each_word ones_after
mask-undefined n w a b c d = (
  ground arith,
  ground (
    arith,
    mask_word-cases 0 n a (omega arith),
    mask_word-cases 1 n b (omega arith),
    mask_word-cases 2 n c (omega arith),
    mask_word-cases 3 n d (omega arith),
  ),
)
