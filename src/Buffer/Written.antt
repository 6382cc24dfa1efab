-- ===== src/Buffer/Written.antt =====
-- Numbers that are written in network byte order are read back.
use mcproxy.Base.{
  ℕ, zero, suc, ◌+◌, ◌*◌, ◌/◌, ◌%◌, ◌^◌, ◌<◌, ◌≡◌, refl, subst, some, List, [], ◌∷◌, ◌++◌, arith,
  length, length-append,
}
use mcproxy.Buffer.{skip, advance, read_more, read_number}

-- The bytes of a number, the highest first.
unfoldable pub network_bytes : ℕ → ℕ → List ℕ
network_bytes zero v = []
network_bytes (suc n) v = network_bytes n (v / 256) ++ (v % 256 ∷ [])

pub length-network_bytes : (n v : ℕ) → length (network_bytes n v) ≡ n
unfolding network_bytes
length-network_bytes zero v = refl
length-network_bytes (suc n) v = ground (
  arith,
  length-append (network_bytes n (v / 256)) (v % 256 ∷ []),
  length-network_bytes n (v / 256),
)

abbrev number_of : ℕ → List ℕ → ℕ
number_of acc [] = acc
number_of acc (b ∷ l) = number_of (acc * 256 + b) l

number_of-append :
    (acc b : ℕ) (l : List ℕ) → number_of acc (l ++ (b ∷ [])) ≡ number_of acc l * 256 + b
number_of-append acc b [] = refl
number_of-append acc b (c ∷ l) = number_of-append (acc * 256 + c) b l

number_of-network_bytes : (n v : ℕ) → v < 256 ^ n → number_of 0 (network_bytes n v) ≡ v
unfolding network_bytes
number_of-network_bytes zero v h = omega arith
number_of-network_bytes (suc n) v h =
    let small : v / 256 < 256 ^ n = omega arith in
    ground (
      arith,
      number_of-append 0 (v % 256) (network_bytes n (v / 256)),
      number_of-network_bytes n (v / 256) small,
    )

read_more-prefix :
    (acc : ℕ) (pre buf : List ℕ)
    → read_more (length pre) acc (pre ++ buf) ≡ some (number_of acc pre, buf)
unfolding read_more
read_more-prefix acc [] buf = refl
read_more-prefix acc (b ∷ pre) buf = read_more-prefix (acc * 256 + b) pre buf

pub read_number-network_bytes :
    (n v : ℕ) (buf : List ℕ)
    → v < 256 ^ n
    → read_number n (network_bytes n v ++ buf) ≡ some (v, buf)
read_number-network_bytes n v buf h =
    subst (λ w. read_number n (network_bytes n v ++ buf) ≡ some (w, buf))
      (number_of-network_bytes n v h)
      (subst
        (λ k.
          read_more k 0 (network_bytes n v ++ buf) ≡ some (number_of 0 (network_bytes n v), buf))
        (length-network_bytes n v) (read_more-prefix 0 (network_bytes n v) buf))

pub skip-prefix : (pre buf : List ℕ) → skip (length pre) (pre ++ buf) ≡ some buf
unfolding skip
skip-prefix [] buf = refl
skip-prefix (b ∷ pre) buf = skip-prefix pre buf

pub advance-prefix : (pre buf : List ℕ) → advance (length pre) (pre ++ buf) ≡ buf
unfolding advance
advance-prefix [] buf = refl
advance-prefix (b ∷ pre) buf = advance-prefix pre buf
