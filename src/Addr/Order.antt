-- ===== src/Addr/Order.antt =====
-- mcproxy/src/utils/addr_storage.cpp: the comparisons.
use mcproxy.Base.{
  ℕ, ◌+◌, ◌*◌, ◌^◌, ◌<◌, ◌≡◌, refl, ap, true, List, [], ◌∷◌, ◌++◌, arith, ltb, leb, ◌==◌, length,
  All,
}
use mcproxy.Addr.{
  get_addr_family, is_valid, addr_eq, bytes_of, bytes_lt, addr_lt, addr_gt, addr_le, addr_ge, Addr,
  unspec, ipv4, ipv6,
}
use mcproxy.Addr.Value.{IsWords, IsAddr, value}

-- The number that the bytes `s` make, the first one first, after those that made `n`.
horner : ℕ → List ℕ → ℕ
horner n [] = n
horner n (x ∷ s) = horner (n * 256 + x) s

IsBytes : List ℕ → Type 0
IsBytes s = All (λ x. x < 256) s

horner_lt :
    (m n : ℕ) (s t : List ℕ)
    → length s ≡ length t
    → IsBytes s
    → IsBytes t
    → m < n
    → horner m s < horner n t
unfolding horner IsBytes
horner_lt m n [] [] e hs ht h = h
horner_lt m n [] (y ∷ t) e hs ht h = ground arith
horner_lt m n (x ∷ s) [] e hs ht h = ground arith
horner_lt m n (x ∷ s) (y ∷ t) e (hx, hs) (hy, ht) h =
    horner_lt (m * 256 + x) (n * 256 + y) s t (omega arith) hs ht (omega arith)

bytes_lt-horner :
    (n : ℕ) (s t : List ℕ)
    → length s ≡ length t
    → IsBytes s
    → IsBytes t
    → bytes_lt s t ≡ ltb (horner n s) (horner n t)
unfolding horner IsBytes bytes_lt
bytes_lt-horner n [] [] e hs ht = ground arith
bytes_lt-horner n [] (y ∷ t) e hs ht = ground arith
bytes_lt-horner n (x ∷ s) [] e hs ht = ground arith
bytes_lt-horner n (x ∷ s) (y ∷ t) e (hx, hs) (hy, ht) = ground (
  arith,
  bytes_lt-horner (n * 256 + x) s t,
  horner_lt (n * 256 + x) (n * 256 + y) s t,
  horner_lt (n * 256 + y) (n * 256 + x) t s,
)

horner-bytes_of :
    (n w : ℕ) (s : List ℕ) → w < 2 ^ 32 → horner n (bytes_of w ++ s) ≡ horner (n * 2 ^ 32 + w) s
unfolding horner
horner-bytes_of n w s h = ap (λ (m : ℕ). horner m s) (omega arith)

-- The bytes of words, the first word first.
bytes_all : List ℕ → List ℕ
bytes_all [] = []
bytes_all (w ∷ l) = bytes_of w ++ bytes_all l

bytes_all-IsBytes : (l : List ℕ) → IsBytes (bytes_all l)
unfolding IsBytes bytes_all
bytes_all-IsBytes [] = ground arith
bytes_all-IsBytes (w ∷ l) = ground (arith, bytes_all-IsBytes l)

length-bytes_all : (l : List ℕ) → length (bytes_all l) ≡ 4 * length l
unfolding bytes_all
length-bytes_all [] = refl
length-bytes_all (w ∷ l) = omega (arith, length-bytes_all l)

horner-bytes_all :
    (a b c d : ℕ)
    → IsWords (d ∷ c ∷ b ∷ a ∷ [])
    → horner 0 (bytes_all (a ∷ b ∷ c ∷ d ∷ [])) ≡ value (ipv6 a b c d)
unfolding bytes_all horner
horner-bytes_all a b c d h = omega arith

words_lt :
    (a b c d a' b' c' d' : ℕ)
    → IsWords (d ∷ c ∷ b ∷ a ∷ [])
    → IsWords (d' ∷ c' ∷ b' ∷ a' ∷ [])
    → bytes_lt (bytes_all (a ∷ b ∷ c ∷ d ∷ [])) (bytes_all (a' ∷ b' ∷ c' ∷ d' ∷ []))
      ≡ ltb (value (ipv6 a b c d)) (value (ipv6 a' b' c' d'))
words_lt a b c d a' b' c' d' h h' =
    let s = a ∷ b ∷ c ∷ d ∷ [] in
    let t = a' ∷ b' ∷ c' ∷ d' ∷ [] in
    rw (
      bytes_lt-horner 0 (bytes_all s) (bytes_all t)
          (omega (arith, length-bytes_all s, length-bytes_all t)) (bytes_all-IsBytes s)
          (bytes_all-IsBytes t),
      horner-bytes_all a b c d h,
      horner-bytes_all a' b' c' d' h',
    )

-- Addresses of one family are ordered as the numbers they are.
pub addr_lt-value :
    (a b : Addr)
    → IsAddr a
    → IsAddr b
    → get_addr_family a ≡ get_addr_family b
    → addr_lt a b ≡ ltb (value a) (value b)
unfolding addr_lt bytes_all get_addr_family
addr_lt-value unspec unspec ha hb e = refl
addr_lt-value (ipv4 a) (ipv4 b) ha hb e = refl
addr_lt-value (ipv6 a b c d) (ipv6 a' b' c' d') ha hb e = words_lt a b c d a' b' c' d' ha hb
addr_lt-value _ _ ha hb e = ground arith

pub addr_eq-value :
    (a b : Addr)
    → IsAddr a
    → IsAddr b
    → is_valid a ≡ true
    → get_addr_family a ≡ get_addr_family b
    → addr_eq a b ≡ (value a == value b)
unfolding addr_eq get_addr_family is_valid
addr_eq-value (ipv4 a) (ipv4 b) ha hb v e = refl
addr_eq-value (ipv6 a b c d) (ipv6 a' b' c' d') ha hb v e = ground arith
addr_eq-value _ _ ha hb v e = ground arith

-- All five comparisons of two valid addresses of one family are those of the numbers that they are.
pub addr_lt-numbers :
    (a b : Addr)
    → IsAddr a
    → IsAddr b
    → is_valid a ≡ true
    → get_addr_family a ≡ get_addr_family b
    → (addr_eq a b ≡ (value a == value b))
      × (addr_lt a b ≡ ltb (value a) (value b))
      × (addr_le a b ≡ leb (value a) (value b))
      × (addr_gt a b ≡ ltb (value b) (value a))
      × (addr_ge a b ≡ leb (value b) (value a))
unfolding addr_le addr_gt addr_ge
addr_lt-numbers a b ha hb v e =
    ground (arith, addr_eq-value a b ha hb v e, addr_lt-value a b ha hb e)
