-- ===== src/Addr.antt =====
-- mcproxy/include/utils/addr_storage.hpp and mcproxy/src/utils/addr_storage.cpp: addresses of both
-- families. The address fields of the sockets' structures are kept in network byte order, and here
-- stand for the numbers that `ntohl` gives; an IPv6 address is its four words `s6_addr32`.
use Prim.Native.Nat.{bit_and, bit_or}
use mathlib.Core.Option
pub mod Value
pub mod Steps
pub mod Order
pub mod Subnet
pub mod Bits
use mcproxy.Base.{
  ℕ, ◌+◌, ◌-◌, ◌*◌, ◌/◌, ◌%◌, ◌^◌, Bool, true, false, not, ◌&&◌, ◌||◌, Option, none, some, List, [],
  ◌∷◌, ◌++◌, map, ltb, leb, ◌==◌, if◌then◌else◌,
}
use mcproxy.TimersValues.{TimersValues}
use mcproxy.World.{World}
use mcproxy.Querier.Records.{Querier}
use mcproxy.Querier.Invariant.{Timed}
use mcproxy.MessageQueue.{MessageQueue}
use mcproxy.Text.{Text}

pub data Addr : Type 0 where
  -- `AF_UNSPEC`: invalid
  unspec : Addr
  ipv4 : ℕ → Addr
  ipv6 : ℕ → ℕ → ℕ → ℕ → Addr

pub data Family : Type 0 where
  af_unspec af_inet af_inet6 : Family

unfoldable pub get_addr_family : Addr → Family
get_addr_family unspec = af_unspec
get_addr_family (ipv4 a) = af_inet
get_addr_family (ipv6 a b c d) = af_inet6

-- `addr_storage(addr_family)`: all bytes are zero.
unfoldable pub zero_addr : Family → Addr
zero_addr af_unspec = unspec
zero_addr af_inet = ipv4 0
zero_addr af_inet6 = ipv6 0 0 0 0

unfoldable pub is_valid : Addr → Bool
is_valid unspec = false
is_valid (ipv4 a) = true
is_valid (ipv6 a b c d) = true

-- `operator==`
unfoldable pub addr_eq : Addr → Addr → Bool
addr_eq (ipv4 a) (ipv4 b) = a == b
addr_eq (ipv6 a b c d) (ipv6 e f g h) = (a == e) && (b == f) && (c == g) && (d == h)
addr_eq _ _ = false

-- The bytes `s6_addr` of a word.
abbrev pub bytes_of : ℕ → List ℕ
bytes_of w = w / 2 ^ 24 % 256 ∷ w / 2 ^ 16 % 256 ∷ w / 2 ^ 8 % 256 ∷ w % 256 ∷ []

abbrev pub s6_addr : ℕ → ℕ → ℕ → ℕ → List ℕ
s6_addr a b c d = bytes_of a ++ bytes_of b ++ bytes_of c ++ bytes_of d

-- The loop over the bytes in `operator<`.
unfoldable pub bytes_lt : List ℕ → List ℕ → Bool
bytes_lt [] t = false
bytes_lt (x ∷ s) [] = false
bytes_lt (x ∷ s) (y ∷ t) =
    let rest = bytes_lt s t in if ltb y x then false else if ltb x y then true else rest

-- `operator<`; addresses of different families are not ordered.
unfoldable pub addr_lt : Addr → Addr → Bool
addr_lt (ipv4 a) (ipv4 b) = ltb a b
addr_lt (ipv6 a b c d) (ipv6 e f g h) = bytes_lt (s6_addr a b c d) (s6_addr e f g h)
addr_lt _ _ = false

-- `operator>`
unfoldable pub addr_gt : Addr → Addr → Bool
addr_gt a b = not (addr_lt a b) && not (addr_eq a b)

-- `operator<=`
unfoldable pub addr_le : Addr → Addr → Bool
addr_le a b = addr_lt a b || addr_eq a b

-- `operator>=`
unfoldable pub addr_ge : Addr → Addr → Bool
addr_ge a b = not (addr_lt a b)

-- A word plus and minus one.
abbrev pub word_inc : ℕ → ℕ
word_inc w = (w + 1) % 2 ^ 32

abbrev pub word_dec : ℕ → ℕ
word_dec w = (w + (2 ^ 32 - 1)) % 2 ^ 32

-- The loops of `operator++` and `operator--` over the words, the last one first: they go on while a
-- word becomes zero, or all ones.
unfoldable pub carry_up : List ℕ → List ℕ
carry_up [] = []
carry_up (w ∷ l) =
    let rest = carry_up l in if word_inc w == 0 then word_inc w ∷ rest else word_inc w ∷ l

unfoldable pub carry_down : List ℕ → List ℕ
carry_down [] = []
carry_down (w ∷ l) =
    let rest = carry_down l in
    if word_dec w == 2 ^ 32 - 1 then word_dec w ∷ rest else word_dec w ∷ l

-- The address of four words, the last one first.
abbrev pub of_words : List ℕ → Addr
of_words (d ∷ c ∷ b ∷ a ∷ []) = ipv6 a b c d
of_words _ = unspec

-- `operator++()`
unfoldable pub prefix_inc : Addr → Addr
prefix_inc unspec = unspec
prefix_inc (ipv4 a) = ipv4 (word_inc a)
prefix_inc (ipv6 a b c d) = of_words (carry_up (d ∷ c ∷ b ∷ a ∷ []))

-- `operator--()`
unfoldable pub prefix_dec : Addr → Addr
prefix_dec unspec = unspec
prefix_dec (ipv4 a) = ipv4 (word_dec a)
prefix_dec (ipv6 a b c d) = of_words (carry_down (d ∷ c ∷ b ∷ a ∷ []))

-- `operator++(int)` and `operator--(int)`: the new address, which is also the value of the call.
-- Both increment.
unfoldable pub postfix_inc : Addr → Addr
postfix_inc a = prefix_inc a

unfoldable pub postfix_dec : Addr → Addr
postfix_dec a = prefix_inc a

-- `static_cast<unsigned int>(-1) >> suffix`. `none`: undefined behaviour, the shift is as long as
-- the word.
unfoldable pub ones_after : ℕ → Option ℕ
ones_after suffix = if ltb suffix 32 then some ((2 ^ 32 - 1) / 2 ^ suffix) else none

-- A word of an IPv6 address in `mask`, by the number of its bits that `suffix` keeps; the shift is
-- by `suffix` in every word. From `negative_suffix` on the conversion to `int` is negative for every
-- word; below it, where it would be so for some, the loop has stopped at the last word.
abbrev negative_suffix : ℕ
negative_suffix = 2 ^ 31 + 3 * 32

unfoldable pub mask_word : ℕ → ℕ → ℕ → Option ℕ
mask_word i suffix w =
    let part = Option.map (λ m. bit_and w (2 ^ 32 - 1 - m)) (ones_after suffix) in
    if leb suffix (i * 32) || leb negative_suffix suffix
    then some 0
    else if ltb (suffix - i * 32) 32
    then part
    else some w

unfoldable pub broadcast_word : ℕ → ℕ → ℕ → Option ℕ
broadcast_word i suffix w =
    let part = Option.map (λ m. bit_or w m) (ones_after suffix) in
    if leb suffix (i * 32) || leb negative_suffix suffix
    then some (2 ^ 32 - 1)
    else if ltb (suffix - i * 32) 32
    then part
    else some w

-- The four words of an address, each of which the loop may leave undefined. The loop stops at the
-- first word that is kept whole, and so are those before it.
unfoldable pub each_word : (ℕ → ℕ → Option ℕ) → ℕ → ℕ → ℕ → ℕ → Option Addr
each_word f a b c d = elim (f 3 d) [
  | none ↦ none
  | some d' ↦ elim (f 2 c) [
    | none ↦ none
    | some c' ↦ elim (f 1 b) [ none ↦ none | some b' ↦ Option.map (λ a'. ipv6 a' b' c' d') (f 0 a) ]
  ]
]

-- `mask(suffix)`. `none`: undefined behaviour.
unfoldable pub mask : ℕ → Addr → Option Addr
mask suffix unspec = some unspec
mask suffix (ipv4 a) = Option.map (λ m. ipv4 (bit_and a (2 ^ 32 - 1 - m))) (ones_after suffix)
mask suffix (ipv6 a b c d) = each_word (λ i w. mask_word i suffix w) a b c d

-- `broadcast_addr(suffix)`. `none`: undefined behaviour.
unfoldable pub broadcast_addr : ℕ → Addr → Option Addr
broadcast_addr suffix unspec = some unspec
broadcast_addr suffix (ipv4 a) = Option.map (λ m. ipv4 (bit_or a m)) (ones_after suffix)
broadcast_addr suffix (ipv6 a b c d) = each_word (λ i w. broadcast_word i suffix w) a b c d

-- `IN_MULTICAST` and `IN6_IS_ADDR_MULTICAST`
unfoldable pub is_multicast_addr : Addr → Bool
is_multicast_addr unspec = false
is_multicast_addr (ipv4 a) = bit_and a 0xf0000000 == 0xe0000000
is_multicast_addr (ipv6 a b c d) = a / 2 ^ 24 == 0xff
