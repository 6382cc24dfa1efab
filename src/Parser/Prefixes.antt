-- ===== src/Parser/Prefixes.antt =====
-- mcproxy/src/parser/parser.cpp: how `parse_rule_part` ends for a prefix of an IPv4 address.
use Prim.Native.Nat.{bit_and, bit_or}
use mathlib.Core.Option
use mcproxy.Base.{
  ℕ, ◌-◌, ◌/◌, ◌^◌, ◌≤◌, ◌<◌, ◌≡◌, ap, ◌≢◌, ◌↔◌, ◌⊎◌, inl, inr, Option, none, some, List, ◌∷◌,
  arith, pos,
}
use mcproxy.Protocol.{GroupMemProtocol}
use mcproxy.Text.{Text}
use mcproxy.Addr.{ones_after, mask, broadcast_addr, Addr, Family, ipv4}
use mcproxy.Ending.{terminated, undefined}
use mcproxy.Token.{Token, tt_slash, tt_string}
use mcproxy.Parser.{get_type, get_string, has_type, take_token, get_next_token, Parser}
use mcproxy.Parser.Numbers.{stoi}
use mcproxy.Parser.Parts.{range_part, prefix_part, rest_of_part}

range_part-ending :
    (inet_pton : Family → Text → Option Addr) (gmp : GroupMemProtocol) (a b : Addr) (p : Parser)
    → (range_part inet_pton gmp a b p ≢ terminated) × (range_part inet_pton gmp a b p ≢ undefined)
unfolding range_part
range_part-ending inet_pton gmp a b p = ground arith

ones_after-cases :
    (n : ℕ)
    → ((n < 32) × (ones_after n ≡ some ((2 ^ 32 - 1) / 2 ^ n))) ⊎ ((32 ≤ n) × (ones_after n ≡ none))
unfolding ones_after
ones_after-cases n = ground arith

range_cases :
    (n w : ℕ)
    → ((n < 32)
        × (from : Addr) × (to : Addr) × (mask n (ipv4 w) ≡ some from)
        × (broadcast_addr n (ipv4 w) ≡ some to))
      ⊎ ((32 ≤ n) × (mask n (ipv4 w) ≡ none))
unfolding mask broadcast_addr
range_cases n w = elim (ones_after-cases n) [
  | inl (small, e) ↦ inl (
    small,
    _,
    _,
    ap (λ (o : Option ℕ). Option.map (λ m. ipv4 (bit_and w (2 ^ 32 - 1 - m))) o) e,
    ap (λ (o : Option ℕ). Option.map (λ m. ipv4 (bit_or w m)) o) e,
  )
  | inr (large, e) ↦
      inr (large, ap (λ (o : Option ℕ). Option.map (λ m. ipv4 (bit_and w (2 ^ 32 - 1 - m))) o) e)
]

prefix_part-ending :
    (inet_pton : Family → Text → Option Addr) (gmp : GroupMemProtocol) (w n : ℕ) (p : Parser)
    → ((prefix_part inet_pton gmp (ipv4 w) (some (pos n)) p ≡ terminated) ↔ (128 < n))
      × ((prefix_part inet_pton gmp (ipv4 w) (some (pos n)) p ≡ undefined) ↔ ((32 ≤ n) × (n ≤ 128)))
unfolding prefix_part
prefix_part-ending inet_pton gmp w n p = elim (range_cases n w) [
  | inl (small, from, to, e, e2) ↦
      ground (arith, range_part-ending inet_pton gmp from to (get_next_token p))
  | inr (large, e) ↦ ground arith
]

-- After an IPv4 address and `/`, a number that `std::stoi` reads ends the program if it is larger
-- than 128, and is undefined behaviour from 32 to 128.
pub rest_of_part-prefix :
    (inet_pton : Family → Text → Option Addr) (gmp : GroupMemProtocol) (w n : ℕ) (s : Text)
    (l : List Token)
    → stoi s ≡ some (pos n)
    → let ending = rest_of_part inet_pton gmp (ipv4 w) (take_token (tt_slash ∷ tt_string s ∷ l)) in
      ((ending ≡ terminated) ↔ (128 < n)) × ((ending ≡ undefined) ↔ ((32 ≤ n) × (n ≤ 128)))
unfolding rest_of_part has_type get_type get_next_token get_string
rest_of_part-prefix inet_pton gmp w n s l h =
    rw h (prefix_part-ending inet_pton gmp w n (take_token (tt_string s ∷ l)))
