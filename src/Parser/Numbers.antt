-- ===== src/Parser/Numbers.antt =====
-- `std::stoi` and the address of a text, as mcproxy/src/parser/parser.cpp uses them;
-- mcproxy/src/utils/addr_storage.cpp: the conversion from a text; mcproxy/src/proxy/def.cpp: the
-- family of a protocol.
use mcproxy.Base.{
  ℕ, ◌+◌, ◌-◌, ◌*◌, ◌^◌, Bool, true, false, ◌&&◌, ◌||◌, Option, none, some, [], ◌∷◌, ltb, leb, ◌==◌,
  if◌then◌else◌, ℤ, pos, negsuc,
}
use mcproxy.Protocol.{is_ipv4, is_ipv6, GroupMemProtocol}
use mcproxy.Text.{Text}
use mcproxy.Addr.{Addr, Family, unspec, af_unspec, af_inet, af_inet6}
use mcproxy.Scanner.{is_digit, skip_spaces}

-- The digits of a decimal number, after those that made `n`.
unfoldable pub decimal : ℕ → Text → ℕ
decimal n [] = n
decimal n (c ∷ s) = let rest = decimal (n * 10 + (c - b'0')) s in if is_digit c then rest else n

-- The digits after the sign; `none`: an exception, for no digit or out of the range of an `int`.
unfoldable pub positive_int : Text → Option ℤ
positive_int [] = none
positive_int (c ∷ s) =
    let n = decimal 0 (c ∷ s) in if is_digit c && ltb n (2 ^ 31) then some (pos n) else none

unfoldable pub negative_int : Text → Option ℤ
negative_int [] = none
negative_int (c ∷ s) =
    let n = decimal 0 (c ∷ s) in
    if is_digit c && leb n (2 ^ 31)
    then (if n == 0 then some (pos 0) else some (negsuc (n - 1)))
    else none

abbrev pub signed_int : Text → Option ℤ
signed_int [] = none
signed_int (c ∷ s) =
    if c == b'-' then negative_int s else if c == b'+' then positive_int s else positive_int (c ∷ s)

-- `std::stoi`
unfoldable pub stoi : Text → Option ℤ
stoi s = signed_int (skip_spaces s)

-- `get_addr_family(gmp)`
unfoldable pub protocol_family : GroupMemProtocol → Family
protocol_family gmp = if is_ipv4 gmp then af_inet else if is_ipv6 gmp then af_inet6 else af_unspec

unfoldable pub has_char : ℕ → Text → Bool
has_char c [] = false
has_char c (d ∷ s) = (c == d) || has_char c s

-- `addr_storage(s)`, where `inet_pton` gives the address of a text that it converts.
unfoldable pub addr_of_text : (Family → Text → Option Addr) → Text → Addr
addr_of_text inet_pton s = elim (inet_pton (if has_char b':' s then af_inet6 else af_inet) s) [
  | none ↦ unspec
  | some a ↦ a
]

unfoldable pub same_family : Family → Family → Bool
same_family af_unspec af_unspec = true
same_family af_inet af_inet = true
same_family af_inet6 af_inet6 = true
same_family _ _ = false
