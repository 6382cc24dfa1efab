-- ===== src/Parser/Parts.antt =====
-- mcproxy/src/parser/parser.cpp: `get_addr` and `parse_rule_part`, the addresses of a rule.
use mcproxy.Base.{
  Bool, ◌&&◌, ◌||◌, Option, none, some, List, [], ◌∷◌, ◌++◌, ltb, if◌then◌else◌, ℤ, pos, negsuc,
}
use mcproxy.Protocol.{GroupMemProtocol}
use mcproxy.Text.{Text, codes}
use mcproxy.Addr.{get_addr_family, zero_addr, is_valid, mask, broadcast_addr, Addr, Family}
use mcproxy.Rules.{AddrMatch, single_addr, addr_range}
use mcproxy.Ending.{◌>>=◌, Ending, returned, terminated, undefined}
use mcproxy.Token.{
  Token, tt_double_dot, tt_dot, tt_right_bracket, tt_range, tt_slash, tt_star, tt_pipe,
}
use mcproxy.Parser.{get_string, has_type, any_string, take_token, get_next_token, fail, Parser}
use mcproxy.Parser.Numbers.{stoi, protocol_family, addr_of_text, same_family}

-- What a token adds to the text of an address; `none` ends it.
unfoldable pub addr_part : Token → Option Text
addr_part t =
    if has_type t any_string
    then some (get_string t)
    else if has_type t tt_dot
    then some (codes ".")
    else if has_type t tt_double_dot
    then some (codes ":")
    else none

-- The loop of `get_addr`: the text, and the state after it.
unfoldable pub collect_addr : Token → List Token → Text × Parser
collect_addr t [] = elim (addr_part t) [
  | none ↦ ([], take_token (t ∷ []))
  | some s ↦ (s, take_token [])
]
collect_addr t (u ∷ l) =
    let after = collect_addr u l in
    elim (addr_part t) [ none ↦ ([], take_token (t ∷ u ∷ l)) | some s ↦ (s ++ after.0, after.1) ]

module _ (inet_pton : Family → Text → Option Addr) (gmp : GroupMemProtocol) where
  unfoldable pub get_addr : Parser → Ending (Addr × Parser)
  get_addr p =
      let after = collect_addr p.current_token p.rest in
      let result = addr_of_text inet_pton after.0 in
      if is_valid result && same_family (get_addr_family result) (protocol_family gmp)
      then returned (result, after.1)
      else fail

  -- `TT_RIGHT_BRACKET` or `TT_PIPE`, where a part of a rule ends.
  abbrev pub ends_part : Token → Bool
  ends_part t = has_type t tt_right_bracket || has_type t tt_pipe

  unfoldable pub range_part : Addr → Addr → Parser → Ending (AddrMatch × Parser)
  range_part addr_from addr_to p =
      if ends_part p.current_token then returned (addr_range addr_from addr_to, p) else fail

  -- The addresses of a prefix. A `throw` without an exception terminates the program.
  unfoldable pub prefix_part : Addr → Option ℤ → Parser → Ending (AddrMatch × Parser)
  prefix_part addr none p = fail
  prefix_part addr (some (negsuc n)) p = terminated
  prefix_part addr (some (pos n)) p = if ltb 128 n then terminated else elim (mask n addr) [
    | none ↦ undefined
    | some addr_from ↦ elim (broadcast_addr n addr) [
      | none ↦ undefined
      | some addr_to ↦ range_part addr_from addr_to (get_next_token p)
    ]
  ]

  -- After the first address.
  unfoldable pub rest_of_part : Addr → Parser → Ending (AddrMatch × Parser)
  rest_of_part addr_from p =
      let q = get_next_token p in
      if has_type p.current_token tt_slash
      then (if has_type q.current_token any_string
          then prefix_part addr_from (stoi (get_string q.current_token)) q
          else fail)
      else if ends_part p.current_token
      then returned (single_addr addr_from, p)
      else if has_type p.current_token tt_range
      then (if has_type q.current_token any_string
          then (do (addr_to, r) ← get_addr q; range_part addr_from addr_to r)
          else if has_type q.current_token tt_star
          then range_part addr_from (zero_addr (protocol_family gmp)) (get_next_token q)
          else fail)
      else fail

  unfoldable pub parse_rule_part : Parser → Ending (AddrMatch × Parser)
  parse_rule_part p =
      if has_type p.current_token any_string
      then (do (addr_from, q) ← get_addr p; rest_of_part addr_from q)
      else if has_type p.current_token tt_star
      then rest_of_part (zero_addr (protocol_family gmp)) (get_next_token p)
      else fail
