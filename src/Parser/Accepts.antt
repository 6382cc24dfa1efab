-- ===== src/Parser/Accepts.antt =====
-- mcproxy/src/parser/parser.cpp: `parse_rule_part` accepts the parts of rules that are written by the
-- grammar.
use mathlib.Core.List.{append-nil}
use mcproxy.Base.{◌≡◌, refl, ap, ◌∙◌, true, false, Option, some, List, [], ◌∷◌, ◌++◌, map}
use mcproxy.Protocol.{GroupMemProtocol}
use mcproxy.Text.{Text}
use mcproxy.Addr.{Addr, Family}
use mcproxy.Rules.{AddrMatch, Table, single_addr, addr_range}
use mcproxy.Ending.{returned}
use mcproxy.Token.{Token, tt_right_bracket, tt_range, tt_slash, tt_pipe}
use mcproxy.Parser.{get_string, has_type, take_token, get_next_token, Parser}
use mcproxy.Parser.Parts.{
  addr_part, collect_addr, get_addr, ends_part, range_part, rest_of_part, parse_rule_part,
}
use mcproxy.Parser.Grammar.{
  part_token, part_text, text_of, write_spelling, write_part, Means, IsKnownPart, AddrPart,
  Spelling, word_part, dot_part, double_dot_part, star_spelling, word_spelling,
}

-- A token at which an address is over.
pub StopsAddr : Token → Type 0
StopsAddr e = (l : List Token) → collect_addr e l ≡ ([], take_token (e ∷ l))

tt_range-StopsAddr : StopsAddr tt_range
unfolding StopsAddr collect_addr addr_part has_type
tt_range-StopsAddr [] = refl
tt_range-StopsAddr (t ∷ l) = refl

pub tt_pipe-StopsAddr : StopsAddr tt_pipe
unfolding StopsAddr collect_addr addr_part has_type
tt_pipe-StopsAddr [] = refl
tt_pipe-StopsAddr (t ∷ l) = refl

pub tt_right_bracket-StopsAddr : StopsAddr tt_right_bracket
unfolding StopsAddr collect_addr addr_part has_type
tt_right_bracket-StopsAddr [] = refl
tt_right_bracket-StopsAddr (t ∷ l) = refl

addr_part-part_token : (q : AddrPart) → addr_part (part_token q) ≡ some (part_text q)
unfolding addr_part has_type get_string
addr_part-part_token (word_part s) = refl
addr_part-part_token dot_part = refl
addr_part-part_token double_dot_part = refl

collect_addr-then :
    (t u : Token) (s r : Text) (l : List Token) (p : Parser)
    → addr_part t ≡ some s
    → collect_addr u l ≡ (r, p)
    → collect_addr t (u ∷ l) ≡ (s ++ r, p)
unfolding collect_addr
collect_addr-then t u s r l p h k = rw (h, k, collect_addr) refl

-- The tokens of an address give its text.
collect_addr-part :
    (q : AddrPart) (parts : List AddrPart) (e : Token) (l : List Token)
    → StopsAddr e
    → collect_addr (part_token q) (map part_token parts ++ e ∷ l)
      ≡ (text_of (part_text q) parts, take_token (e ∷ l))
unfolding StopsAddr
collect_addr-part q [] e l h =
    collect_addr-then (part_token q) e (part_text q) [] l _ (addr_part-part_token q) (h l)
    ∙ ap (λ (t : Text). (t, take_token (e ∷ l))) (append-nil (part_text q))
collect_addr-part q (p ∷ parts) e l h =
    collect_addr-then (part_token q) (part_token p) (part_text q) (text_of (part_text p) parts) _ _
      (addr_part-part_token q) (collect_addr-part p parts e l h)

module _ (show : Addr → Spelling) (inet_pton : Family → Text → Option Addr) (gmp : GroupMemProtocol)
    (gts : List Table) where
  get_addr-known :
      (a : Addr) (s : Text) (parts : List AddrPart) (e : Token) (l : List Token)
      → Means show inet_pton gmp gts (word_spelling s parts) a
      → StopsAddr e
      → get_addr inet_pton gmp (take_token (write_spelling (word_spelling s parts) (e ∷ l)))
        ≡ returned (a, take_token (e ∷ l))
  unfolding get_addr
  get_addr-known a s parts e l (h, h2) he = rw (collect_addr-part (word_part s) parts e l he, h, h2)

  range_part-written :
      (a b : Addr) (e : Token) (l : List Token)
      → ends_part inet_pton gmp e ≡ true
      → range_part inet_pton gmp a b (take_token (e ∷ l))
        ≡ returned (addr_range a b, take_token (e ∷ l))
  unfolding range_part
  range_part-written a b e l hp = rw hp

  rest_of_part-single :
      (a : Addr) (e : Token) (l : List Token)
      → ends_part inet_pton gmp e ≡ true
      → has_type e tt_slash ≡ false
      → rest_of_part inet_pton gmp a (take_token (e ∷ l))
        ≡ returned (single_addr a, take_token (e ∷ l))
  unfolding rest_of_part
  rest_of_part-single a e l hp hs = rw (hs, hp)

  rest_of_part-range :
      (a b : Addr) (o : Spelling) (e : Token) (l : List Token)
      → Means show inet_pton gmp gts o b
      → StopsAddr e
      → ends_part inet_pton gmp e ≡ true
      → rest_of_part inet_pton gmp a (take_token (tt_range ∷ write_spelling o (e ∷ l)))
        ≡ returned (addr_range a b, take_token (e ∷ l))
  unfolding rest_of_part has_type get_next_token
  rest_of_part-range a b star_spelling e l hb he hp = rw hb (range_part-written a b e l hp)
  rest_of_part-range a b (word_spelling s parts) e l hb he hp =
      rw (get_addr-known b s parts e l hb he) (range_part-written a b e l hp)

  -- The first address of a part, and what follows it.
  first_part :
      (a : Addr) (o : Spelling) (m : AddrMatch) (q : Parser) (e : Token) (l : List Token)
      → Means show inet_pton gmp gts o a
      → StopsAddr e
      → rest_of_part inet_pton gmp a (take_token (e ∷ l)) ≡ returned (m, q)
      → parse_rule_part inet_pton gmp (take_token (write_spelling o (e ∷ l))) ≡ returned (m, q)
  unfolding parse_rule_part has_type get_next_token
  first_part a star_spelling m q e l h he r = rw h r
  first_part a (word_spelling s parts) m q e l h he r = rw (get_addr-known a s parts e l h he) r

  pub parse_rule_part-written :
      (m : AddrMatch) (e : Token) (l : List Token)
      → IsKnownPart show inet_pton gmp gts m
      → StopsAddr e
      → ends_part inet_pton gmp e ≡ true
      → has_type e tt_slash ≡ false
      → parse_rule_part inet_pton gmp (take_token (write_part show m (e ∷ l)))
        ≡ returned (m, take_token (e ∷ l))
  parse_rule_part-written (single_addr a) e l h he hp hs =
      first_part a (show a) (single_addr a) (take_token (e ∷ l)) e l h he
        (rest_of_part-single a e l hp hs)
  parse_rule_part-written (addr_range a b) e l (ha, hb) he hp hs =
      first_part a (show a) (addr_range a b) (take_token (e ∷ l)) tt_range
        (write_spelling (show b) (e ∷ l)) ha tt_range-StopsAddr
        (rest_of_part-range a b (show b) e l hb he hp)
