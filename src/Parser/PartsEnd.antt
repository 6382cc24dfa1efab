-- ===== src/Parser/PartsEnd.antt =====
-- mcproxy/src/parser/parser.cpp: parsing a part of a rule comes to an end.
use mcproxy.Base.{
  ℕ, ◌+◌, ◌≤◌, ◌≡◌, false, ◌||◌, Option, none, some, List, [], ◌∷◌, arith, ltb, length, ℤ, pos,
  negsuc,
}
use mcproxy.Protocol.{GroupMemProtocol}
use mcproxy.Text.{Text}
use mcproxy.Addr.{mask, broadcast_addr, Addr, Family}
use mcproxy.Ending.{
  Ends, thrown-Ends, terminated-Ends, undefined-Ends, returned-Ends, >>=-Ends, if-Ends, Option-Ends,
}
use mcproxy.Token.{Token, tt_right_bracket, tt_range, tt_slash, tt_star, tt_pipe, tt_nil}
use mcproxy.Parser.{get_type, get_string, has_type, any_string, take_token, get_next_token, Parser}
use mcproxy.Parser.Numbers.{stoi}
use mcproxy.Parser.Parts.{
  collect_addr, get_addr, range_part, prefix_part, rest_of_part, parse_rule_part,
}

pub take_token-length : (l : List Token) → length (take_token l).rest ≤ length l
take_token-length [] = omega arith
take_token-length (t ∷ l) = omega arith

pub get_next_token-length : (p : Parser) → length (get_next_token p).rest ≤ length p.rest
unfolding get_next_token
get_next_token-length p = take_token-length p.rest

-- A token that is there takes one from the rest.
pub take_token-shorter :
    (l : List Token)
    → has_type (take_token l).current_token tt_nil ≡ false
    → length (take_token l).rest + 1 ≤ length l
unfolding has_type get_type
take_token-shorter [] h = ground arith
take_token-shorter (t ∷ l) h = omega arith

pub get_next_token-shorter :
    (p : Parser)
    → has_type (get_next_token p).current_token tt_nil ≡ false
    → length (get_next_token p).rest + 1 ≤ length p.rest
unfolding get_next_token
get_next_token-shorter p h = take_token-shorter p.rest h

collect_addr-length : (t : Token) (l : List Token) → length (collect_addr t l).1.rest ≤ length l
unfolding collect_addr
collect_addr-length t [] = ground arith
collect_addr-length t (u ∷ l) = ground (arith, collect_addr-length u l)

-- At most `n` tokens are left.
unfoldable pub LeftAtMost {ℓ} : {A : Type ℓ} → ℕ → A × Parser → Type 0
LeftAtMost n r = length r.1.rest ≤ n

module _ (inet_pton : Family → Text → Option Addr) (gmp : GroupMemProtocol) (n : ℕ) where
  get_addr-Ends : (p : Parser) → length p.rest ≤ n → Ends (LeftAtMost n) (get_addr inet_pton gmp p)
  unfolding get_addr LeftAtMost Ends
  get_addr-Ends p h = ground (arith, collect_addr-length p.current_token p.rest)

  range_part-Ends :
      (a b : Addr) (p : Parser)
      → length p.rest ≤ n
      → Ends (LeftAtMost n) (range_part inet_pton gmp a b p)
  unfolding range_part LeftAtMost Ends
  range_part-Ends a b p h = ground arith

  prefix_part-Ends :
      (a : Addr) (o : Option ℤ) (p : Parser)
      → length p.rest ≤ n
      → Ends (LeftAtMost n) (prefix_part inet_pton gmp a o p)
  unfolding prefix_part LeftAtMost
  prefix_part-Ends a none p h = thrown-Ends _ _
  prefix_part-Ends a (some (negsuc k)) p h = terminated-Ends _
  prefix_part-Ends a (some (pos k)) p h =
      if-Ends (LeftAtMost n) (ltb 128 k) _ _ (λ e. terminated-Ends _)
        (λ e.
          Option-Ends (LeftAtMost n) (mask k a) _ _ (λ e2. undefined-Ends _)
            (λ from e2.
              Option-Ends (LeftAtMost n) (broadcast_addr k a) _ _ (λ e3. undefined-Ends _)
                (λ to e3.
                  range_part-Ends from to (get_next_token p)
                    (omega (arith, get_next_token-length p)))))

  rest_of_part-Ends :
      (a : Addr) (p : Parser)
      → length p.rest ≤ n
      → Ends (LeftAtMost n) (rest_of_part inet_pton gmp a p)
  unfolding rest_of_part LeftAtMost
  rest_of_part-Ends a p h =
      let q = get_next_token p in
      let hq = get_next_token-length p in
      let c = p.current_token in
      let d = q.current_token in
      if-Ends (LeftAtMost n) (has_type c tt_slash) _ _
        (λ e.
          if-Ends (LeftAtMost n) (has_type d any_string) _ _
            (λ e2. prefix_part-Ends a (stoi (get_string d)) q (omega arith))
            (λ e2. thrown-Ends _ _))
        (λ e.
          if-Ends (LeftAtMost n) (has_type c tt_right_bracket || has_type c tt_pipe) _ _
            (λ e2. returned-Ends _ _ h)
            (λ e2.
              if-Ends (LeftAtMost n) (has_type c tt_range) _ _
                (λ e3.
                  if-Ends (LeftAtMost n) (has_type d any_string) _ _
                    (λ e4.
                      >>=-Ends {A = Addr × Parser} (LeftAtMost n) _ _ _
                        (get_addr-Ends q (omega arith))
                        (λ (r : Addr × Parser). λ hr. range_part-Ends a r.0 r.1 hr))
                    (λ e4.
                      if-Ends (LeftAtMost n) (has_type d tt_star) _ _
                        (λ e5.
                          range_part-Ends a _ (get_next_token q)
                            (omega (arith, get_next_token-length q)))
                        (λ e5. thrown-Ends _ _)))
                (λ e3. thrown-Ends _ _)))

  pub parse_rule_part-Ends :
      (p : Parser) → length p.rest ≤ n → Ends (LeftAtMost n) (parse_rule_part inet_pton gmp p)
  unfolding parse_rule_part LeftAtMost
  parse_rule_part-Ends p h =
      let c = p.current_token in
      if-Ends (LeftAtMost n) (has_type c any_string) _ _
        (λ e.
          >>=-Ends {A = Addr × Parser} (LeftAtMost n) _ _ _ (get_addr-Ends p h)
            (λ (r : Addr × Parser). λ hr. rest_of_part-Ends r.0 r.1 hr))
        (λ e.
          if-Ends (LeftAtMost n) (has_type c tt_star) _ _
            (λ e2. rest_of_part-Ends _ (get_next_token p) (omega (arith, get_next_token-length p)))
            (λ e2. thrown-Ends _ _))
