-- ===== src/Parser/TablesEnd.antt =====
-- mcproxy/src/parser/parser.cpp: parsing a table comes to an end, and its references are those of
-- tables that are there.
use mcproxy.Base.{
  ℕ, zero, suc, ◌+◌, ◌≤◌, ◌≡◌, sym, subst, inl, inr, true, false, not, Option, none, some, List, [],
  arith, Bool-cases, length,
}
use mcproxy.Protocol.{GroupMemProtocol}
use mcproxy.Text.{Text}
use mcproxy.Addr.{Addr, Family}
use mcproxy.Rules.{AddrMatch, RuleBox, Table, RuleList}
use mcproxy.Rules.Finite.{RefsIn, TableRefsIn, ListRefsIn}
use mcproxy.Ending.{
  Ends, thrown-Ends, returned-Ends, >>=-Ends, if-Ends, Ends-map, Ending, failed_to_parse, thrown,
}
use mcproxy.Token.{Token, tt_table, tt_left_bracket, tt_right_bracket, tt_pipe, tt_nil}
use mcproxy.Parser.{
  get_type, get_string, has_type, any_string, get_next_token, get_parser_type, Parser,
}
use mcproxy.Parser.Parts.{parse_rule_part}
use mcproxy.Parser.Tables.{rule_body, parse_rule, after_rule, parse_rules}
use mcproxy.Parser.PartsEnd.{
  get_next_token-length, get_next_token-shorter, LeftAtMost, parse_rule_part-Ends,
}

-- The kind of a command is found without fuel.
pub get_parser_type-Ends : (p : Parser) → Ends (λ k. Unit {0}) (get_parser_type p)
unfolding get_parser_type Ends
get_parser_type-Ends p = ground arith

module _ (gts : List Table) where
  -- What is known of a result when at most `n` tokens were left before.
  unfoldable pub TableOk : ℕ → Table × Parser → Type 0
  TableOk n (t, q) = (length q.rest ≤ n) × TableRefsIn gts t

  unfoldable pub ListOk : ℕ → RuleList × Parser → Type 0
  ListOk n (l, q) = (length q.rest ≤ n) × ListRefsIn gts l

  pub RuleOk : ℕ → Option RuleBox × Parser → Type 0
  RuleOk n (none, q) = length q.rest ≤ n
  RuleOk n (some r, q) = (length q.rest + 1 ≤ n) × RefsIn gts r

pub TableOk-le :
    (gts : List Table) (r : Table × Parser) (m n : ℕ) → m ≤ n → TableOk gts m r → TableOk gts n r
unfolding TableOk
TableOk-le gts r m n h k = (omega (arith, k.0), k.1)

RuleOk-le :
    (gts : List Table) (r : Option RuleBox × Parser) (m n : ℕ)
    → m ≤ n
    → RuleOk gts m r
    → RuleOk gts n r
unfolding RuleOk
RuleOk-le gts (none, q) m n h k = omega arith
RuleOk-le gts (some r, q) m n h k = (omega (arith, k.0), k.1)

tt_table-not_nil : (t : Token) → has_type t tt_table ≡ true → has_type t tt_nil ≡ false
unfolding has_type get_type
tt_table-not_nil t h = ground arith

module _ (inet_pton : Family → Text → Option Addr) (gmp : GroupMemProtocol) (gts : List Table)
    (more : Parser → Ending (RuleList × Parser)) (n : ℕ)
    (more-Ends : (q : Parser)
      → length q.rest + 1 ≤ n
      → Ends (ListOk gts (length q.rest)) (more q)) where
  after_rule-Ends :
      (r : Option RuleBox × Parser)
      → RuleOk gts n r
      → Ends (ListOk gts n) (after_rule inet_pton gmp more r)
  unfolding after_rule RuleOk ListOk
  after_rule-Ends (none, q) h = returned-Ends _ _ (h, tt)
  after_rule-Ends (some r, q) (h, hr) =
      >>=-Ends {A = RuleList × Parser} (ListOk gts (length (get_next_token q).rest)) _ _ _
        (more-Ends (get_next_token q) (omega (arith, get_next_token-length q)))
        (λ (u : RuleList × Parser).
          λ hu. returned-Ends _ _ (omega (arith, hu.0, get_next_token-length q), (hr, hu.1)))

module _ (inet_pton : Family → Text → Option Addr) (gmp : GroupMemProtocol) where
  parse_rule_part-nil :
      (p : Parser)
      → has_type p.current_token tt_nil ≡ true
      → parse_rule_part inet_pton gmp p ≡ thrown failed_to_parse
  unfolding parse_rule_part has_type get_type
  parse_rule_part-nil p h = ground arith

  -- A part of a rule takes a token that is there.
  PartOk : Parser → AddrMatch × Parser → Type 0
  PartOk p r = (length r.1.rest ≤ length p.rest) × (has_type p.current_token tt_nil ≡ false)

  parse_rule_part-PartOk : (p : Parser) → Ends (PartOk p) (parse_rule_part inet_pton gmp p)
  unfolding PartOk LeftAtMost
  parse_rule_part-PartOk p = elim (Bool-cases (has_type p.current_token tt_nil)) [
    | inl e ↦ subst (Ends (PartOk p)) (sym (parse_rule_part-nil p e)) (thrown-Ends _ _)
    | inr e ↦
        Ends-map (LeftAtMost (length p.rest)) (PartOk p) _
          (parse_rule_part-Ends inet_pton gmp (length p.rest) p (omega arith)) (λ a ha. (ha, e))
  ]

  module _ (gts : List Table) (nested : Parser → Ending (Table × Parser)) (bound : ℕ)
      (nested-Ends : (q : Parser)
        → length q.rest + 1 ≤ bound
        → Ends (TableOk gts (length q.rest)) (nested q)) where
    rule_body-Ends :
        (name : Text) (p : Parser)
        → length p.rest ≤ bound
        → Ends (RuleOk gts (length p.rest)) (rule_body inet_pton gmp nested name p)
    unfolding rule_body RuleOk TableOk PartOk
    rule_body-Ends name p h =
        let P = RuleOk gts (length p.rest) in
        let q = get_next_token p in
        let hq = get_next_token-length p in
        let c = p.current_token in
        let d = q.current_token in
        if-Ends P (not (has_type c tt_left_bracket)) _ _ (λ e. thrown-Ends _ _)
          (λ e.
            if-Ends P (has_type d tt_table) _ _
              (λ e2.
                let hs = get_next_token-shorter p (tt_table-not_nil d e2) in
                >>=-Ends (TableOk gts (length q.rest)) _ _ _ (nested-Ends q (omega arith))
                  (λ (r : Table × Parser). λ hr. returned-Ends _ _ (omega (arith, hr.0), hr.1)))
              (λ e2.
                >>=-Ends {A = AddrMatch × Parser} (PartOk q) _ _ _ (parse_rule_part-PartOk q)
                  (λ (r : AddrMatch × Parser). λ hr.
                    if-Ends P (not (has_type r.1.current_token tt_pipe)) _ _ (λ e3. thrown-Ends _ _)
                      (λ e3.
                        >>=-Ends {A = AddrMatch × Parser} (PartOk (get_next_token r.1)) _ _ _
                          (parse_rule_part-PartOk (get_next_token r.1))
                          (λ (u : AddrMatch × Parser). λ hu.
                            if-Ends P (has_type u.1.current_token tt_right_bracket) _ _
                              (λ e4. returned-Ends _ _ (
                                omega (
                                  arith,
                                  hr.0,
                                  hu.0,
                                  get_next_token-length r.1,
                                  get_next_token-shorter p hr.1,
                                ),
                                tt,
                              ))
                              (λ e4. thrown-Ends _ _))))))

    parse_rule-Ends :
        (p : Parser)
        → length p.rest ≤ bound
        → Ends (RuleOk gts (length p.rest)) (parse_rule inet_pton gmp nested p)
    unfolding parse_rule RuleOk
    parse_rule-Ends p h =
        let P = RuleOk gts (length p.rest) in
        let q = get_next_token p in
        let hq = get_next_token-length p in
        if-Ends P (has_type p.current_token any_string) _ _
          (λ e.
            Ends-map (RuleOk gts (length q.rest)) P _
              (rule_body-Ends (get_string p.current_token) q (omega arith))
              (λ (r : Option RuleBox × Parser). λ hr. RuleOk-le gts r _ _ (omega arith) hr))
          (λ e.
            if-Ends P (has_type p.current_token tt_left_bracket) _ _ (λ e2. rule_body-Ends [] p h)
              (λ e2. returned-Ends _ _ (omega arith)))

    pub parse_rules-Ends :
        (fuel : ℕ) (p : Parser)
        → length p.rest + 1 ≤ fuel
        → length p.rest ≤ bound
        → Ends (ListOk gts (length p.rest)) (parse_rules inet_pton gmp nested fuel p)
    unfolding parse_rules
    parse_rules-Ends zero p hf h = absurd (omega arith)
    parse_rules-Ends (suc fuel) p hf h =
        >>=-Ends {A = Option RuleBox × Parser} (RuleOk gts (length p.rest)) _ _ _
          (parse_rule-Ends p h)
          (λ (r : Option RuleBox × Parser). λ hr.
            after_rule-Ends inet_pton gmp gts (λ q. parse_rules inet_pton gmp nested fuel q)
              (length p.rest) (λ q hq. parse_rules-Ends fuel q (omega arith) (omega arith)) r hr)
