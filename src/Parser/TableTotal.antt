-- ===== src/Parser/TableTotal.antt =====
-- mcproxy/src/parser/parser.cpp: `parse_table` comes to an end, and its references are those of
-- tables that are there.
use mcproxy.Base.{
  ℕ, zero, suc, ◌+◌, ◌≤◌, Bool, true, false, not, ◌&&◌, Option, List, [], arith, is_some, length,
}
use mcproxy.Protocol.{GroupMemProtocol}
use mcproxy.Text.{Text}
use mcproxy.Addr.{Addr, Family}
use mcproxy.Rules.{get_table, Table, RuleList}
use mcproxy.Ending.{Ends, thrown-Ends, returned-Ends, >>=-Ends, if-Ends, Ends-map, Ending}
use mcproxy.Token.{tt_left_brace, tt_right_brace}
use mcproxy.Parser.{get_string, has_type, any_string, peek, get_next_token, Parser, ParserType}
use mcproxy.Parser.Tables.{
  is_pt_table, parse_rules, ends_table, table_reference, table_rules, table_body, parse_table_in,
  parse_table,
}
use mcproxy.Parser.PartsEnd.{get_next_token-length}
use mcproxy.Parser.TablesEnd.{get_parser_type-Ends, TableOk, ListOk, TableOk-le, parse_rules-Ends}

module _ (inet_pton : Family → Text → Option Addr) (gmp : GroupMemProtocol) (gts : List Table) where
  table_reference-Ends :
      (p : Parser) → Ends (TableOk gts (length p.rest)) (table_reference inet_pton gmp gts p)
  unfolding table_reference TableOk
  table_reference-Ends p =
      let name = get_string p.current_token in
      if-Ends (TableOk gts (length p.rest))
        (has_type p.current_token any_string && is_some (get_table name gts)) _ _
        (λ e. returned-Ends _ _ (get_next_token-length p, (ground arith, tt)))
        (λ e. thrown-Ends _ _)

  module _ (rules : Parser → Ending (RuleList × Parser)) (n : ℕ)
      (rules-Ends : (q : Parser)
        → length q.rest ≤ n
        → Ends (ListOk gts (length q.rest)) (rules q)) where
    table_rules-Ends :
        (inside : Bool) (name : Text) (p : Parser)
        → length p.rest ≤ n
        → Ends (TableOk gts (length p.rest)) (table_rules inet_pton gmp gts rules inside name p)
    unfolding table_rules TableOk ListOk
    table_rules-Ends inside name p h =
        let P = TableOk gts (length p.rest) in
        if-Ends P (not (has_type p.current_token tt_left_brace)) _ _ (λ e. thrown-Ends _ _)
          (λ e.
            >>=-Ends {A = RuleList × Parser} (ListOk gts (length (get_next_token p).rest)) _ _ _
              (rules-Ends (get_next_token p) (omega (arith, get_next_token-length p)))
              (λ (u : RuleList × Parser). λ hu.
                if-Ends P
                  (has_type u.1.current_token tt_right_brace
                    && ends_table inet_pton gmp gts inside (get_next_token u.1).current_token)
                  _ _
                  (λ e2.
                    returned-Ends _ _ (
                      omega (arith, hu.0, get_next_token-length u.1, get_next_token-length p),
                      hu.1,
                    ))
                  (λ e2. thrown-Ends _ _)))

    table_body-Ends :
        (inside : Bool) (p : Parser)
        → length p.rest ≤ n
        → Ends (TableOk gts (length p.rest)) (table_body inet_pton gmp gts rules inside p)
    unfolding table_body TableOk
    table_body-Ends inside p h =
        let P = TableOk gts (length p.rest) in
        let q = get_next_token p in
        let hq = get_next_token-length p in
        if-Ends P (ends_table inet_pton gmp gts inside (peek 0 p.rest)) _ _
          (λ e. table_reference-Ends p)
          (λ e.
            if-Ends P (has_type p.current_token any_string) _ _
              (λ e2.
                Ends-map (TableOk gts (length q.rest)) P _
                  (table_rules-Ends inside (get_string p.current_token) q (omega arith))
                  (λ (r : Table × Parser). λ hr. (omega (arith, hr.0), hr.1)))
              (λ e2. table_rules-Ends inside [] p h))

  parse_table_in-Ends :
      (fuel : ℕ) (inside : Bool) (p : Parser)
      → length p.rest + 1 ≤ fuel
      → Ends (TableOk gts (length p.rest)) (parse_table_in inet_pton gmp gts fuel inside p)
  unfolding parse_table_in
  parse_table_in-Ends zero inside p h = absurd (omega arith)
  parse_table_in-Ends (suc fuel) inside p h =
      let P = TableOk gts (length p.rest) in
      let q = get_next_token p in
      let hq = get_next_token-length p in
      >>=-Ends {A = ParserType} (λ k. Unit {0}) P _ _ (get_parser_type-Ends p)
        (λ k hk.
          if-Ends P (not (is_pt_table k)) _ _ (λ e. thrown-Ends _ _)
            (λ e.
              Ends-map (TableOk gts (length q.rest)) P _
                (table_body-Ends
                  (λ u.
                    parse_rules inet_pton gmp (λ r. parse_table_in inet_pton gmp gts fuel true r)
                      (suc (length u.rest)) u)
                  (length q.rest)
                  (λ u hu.
                    parse_rules-Ends inet_pton gmp gts
                      (λ r. parse_table_in inet_pton gmp gts fuel true r) (length p.rest)
                      (λ r hr. parse_table_in-Ends fuel true r (omega arith)) (suc (length u.rest))
                      u (omega arith) (omega arith))
                  inside q (omega arith))
                (λ (r : Table × Parser). λ hr. TableOk-le gts r _ _ hq hr)))

  -- Parsing a table comes to an end within the fuel, on all tokens. If it returns a table, this and
  -- the tables inside it refer only to tables that are there, and no tokens are added to the rest.
  pub parse_table-TableOk :
      (p : Parser) → Ends (TableOk gts (length p.rest)) (parse_table inet_pton gmp gts p)
  unfolding parse_table
  parse_table-TableOk p = parse_table_in-Ends (suc (length p.rest)) false p (omega arith)
