-- ===== src/Parser/Tables.antt =====
-- mcproxy/src/parser/parser.cpp: `parse_table` and `parse_rule`.
use mcproxy.Base.{
  ℕ, zero, suc, Bool, true, false, not, ◌&&◌, Option, none, some, List, [], if◌then◌else◌, is_some,
  length,
}
use mcproxy.Protocol.{GroupMemProtocol}
use mcproxy.Text.{Text}
use mcproxy.Addr.{Addr, Family}
use mcproxy.Rules.{
  get_table, RuleBox, Table, RuleList, rule_addr, rule_table, rule_table_ref, table, no_rules,
  rule_then,
}
use mcproxy.Ending.{◌>>=◌, Ending, returned, out_of_fuel}
use mcproxy.Token.{
  Token, tt_table, tt_left_brace, tt_right_brace, tt_left_bracket, tt_right_bracket, tt_pipe,
  tt_nil,
}
use mcproxy.Parser.{
  get_string, has_type, any_string, peek, get_next_token, fail, get_parser_type, Parser, ParserType,
  pt_table,
}
use mcproxy.Parser.Parts.{parse_rule_part}

abbrev pub is_pt_table : ParserType → Bool
is_pt_table pt_table = true
is_pt_table _ = false

module _ (inet_pton : Family → Text → Option Addr) (gmp : GroupMemProtocol) where
  -- A rule after its interface, where `nested` is the call of `parse_table`; `none` is the null
  -- pointer. The interface of a table is not kept.
  unfoldable pub rule_body :
      (Parser → Ending (Table × Parser)) → Text → Parser → Ending (Option RuleBox × Parser)
  rule_body nested if_name p =
      let q = get_next_token p in
      if not (has_type p.current_token tt_left_bracket)
      then fail
      else if has_type q.current_token tt_table
      then (do (t, r) ← nested q; returned (some (rule_table t), r))
      else (do
        (group, r) ← parse_rule_part inet_pton gmp q
        if not (has_type r.current_token tt_pipe) then fail else (do
          (source, u) ← parse_rule_part inet_pton gmp (get_next_token r)
          if has_type u.current_token tt_right_bracket
              then returned (some (rule_addr if_name group source), u)
              else fail))

  unfoldable pub parse_rule :
      (Parser → Ending (Table × Parser)) → Parser → Ending (Option RuleBox × Parser)
  parse_rule nested p =
      if has_type p.current_token any_string
      then rule_body nested (get_string p.current_token) (get_next_token p)
      else if has_type p.current_token tt_left_bracket
      then rule_body nested [] p
      else returned (none, p)

  -- A round of the loop over the rules of a table after one rule, where `more` is the rest of the loop.
  unfoldable pub after_rule :
      (Parser → Ending (RuleList × Parser)) → Option RuleBox × Parser → Ending (RuleList × Parser)
  after_rule more (none, q) = returned (no_rules, q)
  after_rule more (some r, q) = do (l, u) ← more (get_next_token q); returned (rule_then r l, u)

  -- The loop, on fuel for the rules.
  unfoldable pub parse_rules :
      (Parser → Ending (Table × Parser)) → ℕ → Parser → Ending (RuleList × Parser)
  parse_rules nested zero p = out_of_fuel
  parse_rules nested (suc fuel) p = do
    r ← parse_rule nested p
    after_rule (λ q. parse_rules nested fuel q) r

  module _ (gts : List Table) where
    -- Where a table ends: the end of the command, or the bracket after a table inside a rule.
    abbrev pub ends_table : Bool → Token → Bool
    ends_table inside_rule_box t =
        if inside_rule_box then has_type t tt_right_bracket else has_type t tt_nil

    -- The reference to a table.
    unfoldable pub table_reference : Parser → Ending (Table × Parser)
    table_reference p =
        let name = get_string p.current_token in
        if has_type p.current_token any_string && is_some (get_table name gts)
        then returned (table [] (rule_then (rule_table_ref name) no_rules), get_next_token p)
        else fail

    -- The rules in braces, where `rules` is the loop.
    unfoldable pub table_rules :
        (Parser → Ending (RuleList × Parser)) → Bool → Text → Parser → Ending (Table × Parser)
    table_rules rules inside_rule_box name p =
        if not (has_type p.current_token tt_left_brace) then fail else (do
          (l, q) ← rules (get_next_token p)
          let r = get_next_token q
          if has_type q.current_token tt_right_brace && ends_table inside_rule_box r.current_token
              then returned (table name l, r)
              else fail)

    unfoldable pub table_body :
        (Parser → Ending (RuleList × Parser)) → Bool → Parser → Ending (Table × Parser)
    table_body rules inside_rule_box p =
        if ends_table inside_rule_box (peek 0 p.rest)
        then table_reference p
        else if has_type p.current_token any_string
        then table_rules rules inside_rule_box (get_string p.current_token) (get_next_token p)
        else table_rules rules inside_rule_box [] p

    -- `parse_table`, on fuel for tables inside tables.
    unfoldable pub parse_table_in : ℕ → Bool → Parser → Ending (Table × Parser)
    parse_table_in zero inside_rule_box p = out_of_fuel
    parse_table_in (suc fuel) inside_rule_box p = do
      kind ← get_parser_type p
      if not (is_pt_table kind)
          then fail
          else table_body
              (λ q. parse_rules (λ r. parse_table_in fuel true r) (suc (length q.rest)) q)
              inside_rule_box (get_next_token p)

    -- `parse_table(gts, gmp)`: a table inside a table takes a token.
    unfoldable pub parse_table : Parser → Ending (Table × Parser)
    parse_table p = parse_table_in (suc (length p.rest)) false p
