-- ===== src/Parser/AcceptsTables.antt =====
-- mcproxy/src/parser/parser.cpp: `parse_table` accepts the tables that are written by the grammar.
use mcproxy.Base.{
  ℕ, zero, suc, ◌+◌, ◌≤◌, ◌≡◌, refl, Bool, true, false, Option, some, List, [], ◌∷◌, arith, is_some,
  length,
}
use mcproxy.Protocol.{GroupMemProtocol}
use mcproxy.Text.{Text}
use mcproxy.Addr.{Addr, Family}
use mcproxy.Rules.{
  get_table, AddrMatch, RuleBox, Table, RuleList, rule_addr, rule_table, table, no_rules, rule_then,
}
use mcproxy.Ending.{Ending, returned}
use mcproxy.Token.{
  Token, tt_table, tt_left_brace, tt_right_brace, tt_left_bracket, tt_right_bracket,
}
use mcproxy.Parser.{get_string, has_type, peek, take_token, get_next_token, get_parser_type, Parser}
use mcproxy.Parser.Tables.{
  rule_body, parse_rule, after_rule, parse_rules, ends_table, table_reference, table_rules,
  table_body, parse_table_in, parse_table,
}
use mcproxy.Parser.Grammar.{
  rule_of, table_of, rules_of, write_rule, write_table, write_rules, IsKnownRule, IsKnownTable,
  AreKnownRules, RuleText, TableText, RuleTexts, Spelling, addrs_text, nested_text, reference_text,
  rules_text, no_texts, text_then,
}
use mcproxy.Parser.Written.{
  peek-take_token, take_token-rest, length-write_rule, peek-write_rules, rule_body-addrs,
}

module _ (show : Addr → Spelling) (inet_pton : Family → Text → Option Addr) (gmp : GroupMemProtocol)
    (gts : List Table) where
  -- What is written is read as what it means, where `n` is the fuel.
  TableReads : ℕ → Bool → TableText → List Token → Type 0
  TableReads n inside t l =
      parse_table_in inet_pton gmp gts n inside (take_token (tt_table ∷ write_table show t l))
      ≡ returned (table_of t, take_token l)

  rule_body-nested :
      (n : ℕ) (name : Text) (t : TableText) (l : List Token)
      → TableReads n true t (tt_right_bracket ∷ l)
      → rule_body inet_pton gmp
          (λ q. parse_table_in inet_pton gmp gts n true q)
          name
          (take_token (tt_left_bracket ∷ tt_table ∷ write_table show t (tt_right_bracket ∷ l)))
        ≡ returned (some (rule_table (table_of t)), take_token (tt_right_bracket ∷ l))
  unfolding rule_body get_next_token has_type TableReads
  rule_body-nested n name t l h = rw h refl

  parse_rule-addrs :
      (nested : Parser → Ending (Table × Parser)) (name : Text) (group source : AddrMatch)
      (l : List Token)
      → IsKnownRule show inet_pton gmp gts (addrs_text name group source)
      → parse_rule inet_pton gmp nested
          (take_token (write_rule show (addrs_text name group source) l))
        ≡ returned (some (rule_addr name group source), take_token (tt_right_bracket ∷ l))
  unfolding parse_rule has_type get_string get_next_token
  parse_rule-addrs nested [] group source l (hg, hs) =
      rule_body-addrs show inet_pton gmp gts nested [] group source l hg hs
  parse_rule-addrs nested (c ∷ s) group source l (hg, hs) =
      rule_body-addrs show inet_pton gmp gts nested (c ∷ s) group source l hg hs

  parse_rule-nested :
      (n : ℕ) (t : TableText) (l : List Token)
      → TableReads n true t (tt_right_bracket ∷ l)
      → parse_rule inet_pton gmp
          (λ q. parse_table_in inet_pton gmp gts n true q)
          (take_token (write_rule show (nested_text t) l))
        ≡ returned (some (rule_table (table_of t)), take_token (tt_right_bracket ∷ l))
  unfolding parse_rule has_type
  parse_rule-nested n t l h = rule_body-nested n [] t l h

  parse_rules-end :
      (nested : Parser → Ending (Table × Parser)) (k : ℕ) (l : List Token)
      → parse_rules inet_pton gmp nested (suc k) (take_token (tt_right_brace ∷ l))
        ≡ returned (no_rules, take_token (tt_right_brace ∷ l))
  unfolding parse_rules parse_rule has_type after_rule
  parse_rules-end nested k l = refl

  parse_rules-then :
      (nested : Parser → Ending (Table × Parser)) (k : ℕ) (p : Parser) (r : RuleBox) (rs : RuleList)
      (l : List Token) (q : Parser)
      → parse_rule inet_pton gmp nested p ≡ returned (some r, take_token (tt_right_bracket ∷ l))
      → parse_rules inet_pton gmp nested k (take_token l) ≡ returned (rs, q)
      → parse_rules inet_pton gmp nested (suc k) p ≡ returned (rule_then r rs, q)
  unfolding parse_rules after_rule get_next_token
  parse_rules-then nested k p r rs l q h h2 = rw h (rw h2 refl)

  -- The loop over written rules.
  RulesRead : ℕ → RuleTexts → List Token → Type 0
  RulesRead n rules l =
      (k : ℕ)
      → length (write_rules show rules (tt_right_brace ∷ l)) ≤ k
      → parse_rules inet_pton gmp (λ q. parse_table_in inet_pton gmp gts n true q) k
          (take_token (write_rules show rules (tt_right_brace ∷ l)))
        ≡ returned (rules_of rules, take_token (tt_right_brace ∷ l))

  table_rules-written :
      (n : ℕ) (inside : Bool) (name : Text) (rules : RuleTexts) (l : List Token)
      → ends_table inet_pton gmp gts inside (take_token l).current_token ≡ true
      → RulesRead n rules l
      → table_rules inet_pton gmp gts
          (λ q.
            parse_rules inet_pton gmp
              (λ r. parse_table_in inet_pton gmp gts n true r)
              (suc (length q.rest))
              q)
          inside
          name
          (take_token (tt_left_brace ∷ write_rules show rules (tt_right_brace ∷ l)))
        ≡ returned (table name (rules_of rules), take_token l)
  unfolding table_rules has_type get_next_token RulesRead
  table_rules-written n inside name rules l he h =
      rw
        (h (suc (length (take_token (write_rules show rules (tt_right_brace ∷ l))).rest))
          (take_token-rest (write_rules show rules (tt_right_brace ∷ l))))
        (rw he refl)

  tt_left_brace-peek :
      (inside : Bool) (l : List Token)
      → ends_table inet_pton gmp gts inside (peek 0 (tt_left_brace ∷ l)) ≡ false
  unfolding peek has_type
  tt_left_brace-peek true l = refl
  tt_left_brace-peek false l = refl

  ends_peek :
      (inside : Bool) (l : List Token)
      → ends_table inet_pton gmp gts inside (take_token l).current_token ≡ true
      → ends_table inet_pton gmp gts inside (peek 0 l) ≡ true
  ends_peek inside l h = rw (peek-take_token l) h

  tt_right_bracket-ends :
      (l : List Token)
      → ends_table inet_pton gmp gts true (take_token (tt_right_bracket ∷ l)).current_token ≡ true
  unfolding has_type
  tt_right_bracket-ends l = refl

  length-rules_text :
      (name : Text) (rules : RuleTexts) (l : List Token)
      → length (write_rules show rules (tt_right_brace ∷ l)) + 1
        ≤ length (write_table show (rules_text name rules) l)
  length-rules_text [] rules l = omega arith
  length-rules_text (c ∷ s) rules l = omega arith

  table_in-rules :
      (n : ℕ) (inside : Bool) (name : Text) (rules : RuleTexts) (l : List Token)
      → ends_table inet_pton gmp gts inside (take_token l).current_token ≡ true
      → RulesRead n rules l
      → TableReads (suc n) inside (rules_text name rules) l
  unfolding TableReads parse_table_in get_parser_type has_type table_body get_next_token get_string
  table_in-rules n inside [] rules l he h =
      rw (peek-write_rules show inet_pton gmp gts inside rules l)
        (table_rules-written n inside [] rules l he h)
  table_in-rules n inside (c ∷ s) rules l he h =
      rw (tt_left_brace-peek inside (write_rules show rules (tt_right_brace ∷ l)))
        (table_rules-written n inside (c ∷ s) rules l he h)

  table_in-reference :
      (n : ℕ) (inside : Bool) (name : Text) (l : List Token)
      → ends_table inet_pton gmp gts inside (take_token l).current_token ≡ true
      → is_some (get_table name gts) ≡ true
      → TableReads (suc n) inside (reference_text name) l
  unfolding TableReads parse_table_in get_parser_type has_type table_body get_next_token get_string
      table_reference
  table_in-reference n inside name l he h = rw (ends_peek inside l he, h) refl

  mutual
    unfolding TableReads RulesRead

    parse_table-written :
        (n : ℕ) (inside : Bool) (t : TableText) (l : List Token)
        → IsKnownTable show inet_pton gmp gts t
        → ends_table inet_pton gmp gts inside (take_token l).current_token ≡ true
        → length (write_table show t l) + 1 ≤ n
        → TableReads n inside t l
    parse_table-written zero inside t l h he hn = absurd (omega arith)
    parse_table-written (suc n) inside (reference_text name) l h he hn =
        table_in-reference n inside name l he h
    parse_table-written (suc n) inside (rules_text name rules) l h he hn =
        table_in-rules n inside name rules l he
          (parse_rules-written n rules l h (omega (arith, length-rules_text name rules l)))

    parse_rule-written :
        (n : ℕ) (r : RuleText) (l : List Token)
        → IsKnownRule show inet_pton gmp gts r
        → length (write_rule show r l) ≤ n
        → parse_rule inet_pton gmp
            (λ q. parse_table_in inet_pton gmp gts n true q)
            (take_token (write_rule show r l))
          ≡ returned (some (rule_of r), take_token (tt_right_bracket ∷ l))
    parse_rule-written n (addrs_text name g s) l h hn = parse_rule-addrs _ name g s l h
    parse_rule-written n (nested_text t) l h hn = parse_rule-nested n t l (
        parse_table-written n true t (tt_right_bracket ∷ l) h (tt_right_bracket-ends l)
          (omega arith))

    parse_rules-written :
        (n : ℕ) (rules : RuleTexts) (l : List Token)
        → AreKnownRules show inet_pton gmp gts rules
        → length (write_rules show rules (tt_right_brace ∷ l)) ≤ n
        → RulesRead n rules l
    parse_rules-written n no_texts l h hn zero hk = absurd (omega arith)
    parse_rules-written n no_texts l h hn (suc k) hk = parse_rules-end _ k l
    parse_rules-written n (text_then r rules) l (hr, h) hn zero hk =
        absurd
          (omega (arith, length-write_rule show r (write_rules show rules (tt_right_brace ∷ l))))
    parse_rules-written n (text_then r rules) l (hr, h) hn (suc k) hk =
        let rest = write_rules show rules (tt_right_brace ∷ l) in
        parse_rules-then _ k _ (rule_of r) (rules_of rules) rest _
          (parse_rule-written n r rest hr hn)
          (parse_rules-written n rules l h (omega (arith, length-write_rule show r rest)) k
            (omega (arith, length-write_rule show r rest)))

  -- The parser accepts every table that is written by the grammar, of any depth, where its references
  -- are those of tables that are there and its addresses, with or without quotes, are read from their texts
  -- and of the family of the protocol, or a star for the zero address of that family, and returns what it
  -- means, with no token left. Prefixes are not written.
  pub parse_table-write_table :
      (t : TableText)
      → IsKnownTable show inet_pton gmp gts t
      → parse_table inet_pton gmp gts (take_token (tt_table ∷ write_table show t []))
        ≡ returned (table_of t, take_token [])
  unfolding parse_table TableReads has_type
  parse_table-write_table t h =
      parse_table-written (suc (length (write_table show t []))) false t [] h refl (omega arith)
