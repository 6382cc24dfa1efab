-- ===== src/Parser/Grammar.antt =====
-- mcproxy/src/parser/parser.cpp: the tables that can be written, described apart from the parser: how
-- they are written, and what they mean.
use mcproxy.Base.{◌≡◌, true, ◌&&◌, Option, List, [], ◌∷◌, ◌++◌, map, is_some}
use mcproxy.Protocol.{GroupMemProtocol}
use mcproxy.Text.{Text, codes}
use mcproxy.Addr.{get_addr_family, zero_addr, is_valid, Addr, Family}
use mcproxy.Rules.{
  get_table, AddrMatch, RuleBox, Table, RuleList, single_addr, addr_range, rule_addr, rule_table,
  rule_table_ref, table, no_rules, rule_then,
}
use mcproxy.Token.{
  Token, tt_double_dot, tt_dot, tt_table, tt_left_brace, tt_right_brace, tt_left_bracket,
  tt_right_bracket, tt_range, tt_star, tt_pipe, tt_string,
}
use mcproxy.Parser.Numbers.{protocol_family, addr_of_text, same_family}

mutual
  -- A rule: addresses, or a table.
  pub data RuleText : Type 0 where
    addrs_text : Text → AddrMatch → AddrMatch → RuleText
    nested_text : TableText → RuleText

  -- A table: a reference, or rules under a name, which may be empty.
  pub data TableText : Type 0 where
    reference_text : Text → TableText
    rules_text : Text → RuleTexts → TableText

  pub data RuleTexts : Type 0 where
    no_texts : RuleTexts
    text_then : RuleText → RuleTexts → RuleTexts

-- What they mean.
abbrev mutual
  pub rule_of : RuleText → RuleBox
  rule_of (addrs_text name group source) = rule_addr name group source
  rule_of (nested_text t) = rule_table (table_of t)

  pub table_of : TableText → Table
  table_of (reference_text name) = table [] (rule_then (rule_table_ref name) no_rules)
  table_of (rules_text name rules) = table name (rules_of rules)

  pub rules_of : RuleTexts → RuleList
  rules_of no_texts = no_rules
  rules_of (text_then r rules) = rule_then (rule_of r) (rules_of rules)

-- How an address is written: a star, or a word and further words, dots and colons, with or without
-- quotes.
pub data AddrPart : Type 0 where
  word_part : Text → AddrPart
  dot_part double_dot_part : AddrPart

pub data Spelling : Type 0 where
  star_spelling : Spelling
  word_spelling : Text → List AddrPart → Spelling

abbrev pub part_token : AddrPart → Token
part_token (word_part s) = tt_string s
part_token dot_part = tt_dot
part_token double_dot_part = tt_double_dot

abbrev pub part_text : AddrPart → Text
part_text (word_part s) = s
part_text dot_part = codes "."
part_text double_dot_part = codes ":"

abbrev pub text_of : Text → List AddrPart → Text
text_of s [] = s
text_of s (p ∷ l) = s ++ text_of (part_text p) l

abbrev pub write_spelling : Spelling → List Token → List Token
write_spelling star_spelling l = tt_star ∷ l
write_spelling (word_spelling s parts) l = tt_string s ∷ map part_token parts ++ l

-- How a name is written, before other tokens.
abbrev pub write_name : Text → List Token → List Token
write_name [] l = l
write_name (c ∷ s) l = tt_string (c ∷ s) ∷ l

module _ (show : Addr → Spelling) where
  abbrev pub write_part : AddrMatch → List Token → List Token
  write_part (single_addr a) l = write_spelling (show a) l
  write_part (addr_range a b) l = write_spelling (show a) (tt_range ∷ write_spelling (show b) l)

  -- How they are written, before other tokens.
  abbrev mutual
    pub write_rule : RuleText → List Token → List Token
    write_rule (addrs_text name group source) l =
        write_name name
          (tt_left_bracket ∷ write_part group (tt_pipe ∷ write_part source (tt_right_bracket ∷ l)))
    write_rule (nested_text t) l = tt_left_bracket ∷ tt_table ∷ write_table t (tt_right_bracket ∷ l)

    pub write_table : TableText → List Token → List Token
    write_table (reference_text name) l = tt_string name ∷ l
    write_table (rules_text name rules) l =
        write_name name (tt_left_brace ∷ write_rules rules (tt_right_brace ∷ l))

    pub write_rules : RuleTexts → List Token → List Token
    write_rules no_texts l = l
    write_rules (text_then r rules) l = write_rule r (write_rules rules l)

  module _ (inet_pton : Family → Text → Option Addr) (gmp : GroupMemProtocol)
      (gts : List Table) where
    -- The spelling means the address: a star is the zero address of the protocol's family, and a text is
    -- one from which the address is read, of that family.
    abbrev pub Means : Spelling → Addr → Type 0
    Means star_spelling a = zero_addr (protocol_family gmp) ≡ a
    Means (word_spelling s parts) a =
        (addr_of_text inet_pton (text_of s parts) ≡ a)
        × (is_valid a && same_family (get_addr_family a) (protocol_family gmp) ≡ true)

    abbrev pub IsKnown : Addr → Type 0
    IsKnown a = Means (show a) a

    abbrev pub IsKnownPart : AddrMatch → Type 0
    IsKnownPart (single_addr a) = IsKnown a
    IsKnownPart (addr_range a b) = IsKnown a × IsKnown b

    -- All addresses are known, and all references.
    abbrev mutual
      pub IsKnownRule : RuleText → Type 0
      IsKnownRule (addrs_text name group source) = IsKnownPart group × IsKnownPart source
      IsKnownRule (nested_text t) = IsKnownTable t

      pub IsKnownTable : TableText → Type 0
      IsKnownTable (reference_text name) = is_some (get_table name gts) ≡ true
      IsKnownTable (rules_text name rules) = AreKnownRules rules

      pub AreKnownRules : RuleTexts → Type 0
      AreKnownRules no_texts = Unit
      AreKnownRules (text_then r rules) = IsKnownRule r × AreKnownRules rules
