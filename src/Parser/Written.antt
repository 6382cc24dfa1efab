-- ===== src/Parser/Written.antt =====
-- mcproxy/src/parser/parser.cpp: the tokens of written tables, and the rules of addresses.
use mcproxy.Base.{
  suc, ◌+◌, ◌≤◌, ◌≡◌, refl, Bool, true, false, Option, some, List, [], ◌∷◌, ◌++◌, map, arith,
  length,
}
use mcproxy.Protocol.{GroupMemProtocol}
use mcproxy.Text.{Text}
use mcproxy.Addr.{Addr, Family}
use mcproxy.Rules.{AddrMatch, Table, single_addr, addr_range, rule_addr}
use mcproxy.Ending.{Ending, returned}
use mcproxy.Token.{
  Token, tt_table, tt_right_brace, tt_left_bracket, tt_right_bracket, tt_range, tt_pipe,
}
use mcproxy.Parser.{has_type, peek, take_token, get_next_token, Parser}
use mcproxy.Parser.Tables.{rule_body, ends_table}
use mcproxy.Parser.Grammar.{
  part_token, write_spelling, write_part, write_rule, write_table, write_rules, IsKnownPart,
  RuleText, TableText, RuleTexts, AddrPart, Spelling, addrs_text, nested_text, reference_text,
  rules_text, no_texts, text_then, star_spelling, word_spelling,
}
use mcproxy.Parser.Accepts.{tt_pipe-StopsAddr, tt_right_bracket-StopsAddr, parse_rule_part-written}

pub peek-take_token : (l : List Token) → peek 0 l ≡ (take_token l).current_token
unfolding peek
peek-take_token [] = refl
peek-take_token (t ∷ l) = refl

pub take_token-rest : (l : List Token) → length l ≤ suc (length (take_token l).rest)
take_token-rest [] = omega arith
take_token-rest (t ∷ l) = omega arith

write_spelling-no_table :
    (o : Spelling) (l : List Token)
    → has_type (take_token (write_spelling o l)).current_token tt_table ≡ false
unfolding has_type
write_spelling-no_table star_spelling l = refl
write_spelling-no_table (word_spelling s parts) l = refl

length-parts :
    (parts : List AddrPart) (l : List Token) → length l ≤ length (map part_token parts ++ l)
length-parts [] l = omega arith
length-parts (p ∷ parts) l = omega (arith, length-parts parts l)

length-write_spelling : (o : Spelling) (l : List Token) → length l ≤ length (write_spelling o l)
length-write_spelling star_spelling l = omega arith
length-write_spelling (word_spelling s parts) l = omega (arith, length-parts parts l)

module _ (show : Addr → Spelling) where
  write_part-no_table :
      (m : AddrMatch) (l : List Token)
      → has_type (take_token (write_part show m l)).current_token tt_table ≡ false
  write_part-no_table (single_addr a) l = write_spelling-no_table (show a) l
  write_part-no_table (addr_range a b) l =
      write_spelling-no_table (show a) (tt_range ∷ write_spelling (show b) l)

  length-write_part : (m : AddrMatch) (l : List Token) → length l ≤ length (write_part show m l)
  length-write_part (single_addr a) l = length-write_spelling (show a) l
  length-write_part (addr_range a b) l = omega (
    arith,
    length-write_spelling (show a) (tt_range ∷ write_spelling (show b) l),
    length-write_spelling (show b) l,
  )

  mutual
    pub length-write_rule :
        (r : RuleText) (l : List Token) → length l + 1 ≤ length (write_rule show r l)
    length-write_rule (addrs_text [] g s) l = omega (
      arith,
      length-write_part g (tt_pipe ∷ write_part show s (tt_right_bracket ∷ l)),
      length-write_part s (tt_right_bracket ∷ l),
    )
    length-write_rule (addrs_text (c ∷ n) g s) l = omega (
      arith,
      length-write_part g (tt_pipe ∷ write_part show s (tt_right_bracket ∷ l)),
      length-write_part s (tt_right_bracket ∷ l),
    )
    length-write_rule (nested_text t) l = omega (arith, length-write_table t (tt_right_bracket ∷ l))

    length-write_table : (t : TableText) (l : List Token) → length l ≤ length (write_table show t l)
    length-write_table (reference_text n) l = omega arith
    length-write_table (rules_text [] rules) l =
        omega (arith, length-write_rules rules (tt_right_brace ∷ l))
    length-write_table (rules_text (c ∷ n) rules) l =
        omega (arith, length-write_rules rules (tt_right_brace ∷ l))

    length-write_rules :
        (rules : RuleTexts) (l : List Token) → length l ≤ length (write_rules show rules l)
    length-write_rules no_texts l = omega arith
    length-write_rules (text_then r rules) l =
        omega (arith, length-write_rule r (write_rules show rules l), length-write_rules rules l)

  module _ (inet_pton : Family → Text → Option Addr) (gmp : GroupMemProtocol)
      (gts : List Table) where
    pub peek-write_rules :
        (inside : Bool) (rules : RuleTexts) (l : List Token)
        → ends_table inet_pton gmp gts inside (peek 0 (write_rules show rules (tt_right_brace ∷ l)))
          ≡ false
    unfolding peek has_type
    peek-write_rules true no_texts l = refl
    peek-write_rules false no_texts l = refl
    peek-write_rules true (text_then (addrs_text [] g s) rules) l = refl
    peek-write_rules false (text_then (addrs_text [] g s) rules) l = refl
    peek-write_rules true (text_then (addrs_text (c ∷ n) g s) rules) l = refl
    peek-write_rules false (text_then (addrs_text (c ∷ n) g s) rules) l = refl
    peek-write_rules true (text_then (nested_text t) rules) l = refl
    peek-write_rules false (text_then (nested_text t) rules) l = refl

    pub rule_body-addrs :
        (nested : Parser → Ending (Table × Parser)) (name : Text) (group source : AddrMatch)
        (l : List Token)
        → IsKnownPart show inet_pton gmp gts group
        → IsKnownPart show inet_pton gmp gts source
        → rule_body inet_pton gmp nested name (
            take_token (
              tt_left_bracket
              ∷ write_part show group (tt_pipe ∷ write_part show source (tt_right_bracket ∷ l))))
          ≡ returned (some (rule_addr name group source), take_token (tt_right_bracket ∷ l))
    unfolding rule_body get_next_token has_type
    rule_body-addrs nested name group source l hg hs =
        rw
          (
            write_part-no_table group (tt_pipe ∷ write_part show source (tt_right_bracket ∷ l)),
            parse_rule_part-written show inet_pton gmp gts group tt_pipe
                (write_part show source (tt_right_bracket ∷ l)) hg tt_pipe-StopsAddr refl refl,
          )
          (rw
            (parse_rule_part-written show inet_pton gmp gts source tt_right_bracket l hs
              tt_right_bracket-StopsAddr refl refl)
            refl)
