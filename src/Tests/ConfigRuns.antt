-- ===== src/Tests/ConfigRuns.antt =====
-- Concrete inputs for the configuration: mcproxy/src/parser.
use mcproxy.Base.{
  zero, ◌≤◌, ◌<◌, ◌≡◌, refl, ◌↔◌, true, Option, none, some, List, [], ◌∷◌, map, arith, is_some,
  length,
}
use mcproxy.Protocol.{is_ipv4, is_ipv6, igmpv3}
use mcproxy.Text.{Text, codes, same_text}
use mcproxy.Addr.{
  get_addr_family, zero_addr, is_valid, addr_eq, addr_lt, addr_le, addr_ge, Addr, Family, ipv4,
  ipv6, af_unspec, af_inet, af_inet6,
}
use mcproxy.Rules.{
  get_name, get_rules, is_wildcard, addr_match, rule_addr_match, get_table, insert_table,
  table_match, ref_match, match_table, RuleBox, Table, single_addr, addr_range, rule_addr,
  rule_table_ref, table, no_rules, rule_then,
}
use mcproxy.Rules.Finite.{IsClosed}
use mcproxy.Rules.Passes.{match_table-ListPasses, ListPasses}
use mcproxy.Interface.{
  filter_binding, match_filter, find_instance, insert_instance, update_instance, find_interface,
  update_interface, RuleBinding, it_upstream, id_in, ft_blacklist,
}
use mcproxy.Interface.Filters.{FilterPasses, match_filter-FilterPasses}
use mcproxy.Ending.{Ends, Ending, returned, terminated, undefined}
use mcproxy.Token.{
  Token, tt_pinstance, tt_double_dot, tt_arrow, tt_table, tt_left_brace, tt_right_brace,
  tt_left_bracket, tt_right_bracket, tt_slash, tt_string,
}
use mcproxy.Scanner.{
  is_space, is_string, skip_spaces, read_word, read_quoted, find_keyword, word_token, symbol,
  read_arrow, read_string, read_token, read_next_token, fill_token_vec, scanner,
}
use mcproxy.Scanner.Printed.{spelled, scanner-spelled, scanner-equals_sign}
use mcproxy.Parser.{
  get_type, get_string, has_type, peek, take_token, get_next_token, parser, get_parser_type,
  protocol_of, parse_group_mem_proto, Parser,
}
use mcproxy.Parser.Numbers.{
  decimal, positive_int, stoi, protocol_family, has_char, addr_of_text, same_family,
}
use mcproxy.Parser.Parts.{
  addr_part, collect_addr, get_addr, range_part, rest_of_part, parse_rule_part,
}
use mcproxy.Parser.Tables.{
  rule_body, parse_rule, after_rule, parse_rules, table_reference, table_rules, table_body,
  parse_table_in, parse_table,
}
use mcproxy.Parser.Instances.{
  take_interfaces, parse_table_number, parse_interfaces, parse_instance_definition,
}
use mcproxy.Parser.Bindings.{
  with_interfaces, store_filter, bind_table, interface_type_of, if_name_of, direction_of,
  filter_type_of, parse_table_binding, parse_interface_rule_binding,
}
use mcproxy.Parser.TablesEnd.{TableOk}
use mcproxy.Parser.TableTotal.{parse_table-TableOk}
use mcproxy.Parser.Prefixes.{rest_of_part-prefix}
use mcproxy.Parser.Grammar.{
  table_of, write_table, TableText, Spelling, addrs_text, nested_text, reference_text, rules_text,
  no_texts, text_then, word_part, dot_part, star_spelling, word_spelling,
}
use mcproxy.Parser.AcceptsTables.{parse_table-write_table}
use mcproxy.Configuration.{
  delete_from, delete_comments, ltrim, rtrim, count_chars, split, number_commands,
  separate_commands, run_case, run_command, run_parser, configuration, Configuration,
}
use mcproxy.Configuration.Closed.{configuration-ConfigOk, ConfigOk}

-- An `inet_pton` that knows one address of each family.
abbrev test_pton : Family → Text → Option Addr
test_pton af_inet s = some (ipv4 0xe8000001)
test_pton af_inet6 s = some (ipv6 0xff020000 0 0 1)
test_pton af_unspec s = none

abbrev some_tokens : List Token
some_tokens =
    tt_pinstance
    ∷ tt_string (codes "a b")
    ∷ tt_double_dot
    ∷ tt_string (codes "eth0")
    ∷ tt_arrow
    ∷ tt_string (codes "eth1")
    ∷ []

scanner-spelled_example : scanner (spelled some_tokens []) ≡ returned some_tokens
scanner-spelled_example = scanner-spelled some_tokens (ground arith)

scanner-equals_sign_example :
    scanner (spelled some_tokens (b'=' ∷ b'x' ∷ b'"' ∷ [])) ≡ returned some_tokens
scanner-equals_sign_example =
    scanner-equals_sign some_tokens b'x' (b'"' ∷ []) (ground arith) (omega arith)

abbrev star_rule : RuleBox
star_rule = rule_addr (codes "eth0") (single_addr (ipv4 0)) (addr_range (ipv4 0) (ipv4 0xe8ffffff))

abbrev table_a : Table
table_a = table (codes "a") (rule_then star_rule no_rules)

abbrev table_b : Table
table_b = table (codes "b") (rule_then (rule_table_ref (codes "a")) no_rules)

abbrev two_tables : List Table
two_tables = table_b ∷ table_a ∷ []

two_tables-IsClosed : IsClosed two_tables
unfolding get_table get_name same_text
two_tables-IsClosed = (refl, (refl, tt), (refl, (tt, tt), tt))

match_run :
    match_table two_tables table_b (codes "eth0") (ipv4 0xe8000001) (ipv4 0xc0a80001) ≡ some true
unfolding match_table table_match ref_match get_table get_name same_text rule_addr_match addr_match
    addr_eq is_wildcard zero_addr get_addr_family addr_ge addr_le addr_lt
match_run = refl

match_table-ListPasses_example :
    (is_some (match_table two_tables table_b (codes "eth0") (ipv4 0xe8000001) (ipv4 0xc0a80001))
      ≡ true)
    × ((match_table two_tables table_b (codes "eth0") (ipv4 0xe8000001) (ipv4 0xc0a80001)
          ≡ some true)
        ↔ ListPasses two_tables
            (codes "eth0")
            (ipv4 0xe8000001)
            (ipv4 0xc0a80001)
            (get_rules table_b))
unfolding get_table get_name same_text
match_table-ListPasses_example =
    match_table-ListPasses two_tables table_b (codes "eth0") (ipv4 0xe8000001) (ipv4 0xc0a80001)
      two_tables-IsClosed (refl, tt)

abbrev black_filter : Option RuleBinding
black_filter =
    some (filter_binding (codes "p") it_upstream (codes "eth0") id_in ft_blacklist table_b)

match_filter-FilterPasses_example :
    (is_some
        (match_filter two_tables (codes "eth0") (ipv4 0xe8000001) (ipv4 0xc0a80001) black_filter)
      ≡ true)
    × ((match_filter two_tables (codes "eth0") (ipv4 0xe8000001) (ipv4 0xc0a80001) black_filter
          ≡ some true)
        ↔ FilterPasses two_tables (codes "eth0") (ipv4 0xe8000001) (ipv4 0xc0a80001) black_filter)
unfolding get_table get_name same_text
match_filter-FilterPasses_example =
    match_filter-FilterPasses two_tables (codes "eth0") (ipv4 0xe8000001) (ipv4 0xc0a80001)
      black_filter two_tables-IsClosed (refl, tt)

abbrev table_command : Parser
table_command = record {
  current_token = tt_table;
  rest =
      tt_string (codes "c")
      ∷ tt_left_brace
      ∷ tt_left_bracket
      ∷ tt_table
      ∷ tt_string (codes "a")
      ∷ tt_right_bracket
      ∷ tt_right_brace
      ∷ [];
}

parse_table-TableOk_example :
    Ends
      (TableOk two_tables (length table_command.rest))
      (parse_table test_pton igmpv3 two_tables table_command)
parse_table-TableOk_example = parse_table-TableOk test_pton igmpv3 two_tables table_command

abbrev script : Text
script =
    codes
      "protocol MLDv2; # a comment\npinstance p: eth0 ==> eth1; table t {eth0(* | ff02::1 - *)}; pinstance p upstream eth0 in blacklist table t;"

abbrev script_result : Ending Configuration
script_result = configuration test_pton script

-- The filter that the last command stores, and the protocol.
configuration_run :
    elim script_result [
      | returned c ↦ map (λ d. map (λ i. is_some i.input_filter) d.upstreams) c.instances
      | _ ↦ []
    ]
    ≡ (true ∷ []) ∷ []
unfolding configuration run_parser run_command run_case parser scanner fill_token_vec
    read_next_token read_token read_string read_word read_quoted symbol word_token find_keyword
    is_string skip_spaces is_space read_arrow same_text separate_commands number_commands split
    rtrim ltrim count_chars delete_comments delete_from get_parser_type has_type get_type get_string
    get_next_token peek parse_group_mem_proto protocol_of parse_instance_definition
    parse_table_number parse_interfaces take_interfaces insert_instance find_instance
    parse_interface_rule_binding parse_table_binding parse_table parse_table_in table_body
    table_rules table_reference parse_rules after_rule parse_rule rule_body parse_rule_part
    rest_of_part range_part get_addr collect_addr addr_part addr_of_text has_char same_family
    get_addr_family protocol_family is_ipv4 is_ipv6 is_valid insert_table get_table get_name
    interface_type_of if_name_of direction_of filter_type_of bind_table find_interface store_filter
    update_instance update_interface with_interfaces zero_addr
configuration_run = refl

configuration-ConfigOk_example : Ends ConfigOk (configuration test_pton script)
configuration-ConfigOk_example = configuration-ConfigOk test_pton script

rest_of_part-prefix_example :
    ((rest_of_part test_pton igmpv3
          (ipv4 0xe8000001)
          (take_token (tt_slash ∷ tt_string (codes "200") ∷ []))
        ≡ terminated)
      ↔ (128 < 200))
    × ((rest_of_part test_pton igmpv3
            (ipv4 0xe8000001)
            (take_token (tt_slash ∷ tt_string (codes "200") ∷ []))
          ≡ undefined)
        ↔ ((32 ≤ 200) × (200 ≤ 128)))
unfolding stoi skip_spaces positive_int decimal is_space
rest_of_part-prefix_example =
    rest_of_part-prefix test_pton igmpv3 0xe8000001 200 (codes "200") [] refl

-- 0.0.0.0 is written as a star, and any other address as 232.0.0.1 without quotes.
abbrev test_show : Addr → Spelling
test_show (ipv4 zero) = star_spelling
test_show a = word_spelling (codes "232") (
    dot_part
    ∷ word_part (codes "0")
    ∷ dot_part
    ∷ word_part (codes "0")
    ∷ dot_part
    ∷ word_part (codes "1")
    ∷ [])

abbrev written_table : TableText
written_table = rules_text (codes "c") (
    text_then
      (addrs_text (codes "eth0") (single_addr (ipv4 0xe8000001))
        (addr_range (ipv4 0xe8000001) (ipv4 0)))
      (text_then (nested_text (reference_text (codes "a"))) no_texts))

parse_table-write_table_example :
    parse_table test_pton igmpv3 two_tables
      (take_token (tt_table ∷ write_table test_show written_table []))
    ≡ returned (table_of written_table, take_token [])
unfolding addr_of_text has_char is_valid get_addr_family protocol_family is_ipv4 same_family
    get_table get_name same_text zero_addr
parse_table-write_table_example =
    parse_table-write_table test_show test_pton igmpv3 two_tables written_table
      (((refl, refl), ((refl, refl), refl)), (refl, tt))
