-- ===== src/Parser.antt =====
-- mcproxy/include/parser/parser.hpp and mcproxy/src/parser/parser.cpp: the state of the parser, the
-- kind of a command, and the command `protocol`. The state is the current token and the tokens that
-- the scanner still has.
pub mod Numbers
pub mod Parts
pub mod Tables
pub mod PartsEnd
pub mod TablesEnd
pub mod Written
pub mod AcceptsTables
pub mod Grammar
pub mod Accepts
pub mod Prefixes
pub mod TableTotal
pub mod Instances
pub mod Bindings
use mcproxy.Base.{
  ℕ, zero, suc, ◌*◌, Bool, true, false, ◌&&◌, ◌||◌, Option, none, some, List, [], ◌∷◌, ◌==◌,
  if◌then◌else◌,
}
use mcproxy.Protocol.{GroupMemProtocol, igmpv1, igmpv2, igmpv3, mldv1, mldv2}
use mcproxy.TimersValues.{TimersValues}
use mcproxy.World.{World}
use mcproxy.Querier.Records.{Querier}
use mcproxy.Querier.Invariant.{Timed}
use mcproxy.MessageQueue.{MessageQueue}
use mcproxy.Text.{Text}
use mcproxy.Addr.{Addr}
use mcproxy.Rules.{Table}
use mcproxy.Interface.{Interface}
use mcproxy.Ending.{◌>>=◌, Ending, failed_to_parse, is_disabled, returned, thrown}
use mcproxy.Token.{
  Token, tt_protocol, tt_mldv1, tt_mldv2, tt_igmpv1, tt_igmpv2, tt_igmpv3, tt_pinstance,
  tt_double_dot, tt_dot, tt_arrow, tt_upstream, tt_downstream, tt_out, tt_in, tt_blacklist,
  tt_whitelist, tt_rule_matching, tt_table, tt_all, tt_first, tt_mutex, tt_disable, tt_left_brace,
  tt_right_brace, tt_left_bracket, tt_right_bracket, tt_range, tt_slash, tt_star, tt_pipe, tt_nil,
  tt_string,
}
use mcproxy.Scanner.{scanner}

-- `token::get_type`, by the position in the enumeration.
unfoldable pub get_type : Token → ℕ
get_type tt_protocol = 0
get_type tt_mldv1 = 1
get_type tt_mldv2 = 2
get_type tt_igmpv1 = 3
get_type tt_igmpv2 = 4
get_type tt_igmpv3 = 5
get_type tt_pinstance = 6
get_type tt_double_dot = 7
get_type tt_dot = 8
get_type tt_arrow = 9
get_type tt_upstream = 10
get_type tt_downstream = 11
get_type tt_out = 12
get_type tt_in = 13
get_type tt_blacklist = 14
get_type tt_whitelist = 15
get_type tt_rule_matching = 16
get_type tt_table = 17
get_type tt_all = 18
get_type tt_first = 19
get_type tt_mutex = 20
get_type tt_disable = 21
get_type tt_left_brace = 22
get_type tt_right_brace = 23
get_type tt_left_bracket = 24
get_type tt_right_bracket = 25
get_type tt_range = 26
get_type tt_slash = 27
get_type tt_star = 28
get_type tt_pipe = 29
get_type (tt_string s) = 30
get_type tt_nil = 31

-- `token::get_string`
unfoldable pub get_string : Token → Text
get_string (tt_string s) = s
get_string _ = []

-- `t.get_type() == tt`, where the text of `tt` does not count.
unfoldable pub has_type : Token → Token → Bool
unfolding get_type
has_type t tt = get_type t == get_type tt

abbrev pub any_string : Token
any_string = tt_string []

pub record Parser : Type 0 where
  pub current_token : Token
  pub rest : List Token

-- `scanner::get_next_token` with `peek`
unfoldable pub peek : ℕ → List Token → Token
peek n [] = tt_nil
peek zero (t ∷ l) = t
peek (suc n) (t ∷ l) = peek n l

-- `get_next_token`
abbrev pub take_token : List Token → Parser
take_token [] = record { current_token = tt_nil; rest = [] }
take_token (t ∷ l) = record { current_token = t; rest = l }

unfoldable pub get_next_token : Parser → Parser
get_next_token p = take_token p.rest

-- The constructor
unfoldable pub parser : Text → Ending Parser
parser cmd = do tokens ← scanner cmd; returned (take_token tokens)

pub data ParserType : Type 0 where
  pt_protocol pt_instance_definition pt_table pt_interface_rule_binding : ParserType

-- A `throw` of "failed to parse config file".
abbrev pub fail {ℓ} : {A : Type ℓ} → Ending A
fail = thrown failed_to_parse

unfoldable pub get_parser_type : Parser → Ending ParserType
get_parser_type p =
    let t = p.current_token in
    let cmp_token = peek 1 p.rest in
    if has_type t tt_protocol
    then returned pt_protocol
    else if has_type t tt_table
    then returned pt_table
    else if has_type t tt_pinstance
    then (if has_type cmp_token tt_double_dot || has_type cmp_token tt_left_bracket
        then returned pt_instance_definition
        else if has_type cmp_token tt_upstream || has_type cmp_token tt_downstream
        then returned pt_interface_rule_binding
        else fail)
    else if has_type t tt_disable
    then thrown is_disabled
    else fail

-- The `switch` of `parse_group_mem_proto`; `none` is the default case.
unfoldable pub protocol_of : Token → Option GroupMemProtocol
protocol_of tt_mldv1 = some mldv1
protocol_of tt_mldv2 = some mldv2
protocol_of tt_igmpv1 = some igmpv1
protocol_of tt_igmpv2 = some igmpv2
protocol_of tt_igmpv3 = some igmpv3
protocol_of _ = none

abbrev pub is_pt_protocol : ParserType → Bool
is_pt_protocol pt_protocol = true
is_pt_protocol _ = false

unfoldable pub parse_group_mem_proto : Parser → Ending GroupMemProtocol
parse_group_mem_proto p = do
  kind ← get_parser_type p
  let p' = get_next_token p
  elim (protocol_of p'.current_token) [
    | none ↦ fail
    | some result ↦
        if is_pt_protocol kind && has_type (get_next_token p').current_token tt_nil
        then returned result
        else fail
  ]
