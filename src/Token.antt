-- ===== src/Token.antt =====
-- mcproxy/include/parser/token.hpp and mcproxy/src/parser/token.cpp: the tokens; only a `TT_STRING`
-- has a text.
use mcproxy.Base.{Bool, true, false}
use mcproxy.Text.{Text}

pub data Token : Type 0 where
  tt_protocol tt_mldv1 tt_mldv2 tt_igmpv1 tt_igmpv2 tt_igmpv3 tt_pinstance : Token
  tt_double_dot tt_dot tt_arrow tt_upstream tt_downstream tt_out tt_in tt_blacklist : Token
  tt_whitelist tt_rule_matching tt_table tt_all tt_first tt_mutex tt_disable : Token
  tt_left_brace tt_right_brace tt_left_bracket tt_right_bracket : Token
  tt_range tt_slash tt_star tt_pipe tt_nil : Token
  tt_string : Text → Token

abbrev pub is_nil : Token → Bool
is_nil tt_nil = true
is_nil _ = false
