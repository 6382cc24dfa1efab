-- ===== src/Scanner.antt =====
-- mcproxy/src/parser/scanner.cpp: from the text of a command to its tokens. The state of the scanner
-- is the text from the current character on; at its end the current character is zero. Bytes above
-- 127 are in no class of characters.
pub mod Progress
pub mod Printed
use mcproxy.Base.{
  ℕ, zero, suc, ◌+◌, ◌*◌, Bool, ◌&&◌, ◌||◌, Option, none, some, List, [], ◌∷◌, map, leb, ◌==◌,
  if◌then◌else◌, length,
}
use mcproxy.Protocol.{igmpv1, igmpv2, igmpv3, mldv1, mldv2}
use mcproxy.TimersValues.{TimersValues}
use mcproxy.World.{World}
use mcproxy.Querier.Records.{Querier}
use mcproxy.Querier.Invariant.{Timed}
use mcproxy.MessageQueue.{MessageQueue}
use mcproxy.Text.{Text, codes, same_text}
use mcproxy.Addr.{Addr}
use mcproxy.Rules.{Table, table}
use mcproxy.Interface.{Interface}
use mcproxy.Ending.{◌>>=◌, Ending, failed_to_scan, returned, thrown, out_of_fuel}
use mcproxy.Token.{
  is_nil, Token, tt_protocol, tt_mldv1, tt_mldv2, tt_igmpv1, tt_igmpv2, tt_igmpv3, tt_pinstance,
  tt_double_dot, tt_dot, tt_arrow, tt_upstream, tt_downstream, tt_out, tt_in, tt_blacklist,
  tt_whitelist, tt_rule_matching, tt_table, tt_all, tt_first, tt_mutex, tt_disable, tt_left_brace,
  tt_right_brace, tt_left_bracket, tt_right_bracket, tt_range, tt_slash, tt_star, tt_pipe, tt_nil,
  tt_string,
}

-- `std::isspace` in the default locale
unfoldable pub is_space : ℕ → Bool
is_space c = c == 32 || (leb 9 c && leb c 13)

abbrev pub is_upper : ℕ → Bool
is_upper c = leb b'A' c && leb c b'Z'

abbrev pub is_lower : ℕ → Bool
is_lower c = leb b'a' c && leb c b'z'

abbrev pub is_digit : ℕ → Bool
is_digit c = leb b'0' c && leb c b'9'

-- The lambda `is_string`.
unfoldable pub is_string : ℕ → Bool
is_string c = is_upper c || is_lower c || is_digit c || c == b'_'

abbrev pub to_lower : ℕ → ℕ
to_lower c = if is_upper c then c + 32 else c

unfoldable pub skip_spaces : Text → Text
unfolding is_space
skip_spaces [] = []
skip_spaces (c ∷ s) = let rest = skip_spaces s in if is_space c then rest else c ∷ s

-- The loop over a word: its characters, and the text after them.
unfoldable pub read_word : Text → Text × Text
read_word [] = ([], [])
read_word (c ∷ s) =
    let rest = read_word s in if is_string c then (c ∷ rest.0, rest.1) else ([], c ∷ s)

-- The loop over a quoted text, and the character after it.
unfoldable pub read_quoted : Text → Text × Text
read_quoted [] = ([], [])
read_quoted (c ∷ s) =
    let rest = read_quoted s in if c == 0 || c == b'"' then ([], s) else (c ∷ rest.0, rest.1)

-- The comparisons of a word in lower case, in their order.
abbrev pub keywords : List (Text × Token)
keywords =
    (codes "protocol", tt_protocol)
    ∷ (codes "mldv1", tt_mldv1)
    ∷ (codes "mldv2", tt_mldv2)
    ∷ (codes "igmpv1", tt_igmpv1)
    ∷ (codes "igmpv2", tt_igmpv2)
    ∷ (codes "igmpv3", tt_igmpv3)
    ∷ (codes "pinstance", tt_pinstance)
    ∷ (codes "upstream", tt_upstream)
    ∷ (codes "downstream", tt_downstream)
    ∷ (codes "rulematching", tt_rule_matching)
    ∷ (codes "out", tt_out)
    ∷ (codes "in", tt_in)
    ∷ (codes "blacklist", tt_blacklist)
    ∷ (codes "whitelist", tt_whitelist)
    ∷ (codes "table", tt_table)
    ∷ (codes "all", tt_all)
    ∷ (codes "first", tt_first)
    ∷ (codes "mutex", tt_mutex)
    ∷ (codes "disable", tt_disable)
    ∷ []

unfoldable pub find_keyword : Text → List (Text × Token) → Option Token
find_keyword s [] = none
find_keyword s ((k, t) ∷ l) = if same_text s k then some t else find_keyword s l

-- The token of a word; the text of a `TT_STRING` keeps its case.
unfoldable pub word_token : Text → Token
word_token s = elim (find_keyword (map to_lower s) keywords) [ none ↦ tt_string s | some t ↦ t ]

-- The cases of one character.
unfoldable pub symbol : ℕ → Option Token
symbol c =
    if c == b':'
    then some tt_double_dot
    else if c == b'.'
    then some tt_dot
    else if c == b'{'
    then some tt_left_brace
    else if c == b'}'
    then some tt_right_brace
    else if c == b'('
    then some tt_left_bracket
    else if c == b')'
    then some tt_right_bracket
    else if c == b'-'
    then some tt_range
    else if c == b'/'
    then some tt_slash
    else if c == b'*'
    then some tt_star
    else if c == b'|'
    then some tt_pipe
    else none

-- The case of `=`, after that character.
unfoldable pub read_arrow : Text → Token × Text
read_arrow [] = (tt_nil, [])
read_arrow (c ∷ []) = if c == b'=' then (tt_nil, []) else (tt_nil, c ∷ [])
read_arrow (c ∷ d ∷ s) =
    if c == b'=' then if d == b'>' then (tt_arrow, s) else (tt_nil, d ∷ s) else (tt_nil, c ∷ d ∷ s)

-- The default case and that of a quote. `none`: the exception.
unfoldable pub read_string : ℕ → Text → Option (Token × Text)
read_string c s =
    if c == b'"'
    then some (tt_string (read_quoted s).0, (read_quoted s).1)
    else if is_string c
    then some (word_token (c ∷ (read_word s).0), (read_word s).1)
    else none

-- The `switch` of `read_next_token`.
unfoldable pub read_token : Text → Option (Token × Text)
read_token [] = some (tt_nil, [])
read_token (c ∷ s) =
    if c == 0
    then some (tt_nil, c ∷ s)
    else if c == b'='
    then some (read_arrow s)
    else elim (symbol c) [ some t ↦ some (t, s) | none ↦ read_string c s ]

unfoldable pub read_next_token : Text → Option (Token × Text)
read_next_token s = read_token (skip_spaces s)

-- `fill_token_vec`, on fuel for the tokens.
unfoldable pub fill_token_vec : ℕ → Text → Ending (List Token)
fill_token_vec zero s = out_of_fuel
fill_token_vec (suc fuel) s = elim (read_next_token s) [
  | none ↦ thrown failed_to_scan
  | some (t, r) ↦
      let rest = fill_token_vec fuel r in
      if is_nil t then returned [] else rest >>= λ l. returned (t ∷ l)
]

-- The constructor: every token but the last takes a character.
unfoldable pub scanner : Text → Ending (List Token)
scanner s = fill_token_vec (suc (length s)) s
