-- ===== src/Scanner/Printed.antt =====
-- mcproxy/src/parser/scanner.cpp: the scanner reads back what is written with its tokens.
use mathlib.Core.List.{append_assoc}
use mcproxy.Base.{
  ℕ, zero, suc, ◌+◌, ◌≤◌, ◌≡◌, refl, ap, ◌∙◌, ◌≢◌, false, ◌||◌, some, List, [], ◌∷◌, ◌++◌, arith,
  ◌==◌, if◌then◌else◌, length, length-append, All,
}
use mcproxy.Text.{Text, codes, same_text}
use mcproxy.Ending.{◌>>=◌, Ending, returned}
use mcproxy.Token.{
  is_nil, Token, tt_protocol, tt_mldv1, tt_mldv2, tt_igmpv1, tt_igmpv2, tt_igmpv3, tt_pinstance,
  tt_double_dot, tt_dot, tt_arrow, tt_upstream, tt_downstream, tt_out, tt_in, tt_blacklist,
  tt_whitelist, tt_rule_matching, tt_table, tt_all, tt_first, tt_mutex, tt_disable, tt_left_brace,
  tt_right_brace, tt_left_bracket, tt_right_bracket, tt_range, tt_slash, tt_star, tt_pipe, tt_nil,
  tt_string,
}
use mcproxy.Scanner.{
  is_space, is_string, skip_spaces, read_word, read_quoted, find_keyword, word_token, symbol,
  read_arrow, read_string, read_token, read_next_token, fill_token_vec, scanner,
}
use mcproxy.Scanner.Progress.{fill_token_vec-some}

-- The text of a token that is no `TT_NIL`; a `TT_STRING` in quotes.
abbrev pub spelling : Token → Text
spelling tt_protocol = codes "protocol"
spelling tt_mldv1 = codes "MLDv1"
spelling tt_mldv2 = codes "MLDv2"
spelling tt_igmpv1 = codes "IGMPv1"
spelling tt_igmpv2 = codes "IGMPv2"
spelling tt_igmpv3 = codes "IGMPv3"
spelling tt_pinstance = codes "pinstance"
spelling tt_double_dot = codes ":"
spelling tt_dot = codes "."
spelling tt_arrow = codes "==>"
spelling tt_upstream = codes "upstream"
spelling tt_downstream = codes "downstream"
spelling tt_out = codes "out"
spelling tt_in = codes "in"
spelling tt_blacklist = codes "blacklist"
spelling tt_whitelist = codes "whitelist"
spelling tt_rule_matching = codes "rulematching"
spelling tt_table = codes "table"
spelling tt_all = codes "all"
spelling tt_first = codes "first"
spelling tt_mutex = codes "mutex"
spelling tt_disable = codes "disable"
spelling tt_left_brace = codes "{"
spelling tt_right_brace = codes "}"
spelling tt_left_bracket = codes "("
spelling tt_right_bracket = codes ")"
spelling tt_range = codes "-"
spelling tt_slash = codes "/"
spelling tt_star = codes "*"
spelling tt_pipe = codes "|"
spelling tt_nil = []
spelling (tt_string s) = b'"' ∷ (s ++ (b'"' ∷ []))

-- Tokens with a space after each, and a text after them.
pub spelled : List Token → Text → Text
spelled [] tail = tail
spelled (t ∷ ts) tail = spelling t ++ (b' ' ∷ spelled ts tail)

-- No `TT_NIL`, and no quote and no zero in a text.
abbrev pub IsSpelled : Token → Type 0
IsSpelled tt_nil = ⊥
IsSpelled (tt_string s) = All (λ c. (c == 0 || c == b'"') ≡ false) s
IsSpelled _ = Unit

read_quoted-append :
    (s rest : Text)
    → All (λ c. (c == 0 || c == b'"') ≡ false) s
    → read_quoted (s ++ (b'"' ∷ rest)) ≡ (s, rest)
unfolding read_quoted
read_quoted-append [] rest h = refl
read_quoted-append (c ∷ s) rest (hc, h) = ground (arith, read_quoted-append s rest)

read-spelling :
    (t : Token) (rest : Text)
    → IsSpelled t
    → read_next_token (spelling t ++ (b' ' ∷ rest)) ≡ some (t, b' ' ∷ rest)
unfolding read_next_token read_token skip_spaces read_string read_word word_token find_keyword
    symbol read_arrow is_string same_text is_space
read-spelling tt_nil rest h = absurd h
read-spelling (tt_string s) rest h =
    rw (append_assoc s (b'"' ∷ []) (b' ' ∷ rest), read_quoted-append s (b' ' ∷ rest) h)
read-spelling tt_protocol rest h = refl
read-spelling tt_mldv1 rest h = refl
read-spelling tt_mldv2 rest h = refl
read-spelling tt_igmpv1 rest h = refl
read-spelling tt_igmpv2 rest h = refl
read-spelling tt_igmpv3 rest h = refl
read-spelling tt_pinstance rest h = refl
read-spelling tt_double_dot rest h = refl
read-spelling tt_dot rest h = refl
read-spelling tt_arrow rest h = refl
read-spelling tt_upstream rest h = refl
read-spelling tt_downstream rest h = refl
read-spelling tt_out rest h = refl
read-spelling tt_in rest h = refl
read-spelling tt_blacklist rest h = refl
read-spelling tt_whitelist rest h = refl
read-spelling tt_rule_matching rest h = refl
read-spelling tt_table rest h = refl
read-spelling tt_all rest h = refl
read-spelling tt_first rest h = refl
read-spelling tt_mutex rest h = refl
read-spelling tt_disable rest h = refl
read-spelling tt_left_brace rest h = refl
read-spelling tt_right_brace rest h = refl
read-spelling tt_left_bracket rest h = refl
read-spelling tt_right_bracket rest h = refl
read-spelling tt_range rest h = refl
read-spelling tt_slash rest h = refl
read-spelling tt_star rest h = refl
read-spelling tt_pipe rest h = refl

IsSpelled-is_nil : (t : Token) → IsSpelled t → is_nil t ≡ false
IsSpelled-is_nil t h = ground arith

cons-returned :
    (t : Token) (m : Ending (List Token)) (ts : List Token)
    → IsSpelled t
    → m ≡ returned ts
    → (if is_nil t then returned [] else (m >>= λ l. returned (t ∷ l))) ≡ returned (t ∷ ts)
cons-returned t m ts ht h = rw (IsSpelled-is_nil t ht, h)

fill_token_vec-spelled :
    (fuel : ℕ) (ts : List Token) (tail r : Text)
    → length ts + 1 ≤ fuel
    → All IsSpelled ts
    → read_next_token tail ≡ some (tt_nil, r)
    → (fill_token_vec fuel (spelled ts tail) ≡ returned ts)
      × (fill_token_vec fuel (b' ' ∷ spelled ts tail) ≡ returned ts)
unfolding spelled fill_token_vec read_next_token skip_spaces
fill_token_vec-spelled zero ts tail r le h e = absurd (omega arith)
fill_token_vec-spelled (suc fuel) [] tail r le h e =
    let step = fill_token_vec-some fuel tail tt_nil r e in (step, step)
fill_token_vec-spelled (suc fuel) (t ∷ ts) tail r le (ht, h) e =
    let rest = spelled ts tail in
    let step =
      fill_token_vec-some fuel (spelling t ++ (b' ' ∷ rest)) t (b' ' ∷ rest)
        (read-spelling t rest ht)
      ∙ cons-returned t (fill_token_vec fuel (b' ' ∷ rest)) ts ht
          (fill_token_vec-spelled fuel ts tail r (omega arith) h e).1 in
    (step, step)

length-spelled : (ts : List Token) (tail : Text) → length ts ≤ length (spelled ts tail)
unfolding spelled
length-spelled [] tail = omega arith
length-spelled (t ∷ ts) tail =
    omega (arith, length-append (spelling t) (b' ' ∷ spelled ts tail), length-spelled ts tail)

scanner-spelled_tail :
    (ts : List Token) (tail r : Text)
    → All IsSpelled ts
    → read_next_token tail ≡ some (tt_nil, r)
    → scanner (spelled ts tail) ≡ returned ts
unfolding scanner
scanner-spelled_tail ts tail r h e =
    (fill_token_vec-spelled (suc (length (spelled ts tail))) ts tail r
      (omega (arith, length-spelled ts tail)) h e).0

-- The scanner reads back all tokens from their spellings with spaces between, where the texts of
-- the strings have no quote and no zero.
pub scanner-spelled : (ts : List Token) → All IsSpelled ts → scanner (spelled ts []) ≡ returned ts
unfolding read_next_token read_token skip_spaces
scanner-spelled ts h = scanner-spelled_tail ts [] [] h refl

read_arrow-other : (c : ℕ) (s : Text) → c ≢ b'=' → read_arrow (c ∷ s) ≡ (tt_nil, c ∷ s)
unfolding read_arrow
read_arrow-other c [] ne = ground arith
read_arrow-other c (d ∷ s) ne = ground arith

-- Where `=` is not followed by another one, the command ends without an error: the tokens before it
-- are returned, and all that follows is dropped.
pub scanner-equals_sign :
    (ts : List Token) (c : ℕ) (s : Text)
    → All IsSpelled ts
    → c ≢ b'='
    → scanner (spelled ts (b'=' ∷ c ∷ s)) ≡ returned ts
unfolding read_next_token read_token skip_spaces read_arrow
scanner-equals_sign ts c s h ne =
    scanner-spelled_tail ts (b'=' ∷ c ∷ s) (c ∷ s) h (ap some (read_arrow-other c s ne))
