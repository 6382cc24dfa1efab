-- ===== src/Configuration.antt =====
-- mcproxy/include/parser/configuration.hpp and mcproxy/src/parser/configuration.cpp: from the text of
-- the configuration file to the protocol, the tables and the instances.
pub mod Growing
pub mod Instances
pub mod Bindings
pub mod Closed
pub mod Comments
use mcproxy.Base.{
  ℕ, suc, ◌+◌, ◌-◌, ◌*◌, Bool, false, not, ◌&&◌, Option, none, some, List, [], ◌∷◌, ◌==◌,
  if◌then◌else◌, is_empty,
}
use mcproxy.Protocol.{GroupMemProtocol, igmpv3}
use mcproxy.TimersValues.{TimersValues}
use mcproxy.World.{World}
use mcproxy.Querier.Records.{Querier}
use mcproxy.Querier.Invariant.{Timed}
use mcproxy.MessageQueue.{MessageQueue}
use mcproxy.Text.{Text}
use mcproxy.Addr.{Addr, Family}
use mcproxy.Rules.{insert_table, Table}
use mcproxy.Interface.{Interface, InstanceDefinition}
use mcproxy.Ending.{◌>>=◌, Ending, failed_to_insert, returned, thrown}
use mcproxy.Token.{Token}
use mcproxy.Scanner.{is_space, skip_spaces}
use mcproxy.Parser.{
  parser, get_parser_type, parse_group_mem_proto, Parser, ParserType, pt_protocol,
  pt_instance_definition, pt_table, pt_interface_rule_binding,
}
use mcproxy.Parser.Tables.{parse_table}
use mcproxy.Parser.Instances.{parse_instance_definition}
use mcproxy.Parser.Bindings.{parse_interface_rule_binding}

-- The loop of `delete_comments`: a comment goes from `#` to the end of the line, which is kept;
-- `in_comment` says whether the text starts in one.
unfoldable pub delete_from : Bool → Text → Text
delete_from in_comment [] = []
delete_from in_comment (c ∷ s) =
    let skip = if in_comment then not (c == 10) else c == b'#' in
    let rest = delete_from skip s in if skip then rest else c ∷ rest

unfoldable pub delete_comments : Text → Text
delete_comments script_file = delete_from false script_file

unfoldable pub ltrim : Text → Text
ltrim s = skip_spaces s

unfoldable pub rtrim : Text → Text
rtrim [] = []
rtrim (c ∷ s) = let rest = rtrim s in if is_empty rest && is_space c then [] else c ∷ rest

unfoldable pub count_chars : Text → ℕ → ℕ
count_chars [] comp = 0
count_chars (c ∷ s) comp = if c == comp then suc (count_chars s comp) else count_chars s comp

-- A character before the first of some pieces.
abbrev pub cons_first : ℕ → List Text → List Text
cons_first c [] = (c ∷ []) ∷ []
cons_first c (s ∷ l) = (c ∷ s) ∷ l

-- The pieces that `std::getline` gives, and one more that is empty where the text ends with the
-- separator.
unfoldable pub split : ℕ → Text → List Text
split sep [] = [] ∷ []
split sep (c ∷ s) = let rest = split sep s in if c == sep then [] ∷ rest else cons_first c rest

-- The loop of `separate_commands`: each command with the number of its line.
unfoldable pub number_commands : ℕ → List Text → List (ℕ × Text)
number_commands current_line [] = []
number_commands current_line (item ∷ l) =
    let before = count_chars item 10 in
    let after = count_chars (ltrim item) 10 in
    let cmd = rtrim (ltrim item) in
    let rest = number_commands (current_line + before) l in
    if is_empty cmd then rest else (current_line + (before - after), cmd) ∷ rest

unfoldable pub separate_commands : Text → List (ℕ × Text)
separate_commands script_file = number_commands 1 (split b';' script_file)

pub record Configuration : Type 0 where
  pub group_mem_protocol : GroupMemProtocol
  pub global_tables : List Table
  pub instances : List InstanceDefinition

module _ (inet_pton : Family → Text → Option Addr) where
  -- The cases of the `switch` in `run_parser`.
  unfoldable pub run_case : ParserType → Parser → Configuration → Ending Configuration
  run_case pt_protocol p c = do
    gmp ← parse_group_mem_proto p
    returned (record c { group_mem_protocol = gmp })
  run_case pt_instance_definition p c = do
    ids ← parse_instance_definition p c.instances
    returned (record c { instances = ids })
  run_case pt_table p c = do
    (t, q) ← parse_table inet_pton c.group_mem_protocol c.global_tables p
    elim (insert_table t c.global_tables) [
      | none ↦ thrown failed_to_insert
      | some ts ↦ returned (record c { global_tables = ts })
    ]
  run_case pt_interface_rule_binding p c = do
    ids ← parse_interface_rule_binding inet_pton c.group_mem_protocol c.global_tables p c.instances
    returned (record c { instances = ids })

  -- A round of the loop of `run_parser`.
  unfoldable pub run_command : Text → Configuration → Ending Configuration
  run_command cmd c = do p ← parser cmd; kind ← get_parser_type p; run_case kind p c

  unfoldable pub run_parser : List (ℕ × Text) → Configuration → Ending Configuration
  run_parser [] c = returned c
  run_parser ((line, cmd) ∷ l) c = run_command cmd c >>= λ d. run_parser l d

  -- The constructor up to the interfaces of the system: the commands of the file that `load_file`
  -- gives, from the default settings.
  unfoldable pub configuration : Text → Ending Configuration
  configuration script_file =
      run_parser (separate_commands (delete_comments script_file))
        (record { group_mem_protocol = igmpv3; global_tables = []; instances = [] })
