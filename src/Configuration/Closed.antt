-- ===== src/Configuration/Closed.antt =====
-- mcproxy/src/parser/configuration.cpp: in every configuration that is read, the tables are closed,
-- and the filters refer only to tables that are there.
use mcproxy.Base.{ℕ, ◌≡◌, inl, inr, ◌&&◌, Option, some, List, [], ◌∷◌, arith, Option-cases, length}
use mcproxy.Protocol.{GroupMemProtocol}
use mcproxy.Text.{Text}
use mcproxy.Addr.{Addr, Family}
use mcproxy.Rules.{get_name, get_table, insert_table, Table}
use mcproxy.Rules.Finite.{TableRefsIn, IsClosed}
use mcproxy.Interface.{InstanceDefinition}
use mcproxy.Ending.{Ends, thrown-Ends, returned-Ends, >>=-Ends, if-Ends, Option-Ends}
use mcproxy.Token.{Token, tt_nil}
use mcproxy.Scanner.{scanner}
use mcproxy.Scanner.Progress.{scanner-ends}
use mcproxy.Parser.{
  has_type, get_next_token, parser, protocol_of, is_pt_protocol, parse_group_mem_proto, Parser,
  ParserType, pt_protocol, pt_instance_definition, pt_table, pt_interface_rule_binding,
}
use mcproxy.Parser.TablesEnd.{get_parser_type-Ends, TableOk}
use mcproxy.Parser.TableTotal.{parse_table-TableOk}
use mcproxy.Configuration.{
  delete_comments, separate_commands, run_case, run_command, run_parser, configuration,
  Configuration,
}
use mcproxy.Configuration.Growing.{InstanceOk, All-map, InstanceOk-cons}
use mcproxy.Configuration.Instances.{along, InstancesOk, parse_instance_definition-Ok}
use mcproxy.Configuration.Bindings.{parse_interface_rule_binding-Ok}

scanner-Ends : (s : Text) → Ends (λ k. Unit {0}) (scanner s)
unfolding Ends
scanner-Ends s = ground (arith, scanner-ends s)

parse_group_mem_proto-Ends : (p : Parser) → Ends (λ k. Unit {0}) (parse_group_mem_proto p)
unfolding parse_group_mem_proto
parse_group_mem_proto-Ends p =
    let p2 = get_next_token p in
    let Any = λ (k : GroupMemProtocol). Unit {0} in
    >>=-Ends {A = ParserType} (λ k. Unit {0}) Any _ _ (get_parser_type-Ends p)
      (λ kind hk.
        Option-Ends Any (protocol_of p2.current_token) _ _ (λ e. thrown-Ends _ _)
          (λ r e.
            if-Ends Any (is_pt_protocol kind && has_type (get_next_token p2).current_token tt_nil) _
              _ (λ e2. returned-Ends _ _ tt) (λ e2. thrown-Ends _ _)))

-- What is known of a configuration.
pub record ConfigOk (c : Configuration) : Type 0 where
  pub closed : IsClosed c.global_tables
  pub filters : InstancesOk c.global_tables c.instances

insert_table-Ok :
    (t : Table) (c : Configuration) (ts : List Table)
    → TableRefsIn c.global_tables t
    → ConfigOk c
    → insert_table t c.global_tables ≡ some ts
    → ConfigOk (record c { global_tables = ts })
unfolding insert_table InstancesOk
insert_table-Ok t c ts ht ok e = elim (Option-cases (get_table (get_name t) c.global_tables)) [
  | inl new ↦
      along (λ us. ConfigOk (record c { global_tables = us })) (t ∷ c.global_tables) ts
        (ground arith)
        (record {
          closed = (new, ht, ok.closed);
          filters =
              All-map (InstanceOk c.global_tables) (InstanceOk (t ∷ c.global_tables)) c.instances
                (λ d hd. InstanceOk-cons t c.global_tables d hd) ok.filters;
        })
  | inr (u, old) ↦ absurd (ground arith)
]

module _ (inet_pton : Family → Text → Option Addr) where
  run_case-Ok :
      (kind : ParserType) (p : Parser) (c : Configuration)
      → ConfigOk c
      → Ends ConfigOk (run_case inet_pton kind p c)
  unfolding run_case TableOk
  run_case-Ok pt_protocol p c ok =
      >>=-Ends {A = GroupMemProtocol} (λ k. Unit {0}) ConfigOk _ _ (parse_group_mem_proto-Ends p)
        (λ gmp h. returned-Ends _ _ (record { closed = ok.closed; filters = ok.filters }))
  run_case-Ok pt_instance_definition p c ok =
      >>=-Ends {A = List InstanceDefinition} (InstancesOk c.global_tables) ConfigOk _ _
        (parse_instance_definition-Ok c.global_tables p c.instances ok.filters)
        (λ ids h. returned-Ends _ _ (record { closed = ok.closed; filters = h }))
  run_case-Ok pt_table p c ok =
      >>=-Ends {A = Table × Parser} (TableOk c.global_tables (length p.rest)) ConfigOk _ _
        (parse_table-TableOk inet_pton c.group_mem_protocol c.global_tables p)
        (λ (r : Table × Parser). λ hr.
          Option-Ends ConfigOk (insert_table r.0 c.global_tables) _ _ (λ e. thrown-Ends _ _)
            (λ ts e. returned-Ends _ _ (insert_table-Ok r.0 c ts hr.1 ok e)))
  run_case-Ok pt_interface_rule_binding p c ok =
      >>=-Ends {A = List InstanceDefinition} (InstancesOk c.global_tables) ConfigOk _ _
        (parse_interface_rule_binding-Ok c.global_tables inet_pton c.group_mem_protocol p
          c.instances ok.filters)
        (λ ids h. returned-Ends _ _ (record { closed = ok.closed; filters = h }))

  run_command-Ok :
      (cmd : Text) (c : Configuration) → ConfigOk c → Ends ConfigOk (run_command inet_pton cmd c)
  unfolding run_command parser
  run_command-Ok cmd c ok =
      >>=-Ends {A = Parser} (λ k. Unit {0}) ConfigOk _ _
        (>>=-Ends {A = List Token} (λ k. Unit {0}) (λ k. Unit {0}) _ _ (scanner-Ends cmd)
          (λ l h. returned-Ends _ _ tt))
        (λ p h.
          >>=-Ends {A = ParserType} (λ k. Unit {0}) ConfigOk _ _ (get_parser_type-Ends p)
            (λ kind hk. run_case-Ok kind p c ok))

  run_parser-Ok :
      (l : List (ℕ × Text)) (c : Configuration)
      → ConfigOk c
      → Ends ConfigOk (run_parser inet_pton l c)
  unfolding run_parser
  run_parser-Ok [] c ok = returned-Ends _ _ ok
  run_parser-Ok ((line, cmd) ∷ l) c ok =
      >>=-Ends {A = Configuration} ConfigOk ConfigOk _ _ (run_command-Ok cmd c ok)
        (λ d hd. run_parser-Ok l d hd)

  -- Reading a configuration comes to an end on every text. If it returns a configuration, its tables
  -- have different names and refer only to tables that are older, and the filters of all
  -- interfaces refer only to its tables.
  pub configuration-ConfigOk :
      (script_file : Text) → Ends ConfigOk (configuration inet_pton script_file)
  unfolding configuration InstancesOk
  configuration-ConfigOk s =
      run_parser-Ok (separate_commands (delete_comments s)) _ (record { closed = tt; filters = tt })
