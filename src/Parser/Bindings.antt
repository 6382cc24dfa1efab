-- ===== src/Parser/Bindings.antt =====
-- mcproxy/src/parser/parser.cpp: `parse_interface_rule_binding` and its two parts, which change an
-- instance of the set through its pointer.
use mcproxy.Base.{
  Bool, true, false, not, ◌&&◌, Option, none, some, List, [], ◌∷◌, ◌++◌, if◌then◌else◌, is_some, ℤ,
  pos,
}
use mcproxy.Protocol.{GroupMemProtocol}
use mcproxy.Text.{Text, codes}
use mcproxy.Addr.{Addr, Family}
use mcproxy.Rules.{Table}
use mcproxy.Interface.{
  filter_binding, matching_binding, find_instance, update_instance, find_interface,
  update_interface, RbInterfaceType, RbInterfaceDirection, RbFilterType, RbRuleMatchingType,
  RuleBinding, Interface, InstanceDefinition, it_upstream, it_downstream, id_in, id_out,
  id_wildcard, ft_blacklist, ft_whitelist, rmt_all, rmt_first, rmt_mutex,
}
use mcproxy.Ending.{◌>>=◌, Ending, returned}
use mcproxy.Token.{
  Token, tt_upstream, tt_downstream, tt_out, tt_in, tt_blacklist, tt_whitelist, tt_rule_matching,
  tt_all, tt_first, tt_mutex, tt_star, tt_nil,
}
use mcproxy.Parser.{
  get_string, has_type, any_string, get_next_token, fail, get_parser_type, Parser, ParserType,
  pt_interface_rule_binding,
}
use mcproxy.Parser.Numbers.{stoi}
use mcproxy.Parser.Tables.{parse_table}

abbrev pub is_pt_binding : ParserType → Bool
is_pt_binding pt_interface_rule_binding = true
is_pt_binding _ = false

abbrev pub interfaces_of : RbInterfaceType → InstanceDefinition → List Interface
interfaces_of it_upstream d = d.upstreams
interfaces_of it_downstream d = d.downstreams

unfoldable pub with_interfaces :
    RbInterfaceType → (List Interface → List Interface) → InstanceDefinition → InstanceDefinition
with_interfaces it_upstream f d = record d { upstreams = f d.upstreams }
with_interfaces it_downstream f d = record d { downstreams = f d.downstreams }

-- The filter of a direction is stored where there is none; `none`: an exception.
unfoldable pub store_filter : RbInterfaceDirection → RuleBinding → Interface → Option Interface
store_filter id_in rb i =
    if is_some i.input_filter then none else some (record i { input_filter = some rb })
store_filter id_out rb i =
    if is_some i.output_filter then none else some (record i { output_filter = some rb })
store_filter id_wildcard rb i = none

-- `parse_interface_table_binding` after the table.
unfoldable pub bind_table :
    Text
    → RbInterfaceType
    → Text
    → RbInterfaceDirection
    → RbFilterType
    → Table
    → List InstanceDefinition
    → Ending (List InstanceDefinition)
bind_table name it if_name dir ft t ids = elim (find_instance name ids) [
  | none ↦ fail
  | some d ↦ elim (find_interface if_name (interfaces_of it d)) [
    | none ↦ fail
    | some i ↦ elim (store_filter dir (filter_binding name it if_name dir ft t) i) [
      | none ↦ fail
      | some i' ↦
          returned
            (update_instance name (with_interfaces it (update_interface if_name (λ j. i'))) ids)
    ]
  ]
]

-- The rule matching of `parse_interface_rule_match_binding`, its time in milliseconds, and the state
-- at its last token.
unfoldable pub parse_rule_matching : Parser → Ending (RbRuleMatchingType × ℤ × Parser)
parse_rule_matching p =
    let q = get_next_token p in
    if has_type p.current_token tt_all
    then returned (rmt_all, pos 0, p)
    else if has_type p.current_token tt_first
    then returned (rmt_first, pos 0, p)
    else if not (has_type p.current_token tt_mutex && has_type q.current_token any_string)
    then fail
    else elim (stoi (get_string q.current_token)) [
      | none ↦ fail
      | some n ↦ returned (rmt_mutex, n, q)
    ]

-- `parse_interface_rule_match_binding`
unfoldable pub parse_match_binding :
    Text
    → RbInterfaceType
    → Text
    → RbInterfaceDirection
    → Parser
    → List InstanceDefinition
    → Ending (List InstanceDefinition)
parse_match_binding name it if_name dir p ids = do
  (rmt, n, q) ← parse_rule_matching (get_next_token p)
  if not (has_type (get_next_token q).current_token tt_nil && is_some (find_instance name ids))
      then fail
      else returned (
          update_instance name
            (λ d. record d {
              global_settings =
                  d.global_settings ++ (matching_binding name it if_name dir rmt n ∷ []);
            })
            ids)

unfoldable pub interface_type_of : Token → Option RbInterfaceType
interface_type_of t =
    if has_type t tt_upstream
    then some it_upstream
    else if has_type t tt_downstream
    then some it_downstream
    else none

unfoldable pub if_name_of : Token → Option Text
if_name_of t =
    if has_type t any_string
    then some (get_string t)
    else if has_type t tt_star
    then some (codes "*")
    else none

unfoldable pub direction_of : Token → Option RbInterfaceDirection
direction_of t =
    if has_type t tt_in then some id_in else if has_type t tt_out then some id_out else none

unfoldable pub filter_type_of : Token → Option RbFilterType
filter_type_of t =
    if has_type t tt_whitelist
    then some ft_whitelist
    else if has_type t tt_blacklist
    then some ft_blacklist
    else none

-- The value of a token, or the exception.
abbrev pub expect {ℓ} : {A : Type ℓ} → Option A → Ending A
expect none = fail
expect (some a) = returned a

module _ (inet_pton : Family → Text → Option Addr) (gmp : GroupMemProtocol) (gts : List Table) where
  -- `parse_interface_table_binding`
  unfoldable pub parse_table_binding :
      Text
      → RbInterfaceType
      → Text
      → RbInterfaceDirection
      → RbFilterType
      → Parser
      → List InstanceDefinition
      → Ending (List InstanceDefinition)
  parse_table_binding name it if_name dir ft p ids = do
    (t, q) ← parse_table inet_pton gmp gts (get_next_token p)
    if has_type q.current_token tt_nil then bind_table name it if_name dir ft t ids else fail

  unfoldable pub parse_interface_rule_binding :
      Parser → List InstanceDefinition → Ending (List InstanceDefinition)
  parse_interface_rule_binding p ids = do
    kind ← get_parser_type p
    let p1 = get_next_token p
    let p2 = get_next_token p1
    let p3 = get_next_token p2
    let p4 = get_next_token p3
    let p5 = get_next_token p4
    let name = get_string p1.current_token
    if not (
          is_pt_binding kind
          && has_type p1.current_token any_string
          && is_some (find_instance name ids))
        then fail
        else (do
          it ← expect (interface_type_of p2.current_token)
          if_name ← expect (if_name_of p3.current_token)
          dir ← expect (direction_of p4.current_token)
          elim (filter_type_of p5.current_token) [
            | some ft ↦ parse_table_binding name it if_name dir ft p5 ids
            | none ↦
                if has_type p5.current_token tt_rule_matching
                then parse_match_binding name it if_name dir p5 ids
                else fail
          ])
