-- ===== src/Interface.antt =====
-- mcproxy/include/parser/interface.hpp and mcproxy/src/parser/interface.cpp: rule bindings, the
-- interfaces that hold them as filters, and the proxy instances of the configuration. A `std::set`
-- of instances is a list with the newest first: the order by name shows only where all are gone
-- through. Timeouts are milliseconds.
use mathlib.Core.Option
pub mod Filters
use mcproxy.Base.{
  ◌*◌, Bool, true, false, not, Option, none, some, List, [], ◌∷◌, map, if◌then◌else◌, ℤ, pos,
}
use mcproxy.TimersValues.{TimersValues}
use mcproxy.World.{World}
use mcproxy.Querier.Records.{Querier}
use mcproxy.Querier.Invariant.{Timed}
use mcproxy.MessageQueue.{MessageQueue}
use mcproxy.Text.{Text, same_text}
use mcproxy.Addr.{Addr}
use mcproxy.Rules.{match_table, Table}

pub data RbType : Type 0 where
  rbt_filter rbt_rule_matching rbt_timer_value : RbType

pub data RbInterfaceType : Type 0 where
  it_upstream it_downstream : RbInterfaceType

pub data RbInterfaceDirection : Type 0 where
  id_in id_out id_wildcard : RbInterfaceDirection

pub data RbFilterType : Type 0 where
  ft_blacklist ft_whitelist ft_undefined : RbFilterType

pub data RbRuleMatchingType : Type 0 where
  rmt_all rmt_first rmt_mutex rmt_undefined : RbRuleMatchingType

pub record RuleBinding : Type 0 where
  pub rule_binding_type : RbType
  pub instance_name : Text
  pub interface_type : RbInterfaceType
  pub binding_if_name : Text
  pub filter_direction : RbInterfaceDirection
  pub filter_type : RbFilterType
  pub filter_table : Option Table
  pub rule_matching_type : RbRuleMatchingType
  pub timeout : ℤ

-- The two constructors.
abbrev pub filter_binding :
    Text → RbInterfaceType → Text → RbInterfaceDirection → RbFilterType → Table → RuleBinding
filter_binding name it if_name d ft t = record {
  rule_binding_type = rbt_filter;
  instance_name = name;
  interface_type = it;
  binding_if_name = if_name;
  filter_direction = d;
  filter_type = ft;
  filter_table = some t;
  rule_matching_type = rmt_undefined;
  timeout = pos 0;
}

abbrev pub matching_binding :
    Text → RbInterfaceType → Text → RbInterfaceDirection → RbRuleMatchingType → ℤ → RuleBinding
matching_binding name it if_name d rmt t = record {
  rule_binding_type = rbt_rule_matching;
  instance_name = name;
  interface_type = it;
  binding_if_name = if_name;
  filter_direction = d;
  filter_type = ft_undefined;
  filter_table = none;
  rule_matching_type = rmt;
  timeout = t;
}

-- The branches of `rule_binding::match` for a table, by what the table says.
unfoldable pub filter_result : RbFilterType → Bool → Bool
filter_result ft_blacklist b = not b
filter_result ft_whitelist b = b
filter_result ft_undefined b = false

-- `rule_binding::match` beside the tables `ts`; `none` as for `match_table`.
unfoldable pub filter_match :
    List Table → RbFilterType → Option Table → Text → Addr → Addr → Option Bool
filter_match ts ft none if_name saddr gaddr = some false
filter_match ts ft (some t) if_name saddr gaddr =
    Option.map (λ b. filter_result ft b) (match_table ts t if_name saddr gaddr)

unfoldable pub binding_match : List Table → RuleBinding → Text → Addr → Addr → Option Bool
binding_match ts rb if_name saddr gaddr =
    filter_match ts rb.filter_type rb.filter_table if_name saddr gaddr

pub record Interface : Type 0 where
  pub name : Text
  pub output_filter : Option RuleBinding
  pub input_filter : Option RuleBinding

-- `interface(if_name)`
abbrev pub new_interface : Text → Interface
new_interface if_name = record { name = if_name; output_filter = none; input_filter = none }

unfoldable pub match_filter : List Table → Text → Addr → Addr → Option RuleBinding → Option Bool
match_filter ts input_if_name saddr gaddr none = some true
match_filter ts input_if_name saddr gaddr (some rb) = binding_match ts rb input_if_name saddr gaddr

unfoldable pub match_output_filter : List Table → Interface → Text → Addr → Addr → Option Bool
match_output_filter ts i input_if_name saddr gaddr =
    match_filter ts input_if_name saddr gaddr i.output_filter

unfoldable pub match_input_filter : List Table → Interface → Text → Addr → Addr → Option Bool
match_input_filter ts i input_if_name saddr gaddr =
    match_filter ts input_if_name saddr gaddr i.input_filter

pub record InstanceDefinition : Type 0 where
  pub instance : Text
  pub table_number : ℤ
  pub user_selected_table_number : Bool
  pub upstreams : List Interface
  pub downstreams : List Interface
  pub global_settings : List RuleBinding

-- `inst_def_set::find`; `none` is `end()`.
unfoldable pub find_instance : Text → List InstanceDefinition → Option InstanceDefinition
find_instance n [] = none
find_instance n (d ∷ ids) = if same_text d.instance n then some d else find_instance n ids

-- `inst_def_set::insert`; `none`: there is an instance of this name, and the set is left as it is.
unfoldable pub insert_instance :
    InstanceDefinition → List InstanceDefinition → Option (List InstanceDefinition)
insert_instance d ids = elim (find_instance d.instance ids) [
  | none ↦ some (d ∷ ids)
  | some _ ↦ none
]

-- A change of the instance that `find` gives, through its pointer.
unfoldable pub update_instance :
    Text
    → (InstanceDefinition → InstanceDefinition)
    → List InstanceDefinition
    → List InstanceDefinition
update_instance n f [] = []
update_instance n f (d ∷ ids) =
    if same_text d.instance n then f d ∷ ids else d ∷ update_instance n f ids

-- `std::find` of an interface by its name, and a change through the pointer.
unfoldable pub find_interface : Text → List Interface → Option Interface
find_interface n [] = none
find_interface n (i ∷ l) = if same_text i.name n then some i else find_interface n l

unfoldable pub update_interface : Text → (Interface → Interface) → List Interface → List Interface
update_interface n f [] = []
update_interface n f (i ∷ l) = if same_text i.name n then f i ∷ l else i ∷ update_interface n f l
