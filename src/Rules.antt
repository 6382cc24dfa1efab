-- ===== src/Rules.antt =====
-- mcproxy/include/parser/interface.hpp and mcproxy/src/parser/interface.cpp: the rules that say
-- which addresses pass. A `std::set` of tables is a list with the newest table first: the order by
-- name shows only in `to_string`.
use mathlib.Core.Option
pub mod Finite
pub mod Passes
use mcproxy.Base.{
  ℕ, zero, suc, ◌*◌, Bool, true, false, ◌&&◌, ◌||◌, Option, none, some, List, [], ◌∷◌,
  if◌then◌else◌, length, is_empty,
}
use mcproxy.TimersValues.{TimersValues}
use mcproxy.World.{World}
use mcproxy.Querier.Records.{Querier}
use mcproxy.Querier.Invariant.{Timed}
use mcproxy.MessageQueue.{MessageQueue}
use mcproxy.Text.{Text, same_text}
use mcproxy.Addr.{get_addr_family, zero_addr, addr_eq, addr_le, addr_ge, Addr, Family}

-- `addr_match` and its two implementations.
pub data AddrMatch : Type 0 where
  single_addr : Addr → AddrMatch
  addr_range : Addr → Addr → AddrMatch

-- `rule_box` and its three implementations, and `table`. The list of rules of a table is a type of
-- its own.
mutual
  pub data RuleBox : Type 0 where
    rule_addr : Text → AddrMatch → AddrMatch → RuleBox
    rule_table : Table → RuleBox
    rule_table_ref : Text → RuleBox

  pub data Table : Type 0 where
    table : Text → RuleList → Table

  pub data RuleList : Type 0 where
    no_rules : RuleList
    rule_then : RuleBox → RuleList → RuleList

unfoldable pub get_name : Table → Text
get_name (table name rules) = name

abbrev pub get_rules : Table → RuleList
get_rules (table name rules) = rules

-- `is_wildcard`
unfoldable pub is_wildcard : Addr → Family → Bool
is_wildcard addr addr_family = addr_eq addr (zero_addr addr_family)

-- `single_addr::match` and `addr_range::match`
unfoldable pub addr_match : AddrMatch → Addr → Bool
addr_match (single_addr m_addr) addr =
    addr_eq addr m_addr || is_wildcard m_addr (get_addr_family addr)
addr_match (addr_range m_from m_to) addr =
    (addr_ge addr m_from || is_wildcard m_from (get_addr_family addr))
    && (addr_le addr m_to || is_wildcard m_to (get_addr_family addr))

-- `rule_addr::match`
unfoldable pub rule_addr_match : Text → AddrMatch → AddrMatch → Text → Addr → Addr → Bool
rule_addr_match m_if_name group source if_name gaddr saddr =
    if is_empty m_if_name
    then addr_match group gaddr && addr_match source saddr
    else same_text m_if_name if_name && addr_match group gaddr && addr_match source saddr

-- `global_table_set::get_table`; `none` is the null pointer.
unfoldable pub get_table : Text → List Table → Option Table
get_table name [] = none
get_table name (t ∷ ts) = if same_text (get_name t) name then some t else get_table name ts

-- `global_table_set::insert`; `none`: there is a table of this name, and the set is left as it is.
unfoldable pub insert_table : Table → List Table → Option (List Table)
insert_table t ts = elim (get_table (get_name t) ts) [ none ↦ some (t ∷ ts) | some _ ↦ none ]

-- The loop of `table::match` after one rule.
abbrev pub or_next : Option Bool → Option Bool → Option Bool
or_next none rest = none
or_next (some true) rest = some true
or_next (some false) rest = rest

-- `match` of the rules, where `ref` is the result for the table of a name. `none`: no result
-- within the fuel of `ref`.
module _ (ref : Text → Option Bool) (if_name : Text) (gaddr saddr : Addr) where
  unfoldable mutual
    pub rule_match : RuleBox → Option Bool
    rule_match (rule_addr name group source) =
        some (rule_addr_match name group source if_name gaddr saddr)
    rule_match (rule_table t) = table_match t
    rule_match (rule_table_ref name) = ref name

    pub table_match : Table → Option Bool
    table_match (table name rules) = list_match rules

    pub list_match : RuleList → Option Bool
    list_match no_rules = some false
    list_match (rule_then r rules) = or_next (rule_match r) (list_match rules)

-- `rule_table_ref::match`, on fuel for the references that are followed.
unfoldable pub ref_match : ℕ → List Table → Text → Addr → Addr → Text → Option Bool
ref_match zero ts if_name gaddr saddr name = none
ref_match (suc fuel) ts if_name gaddr saddr name = elim (get_table name ts) [
  | none ↦ some false
  | some t ↦ table_match (λ n. ref_match fuel ts if_name gaddr saddr n) if_name gaddr saddr t
]

-- `table::match` of a table `t` beside the set `ts`; the fuel is one for each table of the set.
unfoldable pub match_table : List Table → Table → Text → Addr → Addr → Option Bool
match_table ts t if_name gaddr saddr =
    table_match (λ n. ref_match (length ts) ts if_name gaddr saddr n) if_name gaddr saddr t
