-- ===== src/Interface/Filters.antt =====
-- mcproxy/src/parser/interface.cpp: what the filters of an interface let pass.
use mcproxy.Base.{◌≡◌, ◌↔◌, true, Option, none, some, List, arith, is_some}
use mcproxy.Text.{Text}
use mcproxy.Addr.{Addr}
use mcproxy.Rules.{get_rules, Table}
use mcproxy.Rules.Finite.{TableRefsIn, IsClosed}
use mcproxy.Rules.Passes.{match_table-ListPasses, ListPasses}
use mcproxy.Interface.{
  filter_result, filter_match, binding_match, match_filter, RbFilterType, RuleBinding, ft_blacklist,
  ft_whitelist, ft_undefined,
}

-- What a rule binding of a filter type and a table lets pass.
pub BindingPasses : List Table → Text → Addr → Addr → RbFilterType → Option Table → Type 0
BindingPasses ts i s g ft none = ⊥
BindingPasses ts i s g ft_blacklist (some t) = ¬ ListPasses ts i s g (get_rules t)
BindingPasses ts i s g ft_whitelist (some t) = ListPasses ts i s g (get_rules t)
BindingPasses ts i s g ft_undefined (some t) = ⊥

pub FilterPasses : List Table → Text → Addr → Addr → Option RuleBinding → Type 0
FilterPasses ts i s g none = Unit
FilterPasses ts i s g (some rb) = BindingPasses ts i s g rb.filter_type rb.filter_table

-- The tables that a filter refers to are there.
abbrev pub OptionRefsIn : List Table → Option Table → Type 0
OptionRefsIn ts none = Unit
OptionRefsIn ts (some t) = TableRefsIn ts t

abbrev pub FilterRefsIn : List Table → Option RuleBinding → Type 0
FilterRefsIn ts none = Unit
FilterRefsIn ts (some rb) = OptionRefsIn ts rb.filter_table

binding_lem :
    (ts : List Table) (i : Text) (s g : Addr) (ft : RbFilterType) (o : Option Table)
    → IsClosed ts
    → OptionRefsIn ts o
    → (is_some (filter_match ts ft o i s g) ≡ true)
      × ((filter_match ts ft o i s g ≡ some true) ↔ BindingPasses ts i s g ft o)
unfolding filter_match BindingPasses filter_result
binding_lem ts i s g ft none c h = ground arith
binding_lem ts i s g ft_blacklist (some t) c h =
    ground (arith, match_table-ListPasses ts t i s g c h)
binding_lem ts i s g ft_whitelist (some t) c h =
    ground (arith, match_table-ListPasses ts t i s g c h)
binding_lem ts i s g ft_undefined (some t) c h =
    ground (arith, match_table-ListPasses ts t i s g c h)

-- Where the tables are closed, a filter gives a result within the fuel, and the result is true
-- exactly in these cases: there is no filter; it is a whitelist and the rules of its table let the
-- addresses pass; it is a blacklist and they do not.
pub match_filter-FilterPasses :
    (ts : List Table) (input_if_name : Text) (saddr gaddr : Addr) (filter : Option RuleBinding)
    → IsClosed ts
    → FilterRefsIn ts filter
    → (is_some (match_filter ts input_if_name saddr gaddr filter) ≡ true)
      × ((match_filter ts input_if_name saddr gaddr filter ≡ some true)
          ↔ FilterPasses ts input_if_name saddr gaddr filter)
unfolding match_filter binding_match FilterPasses
match_filter-FilterPasses ts i s g none c h = ground arith
match_filter-FilterPasses ts i s g (some rb) c h =
    binding_lem ts i s g rb.filter_type rb.filter_table c h
