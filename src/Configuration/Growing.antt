-- ===== src/Configuration/Growing.antt =====
-- mcproxy/src/parser/configuration.cpp: references stay good when a table is added.
use mcproxy.Base.{◌≡◌, true, Option, none, some, List, [], ◌∷◌, arith, is_some, All}
use mcproxy.Text.{Text}
use mcproxy.Rules.{
  get_table, RuleBox, Table, RuleList, rule_addr, rule_table, rule_table_ref, table, no_rules,
  rule_then,
}
use mcproxy.Rules.Finite.{RefsIn, TableRefsIn, ListRefsIn}
use mcproxy.Interface.{RuleBinding, Interface, InstanceDefinition}
use mcproxy.Interface.Filters.{OptionRefsIn, FilterRefsIn}

get_table-cons :
    (t : Table) (ts : List Table) (name : Text)
    → is_some (get_table name ts) ≡ true
    → is_some (get_table name (t ∷ ts)) ≡ true
unfolding get_table
get_table-cons t ts name h = ground arith

mutual
  RefsIn-cons : (t : Table) (ts : List Table) (r : RuleBox) → RefsIn ts r → RefsIn (t ∷ ts) r
  RefsIn-cons t ts (rule_addr name group source) h = tt
  RefsIn-cons t ts (rule_table (table name rules)) h = ListRefsIn-cons t ts rules h
  RefsIn-cons t ts (rule_table_ref name) h = get_table-cons t ts name h

  ListRefsIn-cons :
      (t : Table) (ts : List Table) (rules : RuleList)
      → ListRefsIn ts rules
      → ListRefsIn (t ∷ ts) rules
  ListRefsIn-cons t ts no_rules h = tt
  ListRefsIn-cons t ts (rule_then r rules) (hr, h) =
      (RefsIn-cons t ts r hr, ListRefsIn-cons t ts rules h)

pub TableRefsIn-cons :
    (t : Table) (ts : List Table) (u : Table) → TableRefsIn ts u → TableRefsIn (t ∷ ts) u
TableRefsIn-cons t ts (table name rules) h = ListRefsIn-cons t ts rules h

OptionRefsIn-cons :
    (t : Table) (ts : List Table) (o : Option Table) → OptionRefsIn ts o → OptionRefsIn (t ∷ ts) o
OptionRefsIn-cons t ts none h = tt
OptionRefsIn-cons t ts (some u) h = TableRefsIn-cons t ts u h

FilterRefsIn-cons :
    (t : Table) (ts : List Table) (f : Option RuleBinding)
    → FilterRefsIn ts f
    → FilterRefsIn (t ∷ ts) f
FilterRefsIn-cons t ts none h = tt
FilterRefsIn-cons t ts (some rb) h = OptionRefsIn-cons t ts rb.filter_table h

-- The filters of an interface and of an instance.
abbrev pub InterfaceOk : List Table → Interface → Type 0
InterfaceOk ts i = FilterRefsIn ts i.input_filter × FilterRefsIn ts i.output_filter

abbrev pub InstanceOk : List Table → InstanceDefinition → Type 0
InstanceOk ts d = All (InterfaceOk ts) d.upstreams × All (InterfaceOk ts) d.downstreams

pub All-map {ℓ} :
    {A : Type ℓ} (P Q : A → Type 0) (l : List A) → ((a : A) → P a → Q a) → All P l → All Q l
All-map P Q [] k h = tt
All-map P Q (a ∷ l) k (ha, h) = (k a ha, All-map P Q l k h)

InterfaceOk-cons :
    (t : Table) (ts : List Table) (i : Interface) → InterfaceOk ts i → InterfaceOk (t ∷ ts) i
InterfaceOk-cons t ts i h =
    (FilterRefsIn-cons t ts i.input_filter h.0, FilterRefsIn-cons t ts i.output_filter h.1)

pub InstanceOk-cons :
    (t : Table) (ts : List Table) (d : InstanceDefinition) → InstanceOk ts d → InstanceOk (t ∷ ts) d
InstanceOk-cons t ts d (u, w) = (
  All-map (InterfaceOk ts) (InterfaceOk (t ∷ ts)) d.upstreams (InterfaceOk-cons t ts) u,
  All-map (InterfaceOk ts) (InterfaceOk (t ∷ ts)) d.downstreams (InterfaceOk-cons t ts) w,
)
