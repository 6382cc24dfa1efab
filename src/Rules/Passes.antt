-- ===== src/Rules/Passes.antt =====
-- mcproxy/src/parser/interface.cpp: the addresses that rules let pass, as derivations.
use mcproxy.Base.{
  ℕ, zero, suc, ◌≡◌, refl, sym, ◌∙◌, ◌≢◌, ◌↔◌, ◌⊎◌, inl, inr, Bool, true, false, Option, none, some,
  List, arith, Option-cases, is_some, some-inj, length,
}
use mcproxy.Text.{Text}
use mcproxy.Addr.{Addr}
use mcproxy.Rules.{
  get_rules, rule_addr_match, get_table, or_next, rule_match, table_match, list_match, ref_match,
  match_table, AddrMatch, RuleBox, Table, RuleList, rule_addr, rule_table, rule_table_ref, table,
  no_rules, rule_then,
}
use mcproxy.Rules.Finite.{
  TableRefsIn, IsClosed, Extends-refl, table_match-is_some, ref_match-some, ref_match-is_some,
}

or_next-true : (a b : Option Bool) → or_next a b ≡ some true → (a ≡ some true) ⊎ (b ≡ some true)
or_next-true none b h = ground arith
or_next-true (some true) b h = inl refl
or_next-true (some false) b h = inr h

ref_match-zero :
    (ts : List Table) (if_name : Text) (gaddr saddr : Addr) (name : Text)
    → ref_match 0 ts if_name gaddr saddr name ≡ none
unfolding ref_match
ref_match-zero ts i g s name = refl

module _ (ts : List Table) (if_name : Text) (gaddr saddr : Addr) where
  mutual
    pub data RulePasses : RuleBox → Type 0 where
      by_addr :
          (name : Text) (group source : AddrMatch)
          → rule_addr_match name group source if_name gaddr saddr ≡ true
          → RulePasses (rule_addr name group source)
      by_table : (t : Table) → ListPasses (get_rules t) → RulePasses (rule_table t)
      by_ref :
          (name : Text) (t : Table)
          → get_table name ts ≡ some t
          → ListPasses (get_rules t)
          → RulePasses (rule_table_ref name)

    pub data ListPasses : RuleList → Type 0 where
      here : (r : RuleBox) (rules : RuleList) → RulePasses r → ListPasses (rule_then r rules)
      there : (r : RuleBox) (rules : RuleList) → ListPasses rules → ListPasses (rule_then r rules)

  -- A match is right about a reference if it finds only what passes.
  IsSound : (Text → Option Bool) → Type 0
  IsSound ref =
      (name : Text)
      → ref name ≡ some true
      → (t : Table) × (get_table name ts ≡ some t) × ListPasses (get_rules t)

  module _ (ref : Text → Option Bool) (sound : IsSound ref) where
    mutual
      unfolding rule_match table_match list_match IsSound

      rule_match-RulePasses :
          (r : RuleBox) → rule_match ref if_name gaddr saddr r ≡ some true → RulePasses r
      rule_match-RulePasses (rule_addr name group source) h = by_addr name group source (some-inj h)
      rule_match-RulePasses (rule_table t) h = by_table t (table_match-ListPasses t h)
      rule_match-RulePasses (rule_table_ref name) h =
          let (t, e, p) = sound name h in by_ref name t e p

      table_match-ListPasses :
          (t : Table) → table_match ref if_name gaddr saddr t ≡ some true → ListPasses (get_rules t)
      table_match-ListPasses (table name rules) h = list_match-ListPasses rules h

      list_match-ListPasses :
          (rules : RuleList)
          → list_match ref if_name gaddr saddr rules ≡ some true
          → ListPasses rules
      list_match-ListPasses no_rules h = ground arith
      list_match-ListPasses (rule_then r rules) h =
          elim (or_next-true (rule_match ref if_name gaddr saddr r)
            (list_match ref if_name gaddr saddr rules) h) [
              | inl e ↦ here r rules (rule_match-RulePasses r e)
              | inr e ↦ there r rules (list_match-ListPasses rules e)
            ]

  ref_match-IsSound : (fuel : ℕ) → IsSound (λ n. ref_match fuel ts if_name gaddr saddr n)
  unfolding IsSound ref_match
  ref_match-IsSound zero name h = ground arith
  ref_match-IsSound (suc fuel) name h = elim (Option-cases (get_table name ts)) [
    | inl e ↦ absurd (ground arith)
    | inr (t, e) ↦ (
      t,
      e,
      table_match-ListPasses (λ n. ref_match fuel ts if_name gaddr saddr n) (ref_match-IsSound fuel)
          t (sym (ref_match-some ts fuel if_name gaddr saddr name t e) ∙ h),
    )
  ]

  mutual
    unfolding rule_match table_match list_match

    RulePasses-rule_match :
        (fuel : ℕ) (r : RuleBox)
        → RulePasses r
        → rule_match (λ n. ref_match fuel ts if_name gaddr saddr n) if_name gaddr saddr r
          ≢ some false
    RulePasses-rule_match fuel _ (by_addr name group source e) = ground arith
    RulePasses-rule_match fuel _ (by_table (table name rules) p) =
        ListPasses-list_match fuel rules p
    RulePasses-rule_match zero _ (by_ref name t e p) =
        ground (arith, ref_match-zero ts if_name gaddr saddr name)
    RulePasses-rule_match (suc fuel) _ (by_ref name (table name2 rules) e p) = λ h.
        ListPasses-list_match fuel rules p
          (sym (ref_match-some ts fuel if_name gaddr saddr name (table name2 rules) e) ∙ h)

    ListPasses-list_match :
        (fuel : ℕ) (rules : RuleList)
        → ListPasses rules
        → list_match (λ n. ref_match fuel ts if_name gaddr saddr n) if_name gaddr saddr rules
          ≢ some false
    ListPasses-list_match fuel _ (here r rules p) = ground (arith, RulePasses-rule_match fuel r p)
    ListPasses-list_match fuel _ (there r rules p) =
        ground (arith, ListPasses-list_match fuel rules p)

  ListPasses-table_match :
      (fuel : ℕ) (t : Table)
      → ListPasses (get_rules t)
      → table_match (λ n. ref_match fuel ts if_name gaddr saddr n) if_name gaddr saddr t
        ≢ some false
  unfolding table_match
  ListPasses-table_match fuel (table name rules) p = ListPasses-list_match fuel rules p

-- Where every table refers only to older ones, and the rules of `t` only to tables of the set,
-- following the references comes to an end within as many steps as there are tables, and the
-- result is true exactly if some chain of rules and references lets the addresses pass.
pub match_table-ListPasses :
    (ts : List Table) (t : Table) (if_name : Text) (gaddr saddr : Addr)
    → IsClosed ts
    → TableRefsIn ts t
    → (is_some (match_table ts t if_name gaddr saddr) ≡ true)
      × ((match_table ts t if_name gaddr saddr ≡ some true)
          ↔ ListPasses ts if_name gaddr saddr (get_rules t))
unfolding match_table
match_table-ListPasses ts t i g s closed refs =
    let ref = λ (n : Text). ref_match (length ts) ts i g s n in
    let total =
      table_match-is_some ref i g s ts
        (ref_match-is_some ts ts (length ts) i g s (Extends-refl ts) closed (omega arith)) t refs in
    (
      total,
      (
        λ h. table_match-ListPasses ts i g s ref (ref_match-IsSound ts i g s (length ts)) t h,
        λ p. ground (arith, total, ListPasses-table_match ts i g s (length ts) t p),
      ),
    )
