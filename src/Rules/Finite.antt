-- ===== src/Rules/Finite.antt =====
-- mcproxy/src/parser/interface.cpp: following the references of tables comes to an end.
use mcproxy.Base.{
  ℕ, zero, suc, ◌≤◌, ◌≡◌, refl, inl, inr, Bool, true, Option, none, some, List, [], ◌∷◌, arith,
  Bool-cases, is_some, length,
}
use mcproxy.Text.{Text, same_text, same_text_iff}
use mcproxy.Addr.{Addr}
use mcproxy.Rules.{
  get_name, get_table, rule_match, table_match, list_match, ref_match, RuleBox, Table, RuleList,
  rule_addr, rule_table, rule_table_ref, table, no_rules, rule_then,
}

-- The names that rules refer to are those of tables of `ts`.
abbrev mutual
  pub RefsIn : List Table → RuleBox → Type 0
  RefsIn ts (rule_addr name group source) = Unit
  RefsIn ts (rule_table t) = TableRefsIn ts t
  RefsIn ts (rule_table_ref name) = is_some (get_table name ts) ≡ true

  pub TableRefsIn : List Table → Table → Type 0
  TableRefsIn ts (table name rules) = ListRefsIn ts rules

  pub ListRefsIn : List Table → RuleList → Type 0
  ListRefsIn ts no_rules = Unit
  ListRefsIn ts (rule_then r rules) = RefsIn ts r × ListRefsIn ts rules

-- The tables have different names, and each refers only to tables that are older.
abbrev pub IsClosed : List Table → Type 0
IsClosed [] = Unit
IsClosed (t ∷ ts) = (get_table (get_name t) ts ≡ none) × TableRefsIn ts t × IsClosed ts

-- All that `ts` has, `us` has under the same name.
pub Extends : List Table → List Table → Type 0
Extends us ts = (name : Text) (t : Table) → get_table name ts ≡ some t → get_table name us ≡ some t

pub Extends-refl : (ts : List Table) → Extends ts ts
unfolding Extends
Extends-refl ts name t h = h

Extends-tail :
    (us : List Table) (t : Table) (ts : List Table)
    → get_table (get_name t) ts ≡ none
    → Extends us (t ∷ ts)
    → Extends us ts
unfolding Extends get_table
Extends-tail us t ts h e = λ name t' h'. e name t' (ground (arith, same_text_iff (get_name t) name))

-- Rules of which every reference gives a result give a result.
module _ (ref : Text → Option Bool) (if_name : Text) (gaddr saddr : Addr) (ts : List Table)
    (found : (name : Text) → is_some (get_table name ts) ≡ true → is_some (ref name) ≡ true) where
  mutual
    unfolding rule_match table_match list_match

    rule_match-is_some :
        (r : RuleBox) → RefsIn ts r → is_some (rule_match ref if_name gaddr saddr r) ≡ true
    rule_match-is_some (rule_addr name group source) h = refl
    rule_match-is_some (rule_table t) h = table_match-is_some t h
    rule_match-is_some (rule_table_ref name) h = found name h

    pub table_match-is_some :
        (t : Table) → TableRefsIn ts t → is_some (table_match ref if_name gaddr saddr t) ≡ true
    table_match-is_some (table name rules) h = list_match-is_some rules h

    pub list_match-is_some :
        (rules : RuleList)
        → ListRefsIn ts rules
        → is_some (list_match ref if_name gaddr saddr rules) ≡ true
    list_match-is_some no_rules h = refl
    list_match-is_some (rule_then r rules) (hr, h) =
        ground (arith, rule_match-is_some r hr, list_match-is_some rules h)

pub ref_match-some :
    (us : List Table) (fuel : ℕ) (if_name : Text) (gaddr saddr : Addr) (name : Text) (t : Table)
    → get_table name us ≡ some t
    → ref_match (suc fuel) us if_name gaddr saddr name
      ≡ table_match (λ n. ref_match fuel us if_name gaddr saddr n) if_name gaddr saddr t
unfolding ref_match
ref_match-some us fuel i g s name t h = rw (ref_match, h)

pub ref_match-is_some :
    (us ts : List Table) (fuel : ℕ) (if_name : Text) (gaddr saddr : Addr)
    → Extends us ts
    → IsClosed ts
    → length ts ≤ fuel
    → (name : Text) → is_some (get_table name ts) ≡ true
    → is_some (ref_match fuel us if_name gaddr saddr name) ≡ true
unfolding get_table Extends
ref_match-is_some us [] fuel i g s e c le name h = ground arith
ref_match-is_some us (t ∷ ts) zero i g s e c le name h = ground arith
ref_match-is_some us (t ∷ ts) (suc fuel) i g s e (new, refs, c) le name h =
    elim (Bool-cases (same_text (get_name t) name)) [
      | inl same ↦ ground (
        arith,
        ref_match-some us fuel i g s name t (e name t (ground arith)),
        table_match-is_some (λ n. ref_match fuel us i g s n) i g s ts
            (ref_match-is_some us ts fuel i g s (Extends-tail us t ts new e) c (omega arith)) t
            refs,
      )
      | inr other ↦
          ref_match-is_some us ts (suc fuel) i g s (Extends-tail us t ts new e) c (omega arith) name
            (ground arith)
    ]
