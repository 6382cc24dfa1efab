-- ===== src/Configuration/Instances.antt =====
-- mcproxy/src/parser/parser.cpp: `parse_instance_definition` adds an instance without filters, and
-- lookups in the instances keep what is known of them.
use mcproxy.Base.{
  ◌≡◌, subst, inl, inr, Bool, not, ◌&&◌, some, List, [], ◌∷◌, arith, Bool-cases, is_some, if-holds,
  is_empty, All, ℤ,
}
use mcproxy.Text.{Text, same_text}
use mcproxy.Rules.{Table}
use mcproxy.Interface.{
  find_instance, insert_instance, update_instance, find_interface, update_interface,
  RbInterfaceDirection, RuleBinding, Interface, InstanceDefinition, id_in, id_out, id_wildcard,
}
use mcproxy.Interface.Filters.{FilterRefsIn}
use mcproxy.Ending.{Ends, thrown-Ends, returned-Ends, >>=-Ends, if-Ends, Option-Ends}
use mcproxy.Token.{Token, tt_double_dot, tt_arrow, tt_nil}
use mcproxy.Parser.{get_string, has_type, any_string, get_next_token, Parser, ParserType}
use mcproxy.Parser.Instances.{
  is_pt_instance, take_interfaces, parse_table_number, parse_interfaces, parse_instance_definition,
}
use mcproxy.Parser.Bindings.{store_filter}
use mcproxy.Parser.TablesEnd.{get_parser_type-Ends}
use mcproxy.Configuration.Growing.{InterfaceOk, InstanceOk}

pub along {ℓ} : {A : Type ℓ} (P : A → Type 0) (x y : A) → x ≡ y → P x → P y
along P x y e h = subst P (e) h

-- What the parser does to the instances.
module _ (ts : List Table) where
  unfoldable pub InstancesOk : List InstanceDefinition → Type 0
  InstancesOk ids = All (InstanceOk ts) ids

  pub update_instance-Ok :
      (n : Text) (f : InstanceDefinition → InstanceDefinition) (ids : List InstanceDefinition)
      → ((d : InstanceDefinition) → InstanceOk ts d → InstanceOk ts (f d))
      → InstancesOk ids
      → InstancesOk (update_instance n f ids)
  unfolding InstancesOk update_instance
  update_instance-Ok n f [] k h = tt
  update_instance-Ok n f (d ∷ ids) k (hd, h) =
      if-holds InstancesOk (same_text d.instance n) (f d ∷ ids) (d ∷ update_instance n f ids)
        (k d hd, h) (hd, update_instance-Ok n f ids k h)

  pub update_interface-Ok :
      (n : Text) (f : Interface → Interface) (l : List Interface)
      → ((i : Interface) → InterfaceOk ts i → InterfaceOk ts (f i))
      → All (InterfaceOk ts) l
      → All (InterfaceOk ts) (update_interface n f l)
  unfolding update_interface
  update_interface-Ok n f [] k h = tt
  update_interface-Ok n f (i ∷ l) k (hi, h) =
      if-holds (All (InterfaceOk ts)) (same_text i.name n) (f i ∷ l) (i ∷ update_interface n f l)
        (k i hi, h) (hi, update_interface-Ok n f l k h)

  take_interfaces-Ok : (t : Token) (l : List Token) → All (InterfaceOk ts) (take_interfaces t l).0
  unfolding take_interfaces
  take_interfaces-Ok t [] = ground arith
  take_interfaces-Ok t (u ∷ l) = ground (arith, take_interfaces-Ok u l)

  pub find_interface-Ok :
      (n : Text) (l : List Interface) (i : Interface)
      → find_interface n l ≡ some i
      → All (InterfaceOk ts) l
      → InterfaceOk ts i
  unfolding find_interface
  find_interface-Ok n [] i e h = ground arith
  find_interface-Ok n (j ∷ l) i e (hj, h) = elim (Bool-cases (same_text j.name n)) [
    | inl s ↦ along (InterfaceOk ts) j i (ground arith) hj
    | inr s ↦ find_interface-Ok n l i (ground arith) h
  ]

  pub find_instance-Ok :
      (n : Text) (l : List InstanceDefinition) (d : InstanceDefinition)
      → find_instance n l ≡ some d
      → InstancesOk l
      → InstanceOk ts d
  unfolding find_instance InstancesOk
  find_instance-Ok n [] i e h = ground arith
  find_instance-Ok n (j ∷ l) i e (hj, h) = elim (Bool-cases (same_text j.instance n)) [
    | inl s ↦ along (InstanceOk ts) j i (ground arith) hj
    | inr s ↦ find_instance-Ok n l i (ground arith) h
  ]

  pub store_filter-Ok :
      (dir : RbInterfaceDirection) (rb : RuleBinding) (i i2 : Interface)
      → FilterRefsIn ts (some rb)
      → InterfaceOk ts i
      → store_filter dir rb i ≡ some i2
      → InterfaceOk ts i2
  unfolding store_filter
  store_filter-Ok id_in rb i i2 hr h e = elim (Bool-cases (is_some i.input_filter)) [
    | inl s ↦ absurd (ground arith)
    | inr s ↦
        along (InterfaceOk ts) (record i { input_filter = some rb }) i2 (ground arith) (hr, h.1)
  ]
  store_filter-Ok id_out rb i i2 hr h e = elim (Bool-cases (is_some i.output_filter)) [
    | inl s ↦ absurd (ground arith)
    | inr s ↦
        along (InterfaceOk ts) (record i { output_filter = some rb }) i2 (ground arith) (h.0, hr)
  ]
  store_filter-Ok id_wildcard rb i i2 hr h e = ground arith

  parse_interfaces-Ok :
      (name : Text) (n : ℤ) (b : Bool) (p : Parser)
      → Ends (InstanceOk ts) (parse_interfaces name n b p)
  unfolding parse_interfaces
  parse_interfaces-Ok name n b p =
      let q = get_next_token p in
      let up = take_interfaces q.current_token q.rest in
      let r = get_next_token up.1 in
      let down = take_interfaces r.current_token r.rest in
      if-Ends (InstanceOk ts)
        (has_type p.current_token tt_double_dot
          && has_type up.1.current_token tt_arrow
          && not (is_empty down.0)
          && has_type down.1.current_token tt_nil)
        _ _
        (λ e.
          returned-Ends _ _
            (take_interfaces-Ok q.current_token q.rest, take_interfaces-Ok r.current_token r.rest))
        (λ e. thrown-Ends _ _)

  parse_table_number-Ends : (p : Parser) → Ends (λ k. Unit {0}) (parse_table_number p)
  unfolding parse_table_number Ends
  parse_table_number-Ends p = ground arith

  insert_instance-Ok :
      (d : InstanceDefinition) (ids ids2 : List InstanceDefinition)
      → InstanceOk ts d
      → InstancesOk ids
      → insert_instance d ids ≡ some ids2
      → InstancesOk ids2
  unfolding InstancesOk insert_instance
  insert_instance-Ok d ids ids2 hd h e = along InstancesOk (d ∷ ids) ids2 (ground arith) (hd, h)

  pub parse_instance_definition-Ok :
      (p : Parser) (ids : List InstanceDefinition)
      → InstancesOk ids
      → Ends InstancesOk (parse_instance_definition p ids)
  unfolding parse_instance_definition InstancesOk
  parse_instance_definition-Ok p ids h =
      let q = get_next_token p in
      >>=-Ends {A = ParserType} (λ k. Unit {0}) InstancesOk _ _ (get_parser_type-Ends p)
        (λ k hk.
          if-Ends InstancesOk (not (is_pt_instance k && has_type q.current_token any_string)) _ _
            (λ e. thrown-Ends _ _)
            (λ e.
              >>=-Ends {A = ℤ × Bool × Parser} (λ k. Unit {0}) InstancesOk _ _
                (parse_table_number-Ends (get_next_token q))
                (λ r hr.
                  >>=-Ends {A = InstanceDefinition} (InstanceOk ts) InstancesOk _ _
                    (parse_interfaces-Ok (get_string q.current_token) r.0 r.1 r.2)
                    (λ d hd.
                      Option-Ends InstancesOk (insert_instance d ids) _ _ (λ e2. thrown-Ends _ _)
                        (λ ids2 e2. returned-Ends _ _ (insert_instance-Ok d ids ids2 hd h e2))))))
