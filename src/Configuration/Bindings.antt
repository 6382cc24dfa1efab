-- ===== src/Configuration/Bindings.antt =====
-- mcproxy/src/parser/parser.cpp: `parse_interface_rule_binding` binds only tables whose references
-- are good.
use mcproxy.Base.{not, ◌&&◌, Option, none, some, List, arith, is_some, length, All, ℤ}
use mcproxy.Protocol.{GroupMemProtocol}
use mcproxy.Text.{Text}
use mcproxy.Addr.{Addr, Family}
use mcproxy.Rules.{Table}
use mcproxy.Rules.Finite.{TableRefsIn}
use mcproxy.Interface.{
  filter_binding, find_instance, find_interface, RbInterfaceType, RbInterfaceDirection,
  RbFilterType, RbRuleMatchingType, Interface, InstanceDefinition, it_upstream, it_downstream,
}
use mcproxy.Ending.{Ends, thrown-Ends, returned-Ends, >>=-Ends, if-Ends, Option-Ends}
use mcproxy.Token.{tt_rule_matching, tt_nil}
use mcproxy.Parser.{get_string, has_type, any_string, get_next_token, Parser, ParserType}
use mcproxy.Parser.Bindings.{
  is_pt_binding, interfaces_of, with_interfaces, store_filter, bind_table, parse_rule_matching,
  parse_match_binding, interface_type_of, if_name_of, direction_of, filter_type_of, expect,
  parse_table_binding, parse_interface_rule_binding,
}
use mcproxy.Parser.TablesEnd.{get_parser_type-Ends, TableOk}
use mcproxy.Parser.TableTotal.{parse_table-TableOk}
use mcproxy.Configuration.Growing.{InterfaceOk, InstanceOk}
use mcproxy.Configuration.Instances.{
  InstancesOk, update_instance-Ok, update_interface-Ok, find_interface-Ok, find_instance-Ok,
  store_filter-Ok,
}

module _ (ts : List Table) where
  parse_rule_matching-Ends : (p : Parser) → Ends (λ k. Unit {0}) (parse_rule_matching p)
  unfolding parse_rule_matching Ends
  parse_rule_matching-Ends p = ground arith

  expect-Ends {ℓ} : {A : Type ℓ} (o : Option A) → Ends (λ k. Unit {0}) (expect o)
  unfolding Ends
  expect-Ends none = tt
  expect-Ends (some a) = tt

  with_interfaces-Ok :
      (it : RbInterfaceType) (f : List Interface → List Interface) (d : InstanceDefinition)
      → ((l : List Interface) → All (InterfaceOk ts) l → All (InterfaceOk ts) (f l))
      → InstanceOk ts d
      → InstanceOk ts (with_interfaces it f d)
  unfolding with_interfaces InstancesOk
  with_interfaces-Ok it_upstream f d k h = (k d.upstreams h.0, h.1)
  with_interfaces-Ok it_downstream f d k h = (h.0, k d.downstreams h.1)

  interfaces_of-Ok :
      (it : RbInterfaceType) (d : InstanceDefinition)
      → InstanceOk ts d
      → All (InterfaceOk ts) (interfaces_of it d)
  interfaces_of-Ok it_upstream d h = h.0
  interfaces_of-Ok it_downstream d h = h.1

  bind_table-Ok :
      (name : Text) (it : RbInterfaceType) (if_name : Text) (dir : RbInterfaceDirection)
      (ft : RbFilterType) (t : Table) (ids : List InstanceDefinition)
      → TableRefsIn ts t
      → InstancesOk ts ids
      → Ends (InstancesOk ts) (bind_table name it if_name dir ft t ids)
  unfolding bind_table InstancesOk
  bind_table-Ok name it if_name dir ft t ids ht h =
      let rb = filter_binding name it if_name dir ft t in
      Option-Ends (InstancesOk ts) (find_instance name ids) _ _ (λ e. thrown-Ends _ _)
        (λ d ed.
          Option-Ends (InstancesOk ts) (find_interface if_name (interfaces_of it d)) _ _
            (λ e. thrown-Ends _ _)
            (λ i ei.
              Option-Ends (InstancesOk ts) (store_filter dir rb i) _ _ (λ e. thrown-Ends _ _)
                (λ i2 e2.
                  let hi =
                    store_filter-Ok ts dir rb i i2 ht
                      (find_interface-Ok ts if_name (interfaces_of it d) i ei
                        (interfaces_of-Ok it d (find_instance-Ok ts name ids d ed h)))
                      e2 in
                  returned-Ends _ _ (
                    update_instance-Ok ts name _ ids
                      (λ d2 hd2.
                        with_interfaces-Ok it _ d2
                          (λ l hl. update_interface-Ok ts if_name (λ j. i2) l (λ j hj. hi) hl) hd2)
                      h))))

  parse_match_binding-Ok :
      (name : Text) (it : RbInterfaceType) (if_name : Text) (dir : RbInterfaceDirection)
      (p : Parser) (ids : List InstanceDefinition)
      → InstancesOk ts ids
      → Ends (InstancesOk ts) (parse_match_binding name it if_name dir p ids)
  unfolding parse_match_binding InstancesOk
  parse_match_binding-Ok name it if_name dir p ids h =
      >>=-Ends {A = RbRuleMatchingType × ℤ × Parser} (λ k. Unit {0}) (InstancesOk ts) _ _
        (parse_rule_matching-Ends (get_next_token p))
        (λ r hr.
          if-Ends (InstancesOk ts)
            (not (
              has_type (get_next_token r.2).current_token tt_nil
              && is_some (find_instance name ids)))
            _ _ (λ e. thrown-Ends _ _)
            (λ e. returned-Ends _ _ (update_instance-Ok ts name _ ids (λ d hd. hd) h)))

  parse_table_binding-Ok :
      (inet_pton : Family → Text → Option Addr) (gmp : GroupMemProtocol) (name : Text)
      (it : RbInterfaceType) (if_name : Text) (dir : RbInterfaceDirection) (ft : RbFilterType)
      (p : Parser) (ids : List InstanceDefinition)
      → InstancesOk ts ids
      → Ends (InstancesOk ts) (parse_table_binding inet_pton gmp ts name it if_name dir ft p ids)
  unfolding parse_table_binding TableOk
  parse_table_binding-Ok inet_pton gmp name it if_name dir ft p ids h =
      >>=-Ends {A = Table × Parser} (TableOk ts (length (get_next_token p).rest)) (InstancesOk ts) _
        _ (parse_table-TableOk inet_pton gmp ts (get_next_token p))
        (λ (r : Table × Parser). λ hr.
          if-Ends (InstancesOk ts) (has_type r.1.current_token tt_nil) _ _
            (λ e. bind_table-Ok name it if_name dir ft r.0 ids hr.1 h) (λ e. thrown-Ends _ _))

  pub parse_interface_rule_binding-Ok :
      (inet_pton : Family → Text → Option Addr) (gmp : GroupMemProtocol) (p : Parser)
      (ids : List InstanceDefinition)
      → InstancesOk ts ids
      → Ends (InstancesOk ts) (parse_interface_rule_binding inet_pton gmp ts p ids)
  unfolding parse_interface_rule_binding
  parse_interface_rule_binding-Ok inet_pton gmp p ids h =
      let p1 = get_next_token p in
      let p2 = get_next_token p1 in
      let p3 = get_next_token p2 in
      let p4 = get_next_token p3 in
      let p5 = get_next_token p4 in
      let name = get_string p1.current_token in
      let Q = InstancesOk ts in
      >>=-Ends {A = ParserType} (λ k. Unit {0}) Q _ _ (get_parser_type-Ends p)
        (λ kind hk.
          if-Ends Q
            (not (
              is_pt_binding kind
              && has_type p1.current_token any_string
              && is_some (find_instance name ids)))
            _ _ (λ e. thrown-Ends _ _)
            (λ e.
              >>=-Ends {A = RbInterfaceType} (λ k. Unit {0}) Q _ _
                (expect-Ends (interface_type_of p2.current_token))
                (λ it hit.
                  >>=-Ends {A = Text} (λ k. Unit {0}) Q _ _
                    (expect-Ends (if_name_of p3.current_token))
                    (λ if_name hif.
                      >>=-Ends {A = RbInterfaceDirection} (λ k. Unit {0}) Q _ _
                        (expect-Ends (direction_of p4.current_token))
                        (λ dir hdir.
                          Option-Ends Q (filter_type_of p5.current_token) _ _
                            (λ e2.
                              if-Ends Q (has_type p5.current_token tt_rule_matching) _ _
                                (λ e3. parse_match_binding-Ok name it if_name dir p5 ids h)
                                (λ e3. thrown-Ends _ _))
                            (λ ft e2.
                              parse_table_binding-Ok inet_pton gmp name it if_name dir ft p5 ids
                                h))))))
