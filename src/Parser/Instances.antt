-- ===== src/Parser/Instances.antt =====
-- mcproxy/src/parser/parser.cpp: `parse_instance_definition`.
use mcproxy.Base.{
  Bool, true, false, not, ◌&&◌, none, some, List, [], ◌∷◌, if◌then◌else◌, is_empty, ℤ, pos,
}
use mcproxy.Text.{Text}
use mcproxy.Interface.{new_interface, insert_instance, Interface, InstanceDefinition}
use mcproxy.Ending.{◌>>=◌, Ending, returned}
use mcproxy.Token.{Token, tt_double_dot, tt_arrow, tt_left_bracket, tt_right_bracket, tt_nil}
use mcproxy.Parser.{
  get_string, has_type, any_string, take_token, get_next_token, fail, get_parser_type, Parser,
  ParserType, pt_instance_definition,
}
use mcproxy.Parser.Numbers.{stoi}

abbrev pub is_pt_instance : ParserType → Bool
is_pt_instance pt_instance_definition = true
is_pt_instance _ = false

-- A loop over names of interfaces: the interfaces, and the state after them.
unfoldable pub take_interfaces : Token → List Token → List Interface × Parser
take_interfaces t [] =
    if has_type t any_string
    then (new_interface (get_string t) ∷ [], take_token [])
    else ([], take_token (t ∷ []))
take_interfaces t (u ∷ l) =
    let after = take_interfaces u l in
    if has_type t any_string
    then (new_interface (get_string t) ∷ after.0, after.1)
    else ([], take_token (t ∷ u ∷ l))

-- The table number in brackets: the number, whether there is one, and the state after it.
unfoldable pub parse_table_number : Parser → Ending (ℤ × Bool × Parser)
parse_table_number p =
    let q = get_next_token p in
    let r = get_next_token q in
    if not (has_type p.current_token tt_left_bracket)
    then returned (pos 0, false, p)
    else if not (has_type q.current_token any_string)
    then fail
    else elim (stoi (get_string q.current_token)) [
      | none ↦ fail
      | some n ↦
          if has_type r.current_token tt_right_bracket
          then returned (n, true, get_next_token r)
          else fail
    ]

-- The interfaces after the name and the number.
unfoldable pub parse_interfaces : Text → ℤ → Bool → Parser → Ending InstanceDefinition
parse_interfaces name number selected p =
    let q = get_next_token p in
    let up = take_interfaces q.current_token q.rest in
    let r = get_next_token up.1 in
    let down = take_interfaces r.current_token r.rest in
    if has_type p.current_token tt_double_dot
      && has_type up.1.current_token tt_arrow
      && not (is_empty down.0)
      && has_type down.1.current_token tt_nil
    then returned (record {
      instance = name;
      table_number = number;
      user_selected_table_number = selected;
      upstreams = up.0;
      downstreams = down.0;
      global_settings = [];
    })
    else fail

-- The set with the new instance.
unfoldable pub parse_instance_definition :
    Parser → List InstanceDefinition → Ending (List InstanceDefinition)
parse_instance_definition p ids = do
  kind ← get_parser_type p
  let q = get_next_token p
  if not (is_pt_instance kind && has_type q.current_token any_string) then fail else (do
    (number, selected, r) ← parse_table_number (get_next_token q)
    d ← parse_interfaces (get_string q.current_token) number selected r
    elim (insert_instance d ids) [ none ↦ fail | some ids' ↦ returned ids' ])
