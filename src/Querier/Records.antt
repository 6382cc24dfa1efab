-- ===== src/Querier/Records.antt =====
-- mcproxy/src/proxy/querier.cpp: `receive_record` and the two halves of the router state table.
use mcproxy.Base.{
  ℕ, Bool, true, false, not, ◌&&◌, Option, none, some, List, [], if◌then◌else◌, is_empty,
}
use mcproxy.SourceList.{union, inter, diff}
use mathlib.Core.Option
use mcproxy.MapOf.{lookup, put, remove}
use mcproxy.Protocol.{
  is_older_or_equal_version, is_newest_version, GroupMemProtocol, RecordType, include_mode,
  exclude_mode, mode_is_include, mode_is_exclude, change_to_include_mode, change_to_exclude_mode,
  allow_new_sources, block_old_sources, unknown_record,
}
use mcproxy.TimersValues.{get_older_host_present_interval}
use mcproxy.Message.{key, Source, GroupRecord, older_host_present_timer_msg}
use mcproxy.Membership.{new_gaddr_info, is_in_backward_compatibility_mode, GaddrInfo, MembershipDb}
use mcproxy.World.{emit, start_timer, World, state_change}
use mcproxy.Querier.Actions.{mali_group, mali_sources, send_q_group, send_q_sources}

pub record Querier : Type 0 where
  pub world : World
  pub db : MembershipDb

abbrev pub notify : ℕ → GaddrInfo × World → GaddrInfo × World
notify gaddr (g, w) = (g, emit w (state_change gaddr))

-- `receive_record_in_include_mode`: A is the include list, B the list of the record.
unfoldable pub receive_record_in_include_mode :
    World → RecordType → ℕ → List Source → GaddrInfo → GaddrInfo × World
receive_record_in_include_mode w allow_new_sources gaddr b g =
    let (a, w') = mali_sources w gaddr (union key g.include_requested_list b) b in
    notify gaddr (record g { include_requested_list = a }, w')
receive_record_in_include_mode w block_old_sources gaddr b g =
    send_q_sources w gaddr g (inter key g.include_requested_list b) false
receive_record_in_include_mode w change_to_exclude_mode gaddr b g =
    let a = inter key g.include_requested_list b in
    let g1 = record g {
      filter_mode = exclude_mode;
      include_requested_list = a;
      exclude_list = diff key b a;
    } in
    let (g2, w2) = send_q_sources w gaddr g1 (inter key a b) false in
    notify gaddr (mali_group w2 gaddr g2)
receive_record_in_include_mode w change_to_include_mode gaddr b g =
    let a = union key g.include_requested_list b in
    let g1 = record g { include_requested_list = a } in
    let (g2, w2) = send_q_sources w gaddr g1 (diff key a b) false in
    let (a', w3) = mali_sources w2 gaddr g2.include_requested_list b in
    notify gaddr (record g2 { include_requested_list = a' }, w3)
receive_record_in_include_mode w mode_is_exclude gaddr b g =
    let a = inter key g.include_requested_list b in
    let g1 = record g {
      filter_mode = exclude_mode;
      include_requested_list = a;
      exclude_list = diff key b a;
    } in
    notify gaddr (mali_group w gaddr g1)
receive_record_in_include_mode w mode_is_include gaddr b g =
    let (a, w') = mali_sources w gaddr (union key g.include_requested_list b) b in
    notify gaddr (record g { include_requested_list = a }, w')
receive_record_in_include_mode w (unknown_record n) gaddr b g = (g, w)

-- `receive_record_in_exclude_mode`: X is the requested list, Y the exclude list, A the list of the
-- record. `none`: a null filter timer was read.
unfoldable pub receive_record_in_exclude_mode :
    World → RecordType → ℕ → List Source → GaddrInfo → Option (GaddrInfo × World)
receive_record_in_exclude_mode w allow_new_sources gaddr a g =
    let x = union key g.include_requested_list a in
    let y = diff key g.exclude_list a in
    let (x', w') = mali_sources w gaddr x a in
    some (notify gaddr (record g { include_requested_list = x'; exclude_list = y }, w'))
receive_record_in_exclude_mode w block_old_sources gaddr a g =
    let fresh = diff key a g.exclude_list in
    let g1 = record g { include_requested_list = union key g.include_requested_list fresh } in
    some (send_q_sources w gaddr g1 fresh false)
receive_record_in_exclude_mode w change_to_exclude_mode gaddr a g =
    let fresh = diff key a g.exclude_list in
    let x = union key (inter key g.include_requested_list a) fresh in
    let g1 = record g { include_requested_list = x; exclude_list = inter key g.exclude_list a } in
    let (g2, w2) = send_q_sources w gaddr g1 x false in some (notify gaddr (mali_group w2 gaddr g2))
receive_record_in_exclude_mode w change_to_include_mode gaddr a g =
    let x = union key g.include_requested_list a in
    let g1 = record g { include_requested_list = x; exclude_list = diff key g.exclude_list a } in
    let (g2, w2) = send_q_sources w gaddr g1 (diff key x a) false in
    elim (send_q_group w2 gaddr g2) [
      | none ↦ none
      | some (g3, w3) ↦
          let (x', w4) = mali_sources w3 gaddr g3.include_requested_list a in
          some (notify gaddr (record g3 { include_requested_list = x' }, w4))
    ]
receive_record_in_exclude_mode w mode_is_exclude gaddr a g =
    let newcomers = diff key (diff key a g.include_requested_list) g.exclude_list in
    let (a', w1) = mali_sources w gaddr a newcomers in
    let fresh = diff key a' g.exclude_list in
    let x = union key (inter key g.include_requested_list a') fresh in
    let g1 = record g { include_requested_list = x; exclude_list = inter key g.exclude_list a' } in
    some (notify gaddr (mali_group w1 gaddr g1))
receive_record_in_exclude_mode w mode_is_include gaddr a g =
    let x = union key g.include_requested_list a in
    let y = diff key g.exclude_list a in
    let (x', w') = mali_sources w gaddr x a in
    some (notify gaddr (record g { include_requested_list = x'; exclude_list = y }, w'))
receive_record_in_exclude_mode w (unknown_record n) gaddr a g = some (g, w)

-- The group's entry, or the neutral one that is inserted for a new group.
unfoldable pub find_or_insert : MembershipDb → ℕ → GaddrInfo
find_or_insert db gaddr = elim (lookup gaddr db.group_info) [
  | none ↦ new_gaddr_info db.querier_version_mode
  | some g ↦ g
]

-- Backwards compatibility: an older report sets the mode and starts the older host present timer.
unfoldable pub coordinate_compatibility :
    World → GroupMemProtocol → GroupRecord → GaddrInfo → GaddrInfo × World
unfolding start_timer
coordinate_compatibility w mode gr g =
    let proto = gr.grp_mem_proto in
    let delay = get_older_host_present_interval w.timers_values in
    let (t, w') = start_timer w older_host_present_timer_msg gr.gaddr delay in
    let g' = record g { compatibility_mode_variable = proto; older_host_present_timer = some t } in
    if not (is_newest_version proto) && is_older_or_equal_version proto mode
    then (g', w')
    else (g, w)

-- In backward compatibility mode the list of a TO_EX record counts as empty.
unfoldable pub effective_slist : Bool → RecordType → List Source → List Source
effective_slist true change_to_exclude_mode slist = []
effective_slist _ _ slist = slist

-- In backward compatibility mode a BLOCK record is ignored.
unfoldable pub is_ignored : Bool → RecordType → Bool
is_ignored true block_old_sources = true
is_ignored _ _ = false

-- An include mode group with no sources is not kept.
abbrev pub is_unused : GaddrInfo → Bool
is_unused g = elim g.filter_mode [
  | include_mode ↦ is_empty g.include_requested_list
  | exclude_mode ↦ false
]

abbrev pub store : Querier → ℕ → GaddrInfo × World → Querier
store q gaddr (g, w) = record {
  world = w;
  db = record (q.db) { group_info = put gaddr g q.db.group_info };
}

-- The branch of `INCLUDE_MODE`: what the record leaves of the group is stored, or erased if unused.
abbrev pub store_used : Querier → ℕ → GaddrInfo × World → Querier
store_used q gaddr (g, w) =
    if is_unused g
    then record { world = w; db = record (q.db) { group_info = remove gaddr q.db.group_info } }
    else store q gaddr (g, w)

unfoldable pub process_record :
    Querier → GroupRecord → List Source → GaddrInfo × World → Option Querier
process_record q gr slist (g, w) = elim g.filter_mode [
  | include_mode ↦
      some
        (store_used q gr.gaddr (receive_record_in_include_mode w gr.record_type gr.gaddr slist g))
  | exclude_mode ↦
      Option.map (store q gr.gaddr)
        (receive_record_in_exclude_mode w gr.record_type gr.gaddr slist g)
]

-- `none`: undefined behaviour, a null pointer was read.
unfoldable pub receive_record : Querier → GroupRecord → Option Querier
unfolding find_or_insert coordinate_compatibility
receive_record q gr =
    let g = find_or_insert q.db gr.gaddr in
    let (g', w') = coordinate_compatibility q.world q.db.querier_version_mode gr g in
    let compatible = is_in_backward_compatibility_mode g' in
    if is_ignored compatible gr.record_type
    then some (store q gr.gaddr (g', w'))
    else process_record q gr (effective_slist compatible gr.record_type gr.slist) (g', w')
