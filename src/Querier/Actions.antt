-- ===== src/Querier/Actions.antt =====
-- mcproxy/src/proxy/querier.cpp: the actions of the router state tables, `mali` and `send_Q`.
use mcproxy.Base.{
  ℕ, Bool, false, not, ◌||◌, Option, none, some, List, [], ◌∷◌, map, if◌then◌else◌, is_some,
  is_empty, minus_one, is_positive, dec, pos,
}
use mcproxy.SourceList.{find?, update}
use mcproxy.TimersValues.{get_multicast_address_listening_interval, get_last_listener_query_time}
use mcproxy.Message.{
  is_remaining_time_greater_than, key, TimerMsg, Source, filter_timer_msg, source_timer_msg,
  ret_group_timer_msg, ret_source_timer_msg,
}
use mcproxy.Membership.{GaddrInfo}
use mcproxy.World.{emit, make_timer, start_timer, World, adds_time, send_query}
use mcproxy.Sender.{send_mc_addr_and_src_specific_query}

-- `mali(gaddr, ginfo)`: the filter timer is set to the listening interval.
unfoldable pub mali_group : World → ℕ → GaddrInfo → GaddrInfo × World
unfolding start_timer
mali_group w gaddr g =
    let mali = get_multicast_address_listening_interval w.timers_values in
    let (ft, w') = start_timer w filter_timer_msg gaddr mali in
    (record g { shared_filter_timer = some ft }, w')

abbrev pub refresh : Option TimerMsg → Source → Source
refresh t s = record s { shared_source_timer = t; retransmission_count = minus_one }

-- `mali(gaddr, slist)`: one new timer for all sources of the list, started unless it is empty.
unfoldable pub mali_list : World → ℕ → List Source → List Source × World
unfolding make_timer emit
mali_list w gaddr slist =
    let mali = get_multicast_address_listening_interval w.timers_values in
    let (st, w') = make_timer w source_timer_msg gaddr mali in
    (map (refresh (some st)) slist, if is_empty slist then w' else emit w' (adds_time mali st))

-- The loop of `mali(gaddr, slist, tmp_slist)`: each source of `tmp_slist` that `slist` has gets the
-- timer there.
unfoldable pub copy_timers : List Source → List Source → List Source
copy_timers [] slist = slist
copy_timers (e ∷ tmp_slist) slist =
    copy_timers tmp_slist (update key e.saddr (refresh e.shared_source_timer) slist)

unfoldable pub mali_sources : World → ℕ → List Source → List Source → List Source × World
mali_sources w gaddr slist tmp_slist =
    let (tmp, w') = mali_list w gaddr tmp_slist in (copy_timers tmp slist, w')

-- `send_Q(gaddr, ginfo)`, first part: outside a retransmission the filter timer is lowered.
unfoldable pub lower_filter_timer : World → ℕ → GaddrInfo → GaddrInfo × World
unfolding start_timer
lower_filter_timer w gaddr g =
    let tv = w.timers_values in
    let (ft, w') = start_timer w filter_timer_msg gaddr (get_last_listener_query_time tv) in
    let lowered = record g {
      group_retransmission_count = pos tv.last_listener_query_count;
      shared_filter_timer = some ft;
    } in
    if is_some g.group_retransmission_timer then (g, w) else (lowered, w')

-- Second part, with a positive counter: the counter falls, and the next retransmission is scheduled
-- if there is to be one.
unfoldable pub schedule_group_retransmission : World → ℕ → GaddrInfo → GaddrInfo × World
unfolding start_timer
schedule_group_retransmission w gaddr g =
    let llqi = w.timers_values.last_listener_query_interval in
    let g1 = record g { group_retransmission_count = dec g.group_retransmission_count } in
    let (rt, w1) = start_timer w ret_group_timer_msg gaddr llqi in
    if is_positive g1.group_retransmission_count
    then (record g1 { group_retransmission_timer = some rt }, w1)
    else (g1, w)

-- The query. `none`: the filter timer is read through a null pointer.
unfoldable pub query_group : GaddrInfo × World → ℕ → Option (GaddrInfo × World)
unfolding emit is_remaining_time_greater_than
query_group (g, w) gaddr = elim g.shared_filter_timer [
  | none ↦ none
  | some ft ↦
      let llqt = get_last_listener_query_time w.timers_values in
      let s_flag = is_remaining_time_greater_than w.now ft llqt in
      some (g, emit w (send_query gaddr s_flag []))
]

unfoldable pub send_q_group : World → ℕ → GaddrInfo → Option (GaddrInfo × World)
send_q_group w gaddr g =
    let (g1, w1) = lower_filter_timer w gaddr g in
    let reset = record g1 {
      group_retransmission_timer = none;
      group_retransmission_count = minus_one;
    } in
    if is_positive g1.group_retransmission_count
    then query_group (schedule_group_retransmission w1 gaddr g1) gaddr
    else some (reset, w1)

-- The test `retransmission_count < 1` of the source that was found.
abbrev pub needs_arming : Option Source → Bool
needs_arming none = false
needs_arming (some s) = not (is_positive s.retransmission_count)

abbrev pub arm : TimerMsg → ℕ → Source → Source
arm st count s =
    if is_positive s.retransmission_count
    then s
    else record s { shared_source_timer = some st; retransmission_count = pos count }

-- The loop of `send_Q(gaddr, ginfo, slist, tmp_list, …)`, with the final `is_used`.
unfoldable pub arm_sources : TimerMsg → ℕ → List Source → List Source → List Source × Bool
arm_sources st count [] slist = (slist, false)
arm_sources st count (e ∷ tmp_list) slist =
    let used = needs_arming (find? key e.saddr slist) in
    let (l, is_used) = arm_sources st count tmp_list (update key e.saddr (arm st count) slist) in
    (l, used || is_used)

-- The query to the sources in retransmission, and the next one's timer if a counter is left.
unfoldable pub query_sources : World → ℕ → GaddrInfo → GaddrInfo × World
unfolding start_timer
query_sources w gaddr g =
    let (l, rc, w') = send_mc_addr_and_src_specific_query w gaddr g.include_requested_list in
    let g' = record g { include_requested_list = l } in
    let llqi = w.timers_values.last_listener_query_interval in
    let (rst, w'') = start_timer w' ret_source_timer_msg gaddr llqi in
    if rc then (record g' { source_retransmission_timer = some rst }, w'') else (g', w')

-- `send_Q(gaddr, ginfo, slist, tmp_list, in_retransmission_state)`; every call passes the include or
-- requested list of `ginfo` for `slist`.
unfoldable pub send_q_sources : World → ℕ → GaddrInfo → List Source → Bool → GaddrInfo × World
unfolding make_timer emit
send_q_sources w gaddr g tmp_list in_retransmission_state =
    let llqt = get_last_listener_query_time w.timers_values in
    let (st, w1) = make_timer w source_timer_msg gaddr llqt in
    let count = w.timers_values.last_listener_query_count in
    let (armed, is_used) = arm_sources st count tmp_list g.include_requested_list in
    let w2 = if is_used then emit w1 (adds_time llqt st) else w1 in
    let g1 = record g { include_requested_list = armed } in
    if is_used || in_retransmission_state then query_sources w2 gaddr g1 else (g1, w2)
