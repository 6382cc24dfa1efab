-- ===== src/Querier/Expiry.antt =====
-- mcproxy/src/proxy/querier.cpp: `send_general_query`, `timer_triggerd` and what each timer does.
use mathlib.Core.Option
use mcproxy.Base.{
  ℕ, Bool, true, false, Option, none, some, List, [], ◌∷◌, if◌then◌else◌, is_some, is_empty,
  is_positive, dec, ℤ, pos,
}
use mcproxy.SourceList.{insert}
use mcproxy.MapOf.{lookup, remove}
use mcproxy.Protocol.{
  is_newest_version, get_next_newer_version, GroupMemProtocol, include_mode, exclude_mode,
}
use mcproxy.TimersValues.{
  sec, get_multicast_address_listening_interval, get_older_host_present_interval, TimersValues,
}
use mcproxy.Message.{
  points_to, key, TimerType, TimerMsg, Source, filter_timer_msg, source_timer_msg,
  ret_group_timer_msg, ret_source_timer_msg, older_host_present_timer_msg, general_query_timer_msg,
}
use mcproxy.Membership.{GaddrInfo, MembershipDb}
use mcproxy.World.{emit, start_timer, send_query, state_change}
use mcproxy.Querier.Actions.{send_q_group, send_q_sources}
use mcproxy.Querier.Records.{store, Querier}

-- The startup counter: it is set when no general query was sent before, and falls with each one.
unfoldable pub startup_count : TimersValues → MembershipDb → ℤ
startup_count tv db =
    if is_some db.general_query_timer
    then db.startup_query_count
    else dec (pos tv.startup_query_count)

unfoldable pub send_general_query : Querier → Querier
send_general_query q =
    let tv = q.world.timers_values in
    let count = startup_count tv q.db in
    let in_startup = is_positive count in
    let t = if in_startup then sec tv.startup_query_interval_sec else sec tv.query_interval_sec in
    let (gqt, w) = start_timer q.world general_query_timer_msg 0 t in
    record {
      world = emit w (send_query 0 false []);
      db = record (q.db) {
        general_query_timer = some gqt;
        startup_query_count = if in_startup then dec count else count;
      };
    }

abbrev pub erase_group : Querier → ℕ → Querier
erase_group q gaddr = record q { db = record (q.db) { group_info = remove gaddr q.db.group_info } }

abbrev pub notify_routing : ℕ → Querier → Querier
notify_routing gaddr q = record q { world = emit q.world (state_change gaddr) }

-- The sources whose timer is not `msg`.
unfoldable pub drop_expired : TimerMsg → List Source → List Source
drop_expired msg [] = []
drop_expired msg (s ∷ l) =
    let rest = drop_expired msg l in if points_to s.shared_source_timer msg then rest else s ∷ rest

-- The exclude list after those whose timer is `msg` were moved there, without their timer.
unfoldable pub exclude_expired : TimerMsg → List Source → List Source → List Source
exclude_expired msg [] y = y
exclude_expired msg (s ∷ l) y = exclude_expired msg l (
    if points_to s.shared_source_timer msg
    then insert key (record s { shared_source_timer = none }) y
    else y)

-- `g` is the entry that `gaddr` has in the database.
unfoldable pub timer_triggerd_source_timer : Querier → ℕ → GaddrInfo → TimerMsg → Querier
timer_triggerd_source_timer q gaddr g msg =
    let rest = drop_expired msg g.include_requested_list in
    let moved = exclude_expired msg g.include_requested_list g.exclude_list in
    notify_routing gaddr (elim g.filter_mode [
      | include_mode ↦
          if is_empty rest
          then erase_group q gaddr
          else store q gaddr (record g { include_requested_list = rest }, q.world)
      | exclude_mode ↦
          store q gaddr (record g { include_requested_list = rest; exclude_list = moved }, q.world)
    ])

-- The filter timer proper: the last listener in exclude mode is gone.
unfoldable pub leave_exclude_mode : Querier → ℕ → GaddrInfo → Querier
leave_exclude_mode q gaddr g = elim g.filter_mode [
  | include_mode ↦ q
  | exclude_mode ↦ notify_routing gaddr (
      if is_empty g.include_requested_list
      then erase_group q gaddr
      else store q gaddr (
        record g { filter_mode = include_mode; shared_filter_timer = none; exclude_list = [] },
        q.world,
      ))
]

-- `none`: the source timer's part erased the group, whose entry is read on.
unfoldable pub timer_triggerd_filter_timer : Querier → ℕ → GaddrInfo → TimerMsg → Option Querier
timer_triggerd_filter_timer q gaddr g msg =
    let q' = if msg.is_used_as_source_timer then timer_triggerd_source_timer q gaddr g msg else q in
    elim (lookup gaddr q'.db.group_info) [
      | none ↦ none
      | some g' ↦
          some (if points_to g'.shared_filter_timer msg then leave_exclude_mode q' gaddr g' else q')
    ]

unfoldable pub timer_triggerd_ret_group_timer : Querier → ℕ → GaddrInfo → TimerMsg → Option Querier
timer_triggerd_ret_group_timer q gaddr g msg =
    if points_to g.group_retransmission_timer msg
    then Option.map (store q gaddr) (send_q_group q.world gaddr g)
    else some q

unfoldable pub timer_triggerd_ret_source_timer : Querier → ℕ → GaddrInfo → TimerMsg → Querier
timer_triggerd_ret_source_timer q gaddr g msg =
    if points_to g.source_retransmission_timer msg
    then store q gaddr (send_q_sources q.world gaddr g [] true)
    else q

unfoldable pub timer_triggerd_general_query_timer : Querier → TimerMsg → Querier
timer_triggerd_general_query_timer q msg =
    if points_to q.db.general_query_timer msg then send_general_query q else q

-- How long the next older host present timer runs once the mode is `mode`.
unfoldable pub compatibility_delay : TimersValues → GroupMemProtocol → ℕ
compatibility_delay tv mode =
    if is_newest_version mode
    then get_multicast_address_listening_interval tv
    else get_older_host_present_interval tv

unfoldable pub timer_triggerd_older_host_present_timer :
    Querier → ℕ → GaddrInfo → TimerMsg → Querier
timer_triggerd_older_host_present_timer q gaddr g msg =
    let mode = get_next_newer_version g.compatibility_mode_variable in
    let delay = compatibility_delay q.world.timers_values mode in
    let (t, w) = start_timer q.world older_host_present_timer_msg gaddr delay in
    let newer = record g {
      compatibility_mode_variable = mode;
      older_host_present_timer = some t;
    } in
    if points_to g.older_host_present_timer msg
    then if is_newest_version g.compatibility_mode_variable
      then notify_routing gaddr
          (store q gaddr (record g { older_host_present_timer = none }, q.world))
      else store q gaddr (newer, w)
    else q

-- The second `switch`, for a timer of a group whose entry was found.
unfoldable pub group_timer_triggerd : Querier → GaddrInfo → TimerMsg → TimerType → Option Querier
group_timer_triggerd q g msg filter_timer_msg = timer_triggerd_filter_timer q msg.gaddr g msg
group_timer_triggerd q g msg source_timer_msg = some (timer_triggerd_source_timer q msg.gaddr g msg)
group_timer_triggerd q g msg ret_group_timer_msg = timer_triggerd_ret_group_timer q msg.gaddr g msg
group_timer_triggerd q g msg ret_source_timer_msg =
    some (timer_triggerd_ret_source_timer q msg.gaddr g msg)
group_timer_triggerd q g msg older_host_present_timer_msg =
    some (timer_triggerd_older_host_present_timer q msg.gaddr g msg)
group_timer_triggerd q g msg general_query_timer_msg =
    some (timer_triggerd_general_query_timer q msg)

abbrev pub is_general : TimerType → Bool
is_general general_query_timer_msg = true
is_general _ = false

-- `unique` is what `msg.unique()` says: that no pointer but the caller's leads to the message. The
-- timing module may still hold one, so it is an input. `none`: undefined behaviour.
unfoldable pub timer_triggerd : Bool → Querier → TimerMsg → Option Querier
timer_triggerd unique q msg =
    let by_group : Option Querier = elim (lookup msg.gaddr q.db.group_info) [
      | none ↦ some q
      | some g ↦ group_timer_triggerd q g msg msg.type
    ] in
    let general = some (timer_triggerd_general_query_timer q msg) in
    if unique then some q else if is_general msg.type then general else by_group
