-- ===== src/Tests/TimerRuns.antt =====
-- The theorems on the timers of mcproxy/src/proxy/querier.cpp at the group of the parent module.
use mcproxy.Base.{
  ℕ, suc, ◌+◌, ◌≡◌, refl, ◌≢◌, true, false, some, [], ◌∷◌, ◌==◌, if◌then◌else◌, minus_one,
}
use mcproxy.MapOf.{lookup, put}
use mcproxy.Protocol.{include_mode, igmpv3}
use mcproxy.TimersValues.{get_last_listener_query_time}
use mcproxy.Message.{TimerMsg, filter_timer_msg, source_timer_msg}
use mcproxy.Membership.{GaddrInfo}
use mcproxy.World.{World}
use mcproxy.Sender.{igmp_send_record, mld_send_record}
use mcproxy.Querier.Actions.{send_q_group}
use mcproxy.Querier.Records.{receive_record, Querier}
use mcproxy.Querier.Expiry.{timer_triggerd}
use mcproxy.Querier.Outcomes.{IsValidDb, state_of}
use mcproxy.Querier.Reports.{expected}
use mcproxy.Querier.Elapsed.{timer_row, IsDue}
use mcproxy.Querier.TimerEvents.{timer_triggerd-Table, timer_triggerd-IsValidDb}
use mcproxy.Sender.Records.{includes_some, mld_send_record-igmp_send_record}
use mcproxy.Querier.Retransmission.{
  queries, filter_timers, running, resting, at_clock, calls, send_q_group_rounds,
}
use mcproxy.Querier.Traces.{started, Reachable-receive_record, starts, passes, steps}
use mcproxy.Tests.{
  test_world, test_timer, excluded_source, test_group, test_querier, test_report,
  test_report-IsFresh, test_querier-IsValidDb,
}

-- The timer of address 7 runs out.
abbrev source_expiry : TimerMsg
source_expiry = test_timer source_timer_msg 11 9000

found : lookup 5 test_querier.db.group_info ≡ some test_group
unfolding lookup put
found = refl

timer_triggerd-Table_example :
    (q' : Querier) × (timer_triggerd false test_querier source_expiry ≡ some q')
    × (state_of q'.db 5 ≡ timer_row source_timer_msg source_expiry test_group)
    × ((k : ℕ) → k ≢ 5 → lookup k q'.db.group_info ≡ lookup k test_querier.db.group_info)
timer_triggerd-Table_example =
    timer_triggerd-Table test_querier source_expiry test_group test_querier-IsValidDb found refl
      refl tt

any-IsDue :
    (g : GaddrInfo) → lookup 5 test_querier.db.group_info ≡ some g → IsDue filter_timer_msg g
any-IsDue g e = tt

timer_triggerd-IsValidDb_example :
    (q' : Querier) × (timer_triggerd false test_querier (test_timer filter_timer_msg 10 8000)
      ≡ some q')
    × IsValidDb q'.db
timer_triggerd-IsValidDb_example =
    timer_triggerd-IsValidDb false test_querier (test_timer filter_timer_msg 10 8000)
      test_querier-IsValidDb refl any-IsDue

-- The second call is made at 4000.
abbrev test_clock : ℕ → ℕ
test_clock k = if k == 0 then 4000 else 3000

send_q_group_rounds_example :
    (ft t : TimerMsg) × (w' : World) × (calls test_clock 2 5 (resting test_group, test_world)
      ≡ some (running test_group ft t 0, w'))
    × (queries w'.actions ≡ 2 + queries test_world.actions)
    × (filter_timers w'.actions ≡ suc (filter_timers test_world.actions))
    × (ft.end_time ≡ test_clock 1 + get_last_listener_query_time test_world.timers_values)
    × ((now : ℕ)
        → send_q_group (at_clock now w') 5 (running test_group ft t 0)
          ≡ some (
            record (resting test_group) {
              shared_filter_timer = some ft;
              group_retransmission_count = minus_one;
            },
            at_clock now w',
          ))
send_q_group_rounds_example = send_q_group_rounds test_clock test_world 5 test_group 0 refl

mld_send_record-igmp_send_record_example :
    mld_send_record true include_mode 5 (excluded_source ∷ []) ≡ (
      if includes_some include_mode (excluded_source ∷ [])
      then ([], false)
      else igmp_send_record true include_mode 5 (excluded_source ∷ []))
mld_send_record-igmp_send_record_example =
    mld_send_record-igmp_send_record true include_mode 5 (excluded_source ∷ [])

abbrev later : Querier
later =
    let q = started test_world igmpv3 in
    record q { world = record (q.world) { now = 2000; next_id = 40 } }

Reachable-receive_record_example :
    IsValidDb later.db
    × ((q' : Querier) × (receive_record later test_report ≡ some q')
        × (state_of q'.db 5 ≡ expected later test_report))
Reachable-receive_record_example =
    Reachable-receive_record test_world igmpv3 later test_report
      (steps (started test_world igmpv3) later starts (passes (started test_world igmpv3) 2000 40))
      test_report-IsFresh
