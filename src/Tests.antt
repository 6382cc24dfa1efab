-- ===== src/Tests.antt =====
-- Concrete inputs: a downstream interface with one group in exclude mode, as
-- mcproxy/src/proxy/querier.cpp builds it, and what the theorems say of it.
mod TimerRuns
mod RoutingRuns
mod TableRuns
mod DueRuns
mod AddrRuns
mod ConfigRuns
mod ForwardRuns
mod ReceiverRuns
mod InstanceRuns
mod WorkerRuns
use mcproxy.Base.{
  ℕ, ◌*◌, ◌≡◌, refl, ◌≢◌, inl, inr, Bool, true, false, none, some, [], ◌∷◌, arith, ◌==◌, Bool-cases,
  minus_one, pos,
}
use mcproxy.SourceList.{find?, contains}
use mcproxy.MapOf.{lookup}
use mcproxy.Protocol.{McFilter, include_mode, exclude_mode, igmpv3, change_to_include_mode}
use mcproxy.TimersValues.{default_timers_values, TimersValues}
use mcproxy.Message.{TimerType, TimerMsg, Source, GroupRecord, filter_timer_msg, source_timer_msg}
use mcproxy.Membership.{GaddrInfo}
use mcproxy.World.{World}
use mcproxy.Querier.Records.{store, receive_record, Querier}
use mcproxy.Querier.Table.{view}
use mcproxy.Querier.Invariant.{Timed, Untimed, IsValid, IsFresh}
use mcproxy.Querier.Outcomes.{IsValidDb, state_of, store-Outcome}
use mcproxy.Querier.Reports.{
  Outcome-IsValidDb, receive_record-IsValidDb, expected, receive_record-Table,
}
use mcproxy.MessageQueue.{MessageQueue}
use mcproxy.Text.{Text}
use mcproxy.Addr.{Addr}
use mcproxy.Rules.{Table}
use mcproxy.Interface.{Interface}
use mcproxy.Ending.{Ending}
use mcproxy.Token.{Token}
use mcproxy.Parser.{Parser}
use mcproxy.Configuration.{Configuration}
use mcproxy.Receiver.{Receiver}
use mcproxy.Receiver.Registered.{Received}
use mcproxy.VirtualInterfaces.{Interfaces}
use mcproxy.ProxyInstance.{ProxyInstance}

abbrev pub test_world : World
test_world = record {
  if_index = 3;
  timers_values = default_timers_values;
  now = 1000;
  next_id = 20;
  actions = [];
}

abbrev pub test_timer : TimerType → ℕ → ℕ → TimerMsg
test_timer type id end_time = record {
  id = id;
  type = type;
  if_index = 3;
  gaddr = 5;
  end_time = end_time;
  is_used_as_source_timer = false;
}

abbrev pub requested_source : Source
requested_source = record {
  saddr = 7;
  shared_source_timer = some (test_timer source_timer_msg 11 9000);
  retransmission_count = minus_one;
}

abbrev pub excluded_source : Source
excluded_source = record { saddr = 9; shared_source_timer = none; retransmission_count = minus_one }

abbrev pub test_group : GaddrInfo
test_group = record {
  filter_mode = exclude_mode;
  shared_filter_timer = some (test_timer filter_timer_msg 10 8000);
  compatibility_mode_variable = igmpv3;
  older_host_present_timer = none;
  group_retransmission_timer = none;
  group_retransmission_count = minus_one;
  source_retransmission_timer = none;
  include_requested_list = requested_source ∷ [];
  exclude_list = excluded_source ∷ [];
}

abbrev pub empty_querier : Querier
empty_querier = record {
  world = test_world;
  db = record {
    general_query_timer = none;
    startup_query_count = pos 0;
    querier_version_mode = igmpv3;
    is_querier = true;
    group_info = [];
  };
}

abbrev pub test_querier : Querier
test_querier = store empty_querier 5 (test_group, test_world)

abbrev pub fresh_source : ℕ → Source
fresh_source a = record { saddr = a; shared_source_timer = none; retransmission_count = minus_one }

-- The filter mode exclude.
abbrev pub of_exclude : McFilter → Bool
of_exclude include_mode = false
of_exclude exclude_mode = true

-- Address 7 leaves for 9 and 12.
abbrev pub test_report : GroupRecord
test_report = record {
  record_type = change_to_include_mode;
  gaddr = 5;
  slist = fresh_source 9 ∷ fresh_source 12 ∷ [];
  grp_mem_proto = igmpv3;
}

requested-Timed : Timed (requested_source ∷ [])
unfolding find?
requested-Timed j = elim (Bool-cases (7 == j)) [ inl e ↦ rw e refl | inr e ↦ rw e tt ]

excluded-Untimed : Untimed (excluded_source ∷ [])
unfolding find?
excluded-Untimed j = elim (Bool-cases (9 == j)) [ inl e ↦ rw e refl | inr e ↦ rw e tt ]

pub test_group-IsValid : IsValid test_group
unfolding contains find?
test_group-IsValid = record {
  sets = record {
    include_sorted = (omega arith, tt);
    exclude_sorted = (omega arith, tt);
    disjoint = λ j e. ground (arith, e);
    untimed = excluded-Untimed;
  };
  timed = requested-Timed;
  filter_timed = λ e. refl;
  none_excluded = λ e. absurd (ground (arith, e));
}

pub test_report-IsFresh : IsFresh test_report.slist
unfolding find?
test_report-IsFresh = record {
  sorted = (omega arith, (omega arith, tt));
  untouched = λ j. elim (Bool-cases (9 == j)) [
    | inl e ↦ rw e (refl, refl)
    | inr e ↦ rw e elim (Bool-cases (12 == j)) [ inl f ↦ rw f (refl, refl) | inr f ↦ rw f tt ]
  ];
}

empty_querier-IsValidDb : IsValidDb empty_querier.db
unfolding lookup
empty_querier-IsValidDb k g e = absurd (ground (arith, e))

pub test_querier-IsValidDb : IsValidDb test_querier.db
test_querier-IsValidDb =
    Outcome-IsValidDb empty_querier test_querier 5 (view test_group) empty_querier-IsValidDb
      (store-Outcome empty_querier 5 test_group test_world test_group-IsValid)

receive_record-IsValidDb_example :
    (q' : Querier) × (receive_record test_querier test_report ≡ some q') × IsValidDb q'.db
receive_record-IsValidDb_example =
    receive_record-IsValidDb test_querier test_report test_querier-IsValidDb test_report-IsFresh

receive_record-Table_example :
    (q' : Querier) × (receive_record test_querier test_report ≡ some q')
    × (state_of q'.db 5 ≡ expected test_querier test_report)
    × ((k : ℕ) → k ≢ 5 → lookup k q'.db.group_info ≡ lookup k test_querier.db.group_info)
receive_record-Table_example =
    receive_record-Table test_querier test_report test_querier-IsValidDb test_report-IsFresh
