-- ===== src/Membership.antt =====
-- mcproxy/include/proxy/membership_db.hpp and mcproxy/src/proxy/membership_db.cpp: the membership
-- database of one downstream interface.
use mcproxy.Base.{ℕ, Bool, true, not, Option, none, List, [], is_some, minus_one, ℤ, pos}
use mcproxy.Protocol.{is_newest_version, McFilter, GroupMemProtocol, include_mode}
use mcproxy.Message.{TimerMsg, Source}

pub record GaddrInfo : Type 0 where
  pub filter_mode : McFilter
  pub shared_filter_timer : Option TimerMsg
  pub compatibility_mode_variable : GroupMemProtocol
  pub older_host_present_timer : Option TimerMsg
  pub group_retransmission_timer : Option TimerMsg
  pub group_retransmission_count : ℤ
  pub source_retransmission_timer : Option TimerMsg
  pub include_requested_list : List Source
  pub exclude_list : List Source

unfoldable pub new_gaddr_info : GroupMemProtocol → GaddrInfo
new_gaddr_info compatibility_mode_variable = record {
  filter_mode = include_mode;
  shared_filter_timer = none;
  compatibility_mode_variable = compatibility_mode_variable;
  older_host_present_timer = none;
  group_retransmission_timer = none;
  group_retransmission_count = minus_one;
  source_retransmission_timer = none;
  include_requested_list = [];
  exclude_list = [];
}

unfoldable pub is_in_backward_compatibility_mode : GaddrInfo → Bool
unfolding is_newest_version
is_in_backward_compatibility_mode g = not (is_newest_version g.compatibility_mode_variable)

unfoldable pub is_under_backward_compatibility_effects : GaddrInfo → Bool
is_under_backward_compatibility_effects g = is_some g.older_host_present_timer

pub record MembershipDb : Type 0 where
  pub general_query_timer : Option TimerMsg
  pub startup_query_count : ℤ
  pub querier_version_mode : GroupMemProtocol
  pub is_querier : Bool
  pub group_info : List (ℕ × GaddrInfo)

unfoldable pub new_membership_db : GroupMemProtocol → MembershipDb
new_membership_db mode = record {
  general_query_timer = none;
  startup_query_count = pos 0;
  querier_version_mode = mode;
  is_querier = true;
  group_info = [];
}
