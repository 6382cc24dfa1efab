-- ===== src/TimersValues.antt =====
-- mcproxy/include/proxy/timers_values.hpp and mcproxy/src/proxy/timers_values.cpp: the protocol's
-- values. Durations are in milliseconds unless the name says seconds.
use mcproxy.Base.{ℕ, ◌+◌, ◌*◌, ◌/◌}

pub record TimersValues : Type 0 where
  pub robustness_variable : ℕ
  pub query_interval_sec : ℕ
  pub query_response_interval : ℕ
  pub startup_query_interval_sec : ℕ
  pub startup_query_count : ℕ
  pub last_listener_query_interval : ℕ
  pub last_listener_query_count : ℕ
  pub unsolicited_report_interval : ℕ

-- `timers_values_tank` as it is built by default.
abbrev pub default_timers_values : TimersValues
default_timers_values = record {
  robustness_variable = 2;
  query_interval_sec = 125;
  query_response_interval = 10000;
  startup_query_interval_sec = 125 / 4;
  startup_query_count = 2;
  last_listener_query_interval = 1000;
  last_listener_query_count = 2;
  unsolicited_report_interval = 1000;
}

abbrev pub sec : ℕ → ℕ
sec n = 1000 * n

unfoldable pub get_multicast_address_listening_interval : TimersValues → ℕ
get_multicast_address_listening_interval tv =
    tv.robustness_variable * sec tv.query_interval_sec + tv.query_response_interval

unfoldable pub get_other_querier_present_interval : TimersValues → ℕ
get_other_querier_present_interval tv =
    tv.robustness_variable * sec tv.query_interval_sec + tv.query_response_interval / 2

unfoldable pub get_last_listener_query_time : TimersValues → ℕ
get_last_listener_query_time tv = tv.last_listener_query_interval * tv.last_listener_query_count

unfoldable pub get_older_host_present_interval : TimersValues → ℕ
get_older_host_present_interval tv =
    tv.robustness_variable * sec tv.query_interval_sec + tv.query_response_interval
