-- ===== src/Tests/TableRuns.antt =====
-- The theorems on the table of sources and on the codes of durations at concrete inputs.
use mcproxy.Base.{◌-◌, ◌*◌, ◌≤◌, ◌≡◌, some, [], arith}
use mcproxy.MapOf.{lookup}
use mcproxy.RoutingData.{
  RoutingTable, Stats, set_source, del_source, refresh_source_or_del_it_if_unused,
}
use mcproxy.RoutingData.Store.{IsTable, operations-IsTable}
use mcproxy.RoutingData.Interfaces.{Refreshed, refresh-Refreshed}
use mcproxy.ResponseCode.{qqic_to_qqi, qqi_to_qqic}
use mcproxy.ResponseCode.RoundTrip.{qqi_to_qqic-qqic_to_qqi, qqi_to_qqic_close}
use mcproxy.Tests.{fresh_source}

-- Two sources of group 5, on the interfaces 1 and 2; the kernel counted 3 packets of each.
abbrev test_stats : Stats
test_stats gaddr saddr = some 3

abbrev test_table : RoutingTable
test_table =
    set_source test_stats 2 5 (fresh_source 12) (set_source test_stats 1 5 (fresh_source 9) [])

empty-IsTable : IsTable []
unfolding lookup
empty-IsTable k e p = absurd (ground (arith, p))

test_table-IsTable : IsTable test_table
test_table-IsTable =
    let one_source = (operations-IsTable test_stats 1 5 9 (fresh_source 9) [] empty-IsTable).0 in
    (operations-IsTable test_stats 2 5 9 (fresh_source 12)
      (set_source test_stats 1 5 (fresh_source 9) []) one_source).0

operations-IsTable_example :
    IsTable (set_source test_stats 1 5 (fresh_source 9) test_table)
    × IsTable (del_source 5 9 test_table)
    × IsTable (refresh_source_or_del_it_if_unused test_stats 5 9 test_table).1
operations-IsTable_example =
    operations-IsTable test_stats 1 5 9 (fresh_source 9) test_table test_table-IsTable

refresh-Refreshed_example :
    Refreshed test_stats 5 9 test_table
      (refresh_source_or_del_it_if_unused test_stats 5 9 test_table)
refresh-Refreshed_example = refresh-Refreshed test_stats 5 9 test_table test_table-IsTable

qqi_to_qqic-qqic_to_qqi_example : qqi_to_qqic (qqic_to_qqi 0x9A) ≡ 0x9A
qqi_to_qqic-qqic_to_qqi_example = qqi_to_qqic-qqic_to_qqi 0x9A (omega arith)

qqi_to_qqic_close_example :
    (qqic_to_qqi (qqi_to_qqic 1000) ≤ 1000) × (16 * (1000 - qqic_to_qqi (qqi_to_qqic 1000)) ≤ 1000)
qqi_to_qqic_close_example = qqi_to_qqic_close 1000 (omega arith)
