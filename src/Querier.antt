-- ===== src/Querier.antt =====
-- mcproxy/include/proxy/querier.hpp and mcproxy/src/proxy/querier.cpp: the querier of one downstream
-- interface. `Actions` has the table actions, `Records` the group records, `Expiry` the timers,
-- `Forward` what the routing asks; the other children are about these.
pub mod Actions
pub mod Records
pub mod Expiry
pub mod Forward
pub mod Start
pub mod Sources
pub mod Effects
pub mod Table
pub mod Invariant
pub mod Views
pub mod Timed
pub mod Lists
pub mod IncludeTable
pub mod IncludeValid
pub mod ExcludeTable
pub mod ExcludeValid
pub mod Outcomes
pub mod Received
pub mod Reports
pub mod Expired
pub mod Rows
pub mod Timers
pub mod Elapsed
pub mod TimerEvents
pub mod Retransmission
pub mod Traces
pub mod Agreement
