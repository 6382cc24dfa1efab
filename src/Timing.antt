-- ===== src/Timing.antt =====
-- mcproxy/include/proxy/timing.hpp and mcproxy/src/proxy/timing.cpp: the reminders, with the thread
-- that waits for the first of them left out.
pub mod Due
use mcproxy.Base.{ℕ, ◌+◌, ◌*◌, List, [], ◌∷◌, leb, ◌==◌, if◌then◌else◌}
use mcproxy.SourceList.{insert}
use mcproxy.TimersValues.{TimersValues}
use mcproxy.Message.{TimerMsg}
use mcproxy.World.{World}
use mcproxy.Querier.Records.{Querier}
use mcproxy.Querier.Invariant.{Timed}

-- A pair of `timing_db`. The worker is the number of a pointer, 0 for null.
pub record Reminder : Type 0 where
  pub until : ℕ
  pub msg_worker : ℕ
  pub msg : TimerMsg

-- `timing_db` is a `std::map` by the time.
abbrev pub TimingDb : Type 0
TimingDb = List Reminder

abbrev pub time_of : Reminder → ℕ
time_of r = r.until

-- `m_db.insert` leaves a reminder that has the same time where it is, and drops the new one.
unfoldable pub add_time : ℕ → ℕ → ℕ → TimerMsg → TimingDb → TimingDb
add_time now delay msg_worker msg db =
    insert time_of (record { until = now + delay; msg_worker = msg_worker; msg = msg }) db

-- One round of `worker_thread` after the wait: the reminders that are handed to their workers, in
-- order, and those that stay.
unfoldable pub run_due : ℕ → TimingDb → List Reminder × TimingDb
run_due now [] = ([], [])
run_due now (r ∷ db) =
    let (delivered, rest) = run_due now db in
    let first = if r.msg_worker == 0 then delivered else r ∷ delivered in
    if leb r.until now then (first, rest) else ([], r ∷ db)

unfoldable pub stop_all_time : ℕ → TimingDb → TimingDb
stop_all_time msg_worker [] = []
stop_all_time msg_worker (r ∷ db) =
    let rest = stop_all_time msg_worker db in if r.msg_worker == msg_worker then rest else r ∷ rest
