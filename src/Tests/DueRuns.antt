-- ===== src/Tests/DueRuns.antt =====
-- The theorems on the reminders of mcproxy/src/proxy/timing.cpp at two reminders.
use mcproxy.Base.{
  ℕ, ◌+◌, ◌≡◌, refl, Bool, ◌&&◌, none, some, [], ◌∷◌, arith, leb, if◌then◌else◌, is_some,
}
use mcproxy.SourceList.{find?, IsSorted}
use mcproxy.Message.{source_timer_msg}
use mcproxy.Timing.{TimingDb, time_of, add_time, run_due, Reminder}
use mcproxy.Timing.Due.{has_worker, run_due_lem, add_time-delivered}
use mcproxy.MessageQueue.{ProxyMsg, MessageQueue}
use mcproxy.MessageQueue.Drain.{drain, InOrder, count, drain_lem}
use mcproxy.Tests.{test_timer}

abbrev reminder : ℕ → ℕ → Reminder
reminder until id = record {
  until = until;
  msg_worker = 1;
  msg = test_timer source_timer_msg id until;
}

abbrev test_db : TimingDb
test_db = reminder 500 1 ∷ reminder 900 2 ∷ []

test_db-IsSorted : IsSorted time_of test_db
test_db-IsSorted = (omega arith, (omega arith, tt))

run_due_lem_example :
    (find? time_of 500 (run_due 600 test_db).0 ≡ (
      if leb 500 600 && has_worker (find? time_of 500 test_db)
      then find? time_of 500 test_db
      else none))
    × (find? time_of 500 (run_due 600 test_db).1
        ≡ (if leb 500 600 then none else find? time_of 500 test_db))
run_due_lem_example = run_due_lem 600 test_db test_db-IsSorted 500

add_time-delivered_example :
    find? time_of
      (300 + 400)
      (run_due 800 (add_time 300 400 1 (test_timer source_timer_msg 3 700) test_db)).0
    ≡ (if is_some (find? time_of (300 + 400) test_db)
        then (if has_worker (find? time_of (300 + 400) test_db)
            then find? time_of (300 + 400) test_db
            else none)
        else some
            (record { until = 300 + 400; msg_worker = 1; msg = test_timer source_timer_msg 3 700 }))
add_time-delivered_example =
    add_time-delivered 300 400 1 800 (test_timer source_timer_msg 3 700) test_db test_db-IsSorted
      refl (omega arith)

abbrev message : ℕ → ℕ → ProxyMsg
message id prio = record { id = id; m_prio = prio }

-- A report that may be lost, the user's input, and a timer.
abbrev test_queue : MessageQueue
test_queue = record { m_q = message 1 100 ∷ message 2 1 ∷ message 3 10 ∷ []; m_size = 3 }

drain_lem_example :
    InOrder 0 (drain 3 test_queue)
    × ((p : ProxyMsg → Bool) → count p (drain 3 test_queue) ≡ count p test_queue.m_q)
drain_lem_example = drain_lem test_queue
