-- ===== src/Timing/Due.antt =====
-- Which reminders of mcproxy/src/proxy/timing.cpp are delivered, and when.
use mcproxy.Base.{
  ℕ, suc, ◌+◌, ◌≤◌, ◌≡◌, Bool, false, not, ◌&&◌, Option, none, some, [], ◌∷◌, arith, leb, ◌==◌,
  if◌then◌else◌, is_some,
}
use mcproxy.SourceList.{insert, find?, Ascending, IsSorted}
use mcproxy.SourceList.Laws.{find?_below, insert-Ascending, find?-insert}
use mcproxy.Message.{TimerMsg}
use mcproxy.Timing.{TimingDb, time_of, add_time, run_due, Reminder}

abbrev pub has_worker : Option Reminder → Bool
has_worker none = false
has_worker (some r) = not (r.msg_worker == 0)

run_due_stays :
    (now j b : ℕ) (db : TimingDb)
    → Ascending time_of b db
    → find? time_of j (run_due now db).1 ≡ (if leb j now then none else find? time_of j db)
unfolding run_due find?
run_due_stays now j b [] s = ground arith
run_due_stays now j b (r ∷ db) s =
    ground (arith, run_due_stays now j (suc r.until) db s.1, find?_below time_of j (suc r.until) db)

run_due_delivers :
    (now j b : ℕ) (db : TimingDb)
    → Ascending time_of b db
    → find? time_of j (run_due now db).0
      ≡ (if leb j now && has_worker (find? time_of j db) then find? time_of j db else none)
unfolding run_due find?
run_due_delivers now j b [] s = ground arith
run_due_delivers now j b (r ∷ db) s =
    ground
      (arith, run_due_delivers now j (suc r.until) db s.1, find?_below time_of j (suc r.until) db)

-- A round of the timer thread on reminders in the order of their times hands over exactly those that
-- are due and have a worker, and keeps exactly those that are not due.
pub run_due_lem :
    (now : ℕ) (db : TimingDb)
    → IsSorted time_of db
    → (j : ℕ)
    → (find? time_of j (run_due now db).0
        ≡ (if leb j now && has_worker (find? time_of j db) then find? time_of j db else none))
      × (find? time_of j (run_due now db).1 ≡ (if leb j now then none else find? time_of j db))
run_due_lem now db s j = (run_due_delivers now j 0 db s, run_due_stays now j 0 db s)

-- A reminder for a worker that is added and followed by a round at or after its time is delivered in
-- that round if no reminder had the same time when it was added; if one had, the new one is lost, and
-- the old one is delivered if it has a worker. The reminders are in the order of their times.
pub add_time-delivered :
    (start delay msg_worker now : ℕ) (msg : TimerMsg) (db : TimingDb)
    → IsSorted time_of db
    → (msg_worker == 0) ≡ false
    → start + delay ≤ now
    → let new : Reminder = record { until = start + delay; msg_worker = msg_worker; msg = msg } in
      find? time_of (start + delay) (run_due now (add_time start delay msg_worker msg db)).0 ≡ (
        if is_some (find? time_of (start + delay) db)
        then (if has_worker (find? time_of (start + delay) db)
            then find? time_of (start + delay) db
            else none)
        else some new)
unfolding add_time
add_time-delivered start delay k now msg db s h l =
    let new : Reminder = record { until = start + delay; msg_worker = k; msg = msg } in
    ground (
      arith,
      run_due_delivers now (start + delay) 0 (insert time_of new db)
          (insert-Ascending time_of 0 new db (omega arith) s),
      find?-insert time_of (start + delay) 0 new db s,
      h,
      l,
    )
