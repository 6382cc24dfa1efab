-- ===== src/Tests/WorkerRuns.antt =====
-- A worker of an instance: mcproxy/src/proxy/proxy_instance.cpp.
use mcproxy.Base.{true, [], ◌∷◌}
use mcproxy.Receiver.{group_record_msg}
use mcproxy.Worker.{WorkerState, group_record_msg}
use mcproxy.Tests.{test_querier}
use mcproxy.Tests.InstanceRuns.{open_interface, new_instance, test_state}

-- An instance that listens on interface 3, whose querier is in exclude mode.
abbrev test_worker : WorkerState
test_worker = record {
  proxy = record new_instance { downstreams = (3, (open_interface 3, test_querier)) ∷ [] };
  routing = test_state;
  m_running = true;
}
