-- ===== src/MessageQueue.antt =====
-- mcproxy/include/proxy/message_queue.hpp, with the messages and the order that
-- mcproxy/include/proxy/message_format.hpp gives it: the queue of a worker, with locks left out.
pub mod Drain
use mcproxy.Base.{
  ℕ, ◌*◌, Bool, true, false, Option, none, some, List, [], ◌∷◌, ltb, leb, if◌then◌else◌, length,
}
use mcproxy.TimersValues.{TimersValues}
use mcproxy.World.{World}
use mcproxy.Querier.Records.{Querier}
use mcproxy.Querier.Invariant.{Timed}

-- `message_priority`: a lower number comes first.
pub record ProxyMsg : Type 0 where
  pub id : ℕ
  pub m_prio : ℕ

-- `m_q` is a `std::priority_queue`; its elements stand here in no order.
pub record MessageQueue : Type 0 where
  pub m_q : List ProxyMsg
  pub m_size : ℕ

-- Whether the message was taken, and the queue.
unfoldable pub enqueue_loseable : ProxyMsg → MessageQueue → Bool × MessageQueue
enqueue_loseable t q =
    if ltb (length q.m_q) q.m_size then (true, record q { m_q = t ∷ q.m_q }) else (false, q)

unfoldable pub enqueue : ProxyMsg → MessageQueue → MessageQueue
enqueue t q = record q { m_q = t ∷ q.m_q }

-- `top()` of the messages `a` and those of the list, and what `pop()` leaves. Among messages of one
-- priority the library may take any; here it is the first that stands there.
unfoldable pub select : ProxyMsg → List ProxyMsg → ProxyMsg × List ProxyMsg
select a [] = (a, [])
select a (b ∷ l) =
    let (m, r) = select (if leb a.m_prio b.m_prio then a else b) l in
    (m, (if leb a.m_prio b.m_prio then b else a) ∷ r)

-- `none`: the queue is empty, and the caller waits.
unfoldable pub dequeue : MessageQueue → Option (ProxyMsg × MessageQueue)
unfolding select
dequeue q = elim q.m_q [
  | [] ↦ none
  | a ∷ l ↦ let (m, r) = select a l in some (m, record q { m_q = r })
]
