-- ===== src/Querier/Traces.antt =====
-- The querier of mcproxy/src/proxy/querier.cpp as a state machine: the worker thread hands it one
-- message after another.
use mcproxy.Base.{ℕ, ◌≡◌, sym, subst, ◌∙◌, Bool, false, Option, some, arith, some-inj}
use mcproxy.MapOf.{lookup}
use mcproxy.Protocol.{GroupMemProtocol}
use mcproxy.Message.{TimerMsg, GroupRecord}
use mcproxy.Membership.{new_membership_db, GaddrInfo}
use mcproxy.World.{World}
use mcproxy.Querier.Records.{receive_record, Querier}
use mcproxy.Querier.Expiry.{send_general_query, timer_triggerd}
use mcproxy.Querier.Invariant.{IsFresh}
use mcproxy.Querier.Outcomes.{IsValidDb, state_of}
use mcproxy.Querier.Reports.{receive_record-IsValidDb, expected, receive_record-Table}
use mcproxy.Querier.Elapsed.{IsDue}
use mcproxy.Querier.TimerEvents.{timer_triggerd-IsValidDb}

-- A timer message that comes in order: it is not used as a source timer too, and a group's
-- retransmission timer finds the group in exclude mode.
pub record ComesInOrder (q : Querier) (msg : TimerMsg) : Type 0 where
  pub own_timer : msg.is_used_as_source_timer ≡ false
  pub due : (g : GaddrInfo) → lookup msg.gaddr q.db.group_info ≡ some g → IsDue msg.type g

pub data Step : Querier → Querier → Type 0 where
  reports :
      (q : Querier) (gr : GroupRecord) (q' : Querier)
      → IsFresh gr.slist
      → receive_record q gr ≡ some q'
      → Step q q'
  expires :
      (q : Querier) (unique : Bool) (msg : TimerMsg) (q' : Querier)
      → ComesInOrder q msg
      → timer_triggerd unique q msg ≡ some q'
      → Step q q'
  -- Time passes, and other parts of the program take numbers of timer messages.
  passes :
      (q : Querier) (time id : ℕ)
      → Step q (record q { world = record (q.world) { now = time; next_id = id } })

-- A querier as its constructor leaves it: the empty database, and the first general query.
abbrev pub started : World → GroupMemProtocol → Querier
started w mode = send_general_query (record { world = w; db = new_membership_db mode })

pub data Reachable (w : World) (mode : GroupMemProtocol) : Querier → Type 0 where
  starts : Reachable w mode (started w mode)
  steps : (q q' : Querier) → Reachable w mode q → Step q q' → Reachable w mode q'

started-IsValidDb : (w : World) (mode : GroupMemProtocol) → IsValidDb (started w mode).db
unfolding send_general_query new_membership_db lookup
started-IsValidDb w mode k g e = absurd (ground (arith, e))

returned-IsValidDb :
    (q q' : Querier) (o : Option Querier)
    → o ≡ some q'
    → (r : Querier) × (o ≡ some r) × IsValidDb r.db
    → IsValidDb q'.db
returned-IsValidDb q q' o e (r, f, v) = subst (λ z. IsValidDb (z.db)) (some-inj (sym f ∙ e)) v

Step-IsValidDb : (q q' : Querier) → Step q q' → IsValidDb q.db → IsValidDb q'.db
unfolding send_general_query
Step-IsValidDb _ _ (reports q gr q' f e) v =
    returned-IsValidDb q q' (receive_record q gr) e (receive_record-IsValidDb q gr v f)
Step-IsValidDb _ _ (expires q unique msg q' c e) v =
    returned-IsValidDb q q' (timer_triggerd unique q msg) e
      (timer_triggerd-IsValidDb unique q msg v c.own_timer c.due)
Step-IsValidDb _ _ (passes q time id) v = v

Reachable-IsValidDb :
    (w : World) (mode : GroupMemProtocol) (q : Querier) → Reachable w mode q → IsValidDb q.db
Reachable-IsValidDb w mode _ starts = started-IsValidDb w mode
Reachable-IsValidDb w mode _ (steps p q r s) = Step-IsValidDb p q s (Reachable-IsValidDb w mode p r)

-- In every state that a querier reaches from its start by reports, timers that come in order
-- and the passing of time, every entry of the database is valid, and the next report
-- is answered without reading a null pointer and leaves its group in the router state that the
-- tables of the RFCs ask for. Reports bring sets of sources without timers.
pub Reachable-receive_record :
    (w : World) (mode : GroupMemProtocol) (q : Querier) (gr : GroupRecord)
    → Reachable w mode q
    → IsFresh gr.slist
    → IsValidDb q.db
      × ((q' : Querier) × (receive_record q gr ≡ some q')
          × (state_of q'.db gr.gaddr ≡ expected q gr))
Reachable-receive_record w mode q gr r f =
    let v = Reachable-IsValidDb w mode q r in
    let (q', e, t, o) = receive_record-Table q gr v f in (v, (q', e, t))
