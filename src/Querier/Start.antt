-- ===== src/Querier/Start.antt =====
-- mcproxy/src/proxy/querier.cpp: the constructor and the destructor. `joins` is what the sender answers
-- for the record of a group: whether the socket took it.
use mcproxy.Base.{
  ℕ, ◌+◌, ◌*◌, ◌^◌, ◌≡◌, refl, Bool, true, false, ◌&&◌, ◌||◌, Option, none, some, List, [], ◌∷◌,
  arith, if◌then◌else◌, if-holds,
}
use mcproxy.Protocol.{is_ipv4, is_ipv6, McFilter, GroupMemProtocol, include_mode, exclude_mode}
use mcproxy.Membership.{new_membership_db}
use mcproxy.World.{emit, make_timer, start_timer, World, send_record}
use mcproxy.Querier.Records.{Querier}
use mcproxy.Querier.Expiry.{send_general_query}
use mcproxy.Buffer.{Holds}

-- The groups of `router_groups_function`: 224.0.0.2 and 224.0.0.22, or ff01::2, ff05::2 and ff02::16.
unfoldable pub router_groups : GroupMemProtocol → List ℕ
router_groups gmp =
    if is_ipv4 gmp
    then 0xe0000002 ∷ 0xe0000016 ∷ []
    else if is_ipv6 gmp
    then (0xff01 * 2 ^ 112 + 2) ∷ (0xff05 * 2 ^ 112 + 2) ∷ (0xff02 * 2 ^ 112 + 0x16) ∷ []
    else []

-- The records one after another, up to the first that is not sent.
unfoldable pub send_records : (ℕ → Bool) → McFilter → List ℕ → World → Bool × World
send_records joins mf [] w = (true, w)
send_records joins mf (g ∷ l) w =
    let w' = emit w (send_record mf g) in
    let rest = send_records joins mf l w' in if joins g then rest else (false, w')

-- `false` also for a version that is of no family.
unfoldable pub router_groups_function : (ℕ → Bool) → Bool → Querier → Bool × World
router_groups_function joins subscribe q =
    let mf = if subscribe then exclude_mode else include_mode in
    let gmp = q.db.querier_version_mode in
    let sent = send_records joins mf (router_groups gmp) q.world in
    ((is_ipv4 gmp || is_ipv6 gmp) && sent.0, sent.1)

-- `querier::querier`; `none`: it throws.
unfoldable pub new_querier : (ℕ → Bool) → World → GroupMemProtocol → Option Querier
new_querier joins w gmp =
    let q : Querier = record { world = w; db = new_membership_db gmp } in
    let (subscribed, w') = router_groups_function joins true q in
    if subscribed then some (send_general_query (record q { world = w' })) else none

-- `querier::~querier`: what it leaves.
unfoldable pub end_querier : (ℕ → Bool) → Querier → World
end_querier joins q = (router_groups_function joins false q).1

send_records-if_index :
    (joins : ℕ → Bool) (mf : McFilter) (l : List ℕ) (w : World)
    → (send_records joins mf l w).1.if_index ≡ w.if_index
unfolding send_records emit
send_records-if_index joins mf [] w = refl
send_records-if_index joins mf (g ∷ l) w =
    ground (arith, send_records-if_index joins mf l (emit w (send_record mf g)))

-- A new querier knows the index of its interface.
pub new_querier-if_index :
    (joins : ℕ → Bool) (w : World) (gmp : GroupMemProtocol)
    → Holds (λ q. q.world.if_index ≡ w.if_index) (new_querier joins w gmp)
unfolding new_querier router_groups_function send_general_query start_timer make_timer emit
    new_membership_db
new_querier-if_index joins w gmp =
    let q : Querier = record { world = w; db = new_membership_db gmp } in
    let sent = router_groups_function joins true q in
    if-holds (Holds (λ (k : Querier). k.world.if_index ≡ w.if_index)) sent.0
      (some (send_general_query (record q { world = sent.1 }))) none
      (send_records-if_index joins exclude_mode (router_groups gmp) w) tt
