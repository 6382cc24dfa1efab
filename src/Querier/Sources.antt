-- ===== src/Querier/Sources.antt =====
-- What the actions of mcproxy/src/proxy/querier.cpp and the senders do to one source of a list.
use mathlib.Core.Option
use mcproxy.Base.{
  ℕ, suc, ◌≡◌, refl, ap, inl, inr, Option, none, some, List, [], ◌∷◌, map, arith, ◌==◌,
  if◌then◌else◌, Bool-cases, is_positive, dec,
}
use mcproxy.SourceList.{find?, contains, update, Ascending}
use mcproxy.SourceList.Laws.{find?-update, update-Ascending}
use mcproxy.TimersValues.{TimersValues}
use mcproxy.Message.{key, TimerMsg, Source}
use mcproxy.Sender.{query_source, split_sources, QuerySplit}
use mcproxy.Querier.Actions.{refresh, copy_timers, arm, arm_sources}

pub find?-map-refresh :
    (j : ℕ) (t : Option TimerMsg) (l : List Source)
    → find? key j (map (refresh t) l) ≡ Option.map (refresh t) (find? key j l)
unfolding find?
find?-map-refresh j t [] = refl
find?-map-refresh j t (s ∷ l) = ground (arith, find?-map-refresh j t l)

pub map-refresh-Ascending :
    (b : ℕ) (t : Option TimerMsg) (l : List Source)
    → Ascending key b l
    → Ascending key b (map (refresh t) l)
map-refresh-Ascending b t [] h = tt
map-refresh-Ascending b t (s ∷ l) h = (h.0, map-refresh-Ascending (suc s.saddr) t l h.1)

-- The timer is copied to the sources that the list names.
pub find?-copy_timers :
    (j : ℕ) (t : Option TimerMsg) (tmp l : List Source)
    → find? key j (copy_timers (map (refresh t) tmp) l)
      ≡ (if contains key j tmp then Option.map (refresh t) (find? key j l) else find? key j l)
unfolding copy_timers find? contains
find?-copy_timers j t [] l = refl
find?-copy_timers j t (e ∷ tmp) l = ground (
  arith,
  find?-copy_timers j t tmp (update key e.saddr (refresh t) l),
  find?-update key j e.saddr (refresh t) l (λ x. refl),
)

pub copy_timers-Ascending :
    (b : ℕ) (tmp l : List Source) → Ascending key b l → Ascending key b (copy_timers tmp l)
unfolding copy_timers
copy_timers-Ascending b [] l h = h
copy_timers-Ascending b (e ∷ tmp) l h =
    copy_timers-Ascending b tmp _
      (update-Ascending key b e.saddr (refresh e.shared_source_timer) l (λ x. refl) h)

key-arm : (st : TimerMsg) (n : ℕ) (s : Source) → key (arm st n s) ≡ key s
key-arm st n s = ground arith

arm_twice : (st : TimerMsg) (n : ℕ) (s : Source) → arm st n (arm st n s) ≡ arm st n s
arm_twice st n s = ground arith

map-arm_twice :
    (st : TimerMsg) (n : ℕ) (o : Option Source)
    → Option.map (arm st n) (Option.map (arm st n) o) ≡ Option.map (arm st n) o
map-arm_twice st n none = refl
map-arm_twice st n (some s) = ap some (arm_twice st n s)

pub find?-arm_sources :
    (j : ℕ) (st : TimerMsg) (n : ℕ) (tmp l : List Source)
    → find? key j (arm_sources st n tmp l).0
      ≡ (if contains key j tmp then Option.map (arm st n) (find? key j l) else find? key j l)
unfolding arm_sources find? contains
find?-arm_sources j st n [] l = refl
find?-arm_sources j st n (e ∷ tmp) l = elim (Bool-cases (e.saddr == j)) [
  | inl hit ↦
      rw (find?-arm_sources j st n tmp, find?-update key j e.saddr (arm st n) l (key-arm st n), hit)
        (ground (arith, map-arm_twice st n (find? key j l)))
  | inr miss ↦
      rw
        (find?-arm_sources j st n tmp, find?-update key j e.saddr (arm st n) l (key-arm st n), miss)
        refl
]

pub arm_sources-Ascending :
    (b : ℕ) (st : TimerMsg) (n : ℕ) (tmp l : List Source)
    → Ascending key b l
    → Ascending key b (arm_sources st n tmp l).0
unfolding arm_sources
arm_sources-Ascending b st n [] l h = h
arm_sources-Ascending b st n (e ∷ tmp) l h =
    arm_sources-Ascending b st n tmp _
      (update-Ascending key b e.saddr (arm st n) l (key-arm st n) h)

-- A positive counter falls by one; another source is left alone.
abbrev pub count_down : Source → Source
count_down s =
    if is_positive s.retransmission_count
    then record s { retransmission_count = dec s.retransmission_count }
    else s

slist-query_source :
    (tv : TimersValues) (now : ℕ) (s : Source) (q : QuerySplit)
    → (query_source tv now s q).slist
      ≡ record s { retransmission_count = dec s.retransmission_count } ∷ q.slist
unfolding query_source
slist-query_source tv now s q = ground arith

pub slist-split_sources :
    (tv : TimersValues) (now : ℕ) (l : List Source)
    → (split_sources tv now l).slist ≡ map count_down l
unfolding split_sources
slist-split_sources tv now [] = refl
slist-split_sources tv now (s ∷ l) =
    ground
      (arith, slist-query_source tv now s (split_sources tv now l), slist-split_sources tv now l)

pub find?-map-count_down :
    (j : ℕ) (l : List Source)
    → find? key j (map count_down l) ≡ Option.map count_down (find? key j l)
unfolding find?
find?-map-count_down j [] = refl
find?-map-count_down j (s ∷ l) = ground (arith, find?-map-count_down j l)

pub map-count_down-Ascending :
    (b : ℕ) (l : List Source) → Ascending key b l → Ascending key b (map count_down l)
map-count_down-Ascending b [] h = tt
map-count_down-Ascending b (s ∷ l) h = ground (arith, map-count_down-Ascending (suc s.saddr) l h.1)
