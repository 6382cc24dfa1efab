-- ===== src/Querier/Expired.antt =====
-- The two loops of `timer_triggerd_source_timer` in mcproxy/src/proxy/querier.cpp on one source.
use mcproxy.Base.{
  ℕ, suc, ◌≡◌, refl, sym, subst, inl, inr, Bool, false, Option, none, some, List, [], ◌∷◌, arith,
  ◌==◌, if◌then◌else◌, Bool-cases, or_else,
}
use mcproxy.SourceList.{insert, find?, contains, Ascending, IsSorted}
use mcproxy.SourceList.Laws.{Ascending-mono, find?_below, insert-Ascending, find?-insert}
use mcproxy.Message.{points_to, key, TimerMsg, Source}
use mcproxy.Querier.Expiry.{drop_expired, exclude_expired}
use mcproxy.Querier.Table.{AddrSet, ◌⊔◌, ◌∖◌, members}
use mcproxy.Querier.Invariant.{HasTimer, HasNoTimer, Timed, Untimed}

-- Whether the source's timer is `msg`.
abbrev pub has_expired : TimerMsg → Option Source → Bool
has_expired msg none = false
has_expired msg (some s) = points_to s.shared_source_timer msg

-- The sources of a list whose timer is `msg`.
abbrev pub expired : TimerMsg → List Source → AddrSet
expired msg l j = has_expired msg (find? key j l)

abbrev unless_expired : TimerMsg → Option Source → Option Source
unless_expired msg o = if has_expired msg o then none else o

pub find?-drop_expired :
    (j b : ℕ) (msg : TimerMsg) (l : List Source)
    → Ascending key b l
    → find? key j (drop_expired msg l) ≡ unless_expired msg (find? key j l)
unfolding drop_expired find?
find?-drop_expired j b msg [] h = refl
find?-drop_expired j b msg (s ∷ l) h =
    ground (arith, find?-drop_expired j (suc s.saddr) msg l h.1, find?_below key j (suc s.saddr) l)

drop_expired-Ascending :
    (b : ℕ) (msg : TimerMsg) (l : List Source)
    → Ascending key b l
    → Ascending key b (drop_expired msg l)
unfolding drop_expired
drop_expired-Ascending b msg [] h = tt
drop_expired-Ascending b msg (s ∷ l) h =
    let rest = drop_expired-Ascending (suc s.saddr) msg l h.1 in
    elim (Bool-cases (points_to s.shared_source_timer msg)) [
      | inl e ↦ rw e (Ascending-mono key (drop_expired msg l) (omega (arith, h.0)) rest)
      | inr e ↦ rw e (h.0, rest)
    ]

pub contains-drop_expired :
    (j : ℕ) (msg : TimerMsg) (l : List Source)
    → IsSorted key l
    → contains key j (drop_expired msg l) ≡ (members l ∖ expired msg l) j
unfolding contains
contains-drop_expired j msg l h = ground (arith, find?-drop_expired j 0 msg l h)

-- A source without its timer.
abbrev silent : Source → Source
silent s = record s { shared_source_timer = none }

pub contains-exclude_expired :
    (j b : ℕ) (msg : TimerMsg) (l y : List Source)
    → Ascending key b l
    → IsSorted key y
    → contains key j (exclude_expired msg l y) ≡ (members y ⊔ expired msg l) j
unfolding exclude_expired contains find?
contains-exclude_expired j b msg [] y h t = ground arith
contains-exclude_expired j b msg (s ∷ l) y h t = ground (
  arith,
  contains-exclude_expired j (suc s.saddr) msg l (insert key (silent s) y) h.1
      (insert-Ascending key 0 (silent s) y (omega arith) t),
  contains-exclude_expired j (suc s.saddr) msg l y h.1 t,
  find?-insert key j 0 (silent s) y t,
  find?_below key j (suc s.saddr) l,
)

pub exclude_expired-IsSorted :
    (msg : TimerMsg) (l y : List Source) → IsSorted key y → IsSorted key (exclude_expired msg l y)
unfolding exclude_expired
exclude_expired-IsSorted msg [] y t = t
exclude_expired-IsSorted msg (s ∷ l) y t = elim (Bool-cases (points_to s.shared_source_timer msg)) [
  | inl e ↦ rw e (exclude_expired-IsSorted msg l _ (insert-Ascending key 0 _ y (omega arith) t))
  | inr e ↦ rw e (exclude_expired-IsSorted msg l y t)
]

HasNoTimer-or_else : (o p : Option Source) → HasNoTimer o → HasNoTimer p → HasNoTimer (or_else o p)
HasNoTimer-or_else none p h i = i
HasNoTimer-or_else (some s) p h i = h

insert-Untimed :
    (s : Source) (y : List Source) → IsSorted key y → Untimed y → Untimed (insert key (silent s) y)
insert-Untimed s y t u j =
    let new : HasNoTimer (if s.saddr == j then some (silent s) else none) =
      elim (Bool-cases (s.saddr == j)) [ inl e ↦ rw e refl | inr e ↦ rw e tt ] in
    subst HasNoTimer (sym (find?-insert key j 0 (silent s) y t))
      (HasNoTimer-or_else (find? key j y) _ (u j) new)

pub exclude_expired-Untimed :
    (msg : TimerMsg) (l y : List Source)
    → IsSorted key y
    → Untimed y
    → Untimed (exclude_expired msg l y)
unfolding exclude_expired
exclude_expired-Untimed msg [] y t u = u
exclude_expired-Untimed msg (s ∷ l) y t u =
    elim (Bool-cases (points_to s.shared_source_timer msg)) [
      | inl e ↦ rw e (
          exclude_expired-Untimed msg l _ (insert-Ascending key 0 _ y (omega arith) t)
            (insert-Untimed s y t u))
      | inr e ↦ rw e (exclude_expired-Untimed msg l y t u)
    ]

unless_expired-HasTimer :
    (msg : TimerMsg) (o : Option Source) → HasTimer o → HasTimer (unless_expired msg o)
unless_expired-HasTimer msg o h = elim (Bool-cases (has_expired msg o)) [
  | inl e ↦ rw e tt
  | inr e ↦ rw e h
]

pub drop_expired-Timed :
    (msg : TimerMsg) (l : List Source) → IsSorted key l → Timed l → Timed (drop_expired msg l)
drop_expired-Timed msg l h v j =
    subst HasTimer (sym (find?-drop_expired j 0 msg l h))
      (unless_expired-HasTimer msg (find? key j l) (v j))

pub drop_expired-IsSorted :
    (msg : TimerMsg) (l : List Source) → IsSorted key l → IsSorted key (drop_expired msg l)
drop_expired-IsSorted msg l h = drop_expired-Ascending 0 msg l h
