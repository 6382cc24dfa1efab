-- ===== src/MessageQueue/Drain.antt =====
-- In which order the messages come out of the queue of mcproxy/include/proxy/message_queue.hpp.
use mcproxy.Base.{
  ℕ, zero, suc, ◌≤◌, ◌≡◌, refl, sym, ap, subst, ◌∙◌, inl, inr, Bool, true, false, none, some, List,
  [], ◌∷◌, arith, leb, if◌then◌else◌, Bool-cases, length, All,
}
use mcproxy.MessageQueue.{select, dequeue, ProxyMsg, MessageQueue}

-- The messages that `n` calls of `dequeue` give.
abbrev pub drain : ℕ → MessageQueue → List ProxyMsg
drain zero q = []
drain (suc n) q = elim (dequeue q) [ none ↦ [] | some p ↦ p.0 ∷ drain n p.1 ]

-- Priorities from `k` on, in their order.
abbrev pub InOrder : ℕ → List ProxyMsg → Type 0
InOrder k [] = Unit {0}
InOrder k (a ∷ l) = (k ≤ a.m_prio) × InOrder a.m_prio l

-- How many messages satisfy a test.
abbrev pub count : (ProxyMsg → Bool) → List ProxyMsg → ℕ
count p [] = 0
count p (a ∷ l) = if p a then suc (count p l) else count p l

abbrev AtLeast : ℕ → List ProxyMsg → Type 0
AtLeast k l = All (λ a. k ≤ a.m_prio) l

select-length : (a : ProxyMsg) (l : List ProxyMsg) → length (select a l).1 ≡ length l
unfolding select
select-length a [] = refl
select-length a (b ∷ l) = ap suc (select-length (if leb a.m_prio b.m_prio then a else b) l)

count_swap :
    (p : ProxyMsg → Bool) (m a b : ProxyMsg) (r l : List ProxyMsg)
    → count p (m ∷ r) ≡ count p (a ∷ l)
    → count p (m ∷ b ∷ r) ≡ count p (a ∷ b ∷ l)
count_swap p m a b r l h = ground (arith, h)

count_keep :
    (p : ProxyMsg → Bool) (m a b : ProxyMsg) (r l : List ProxyMsg)
    → count p (m ∷ r) ≡ count p (b ∷ l)
    → count p (m ∷ a ∷ r) ≡ count p (a ∷ b ∷ l)
count_keep p m a b r l h = ground (arith, h)

count_cons :
    (p : ProxyMsg → Bool) (m : ProxyMsg) (r l : List ProxyMsg)
    → count p r ≡ count p l
    → count p (m ∷ r) ≡ count p (m ∷ l)
count_cons p m r l h = ground (arith, h)

count-select :
    (p : ProxyMsg → Bool) (a : ProxyMsg) (l : List ProxyMsg)
    → count p ((select a l).0 ∷ (select a l).1) ≡ count p (a ∷ l)
unfolding select
count-select p a [] = refl
count-select p a (b ∷ l) = elim (Bool-cases (leb a.m_prio b.m_prio)) [
  | inl e ↦ rw e (count_swap p (select a l).0 a b (select a l).1 l (count-select p a l))
  | inr e ↦ rw e (count_keep p (select b l).0 a b (select b l).1 l (count-select p b l))
]

select_stays :
    (a b : ProxyMsg) (l : List ProxyMsg)
    → leb a.m_prio b.m_prio ≡ true
    → select a (b ∷ l) ≡ ((select a l).0, b ∷ (select a l).1)
unfolding select
select_stays a b l e = simp e refl

select_moves :
    (a b : ProxyMsg) (l : List ProxyMsg)
    → leb a.m_prio b.m_prio ≡ false
    → select a (b ∷ l) ≡ ((select b l).0, a ∷ (select b l).1)
unfolding select
select_moves a b l e = simp e refl

-- The chosen message comes first: it is no later than the message `a`, and no other is before it.
abbrev IsFirst : ProxyMsg → ProxyMsg × List ProxyMsg → Type 0
IsFirst a (m, r) = (m.m_prio ≤ a.m_prio) × AtLeast m.m_prio r

select-IsFirst : (a : ProxyMsg) (l : List ProxyMsg) → IsFirst a (select a l)
unfolding select
select-IsFirst a [] = (omega arith, tt)
select-IsFirst a (b ∷ l) = elim (Bool-cases (leb a.m_prio b.m_prio)) [
  | inl e ↦
      let (h, i) = select-IsFirst a l in
      subst (IsFirst a) (sym (select_stays a b l e)) (h, (ground (arith, h, e), i))
  | inr e ↦
      let (h, i) = select-IsFirst b l in
      subst (IsFirst a) (sym (select_moves a b l e))
        (ground (arith, h, e), (ground (arith, h, e), i))
]

select-AtLeast_first :
    (k : ℕ) (a : ProxyMsg) (l : List ProxyMsg)
    → k ≤ a.m_prio
    → AtLeast k l
    → k ≤ (select a l).0.m_prio
unfolding select
select-AtLeast_first k a [] h i = h
select-AtLeast_first k a (b ∷ l) h i = elim (Bool-cases (leb a.m_prio b.m_prio)) [
  | inl e ↦
      subst (λ z. k ≤ z.0.m_prio) (sym (select_stays a b l e)) (select-AtLeast_first k a l h i.1)
  | inr e ↦
      subst (λ z. k ≤ z.0.m_prio) (sym (select_moves a b l e)) (select-AtLeast_first k b l i.0 i.1)
]

drain-InOrder :
    (n k size : ℕ) (l : List ProxyMsg)
    → AtLeast k l
    → InOrder k (drain n (record { m_q = l; m_size = size }))
unfolding dequeue
drain-InOrder zero k size l h = tt
drain-InOrder (suc n) k size [] h = tt
drain-InOrder (suc n) k size (a ∷ l) h = (
  select-AtLeast_first k a l h.0 h.1,
  drain-InOrder n (select a l).0.m_prio size (select a l).1 (select-IsFirst a l).1,
)

count-drain :
    (p : ProxyMsg → Bool) (n size : ℕ) (l : List ProxyMsg)
    → length l ≡ n
    → count p (drain n (record { m_q = l; m_size = size })) ≡ count p l
unfolding dequeue
count-drain p zero size [] e = refl
count-drain p zero size (a ∷ l) e = absurd (omega (arith, e))
count-drain p (suc n) size [] e = absurd (omega (arith, e))
count-drain p (suc n) size (a ∷ l) e =
    let rest = count-drain p n size (select a l).1 (omega (arith, e, select-length a l)) in
    count_cons p (select a l).0 _ _ rest ∙ count-select p a l

all-AtLeast : (l : List ProxyMsg) → AtLeast 0 l
all-AtLeast [] = tt
all-AtLeast (a ∷ l) = (omega arith, all-AtLeast l)

-- As many calls of `dequeue` as the queue has messages give them in the order of their priorities,
-- and give each as often as it is in the queue.
pub drain_lem :
    (q : MessageQueue)
    → InOrder 0 (drain (length q.m_q) q)
      × ((p : ProxyMsg → Bool) → count p (drain (length q.m_q) q) ≡ count p q.m_q)
drain_lem q = (
  drain-InOrder (length q.m_q) 0 q.m_size q.m_q (all-AtLeast q.m_q),
  λ p. count-drain p (length q.m_q) q.m_size q.m_q refl,
)
