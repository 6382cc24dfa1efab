-- ===== src/Aggregation/Counts.antt =====
-- `process_upstream_in_mutex` of mcproxy/src/proxy/simple_mc_proxy_routing.cpp: how often what was
-- gathered names a source.
use mcproxy.Base.{
  ℕ, ◌+◌, ◌≡◌, refl, subst, inl, inr, Bool, true, not, ◌&&◌, ◌||◌, List, [], ◌∷◌, ◌++◌, arith, ◌==◌,
  if◌then◌else◌, ==_iff, Bool-cases,
}
use mcproxy.SourceList.{erase, find?, contains}
use mcproxy.SourceList.Members.{empty_contains}
use mcproxy.Protocol.{McFilter}
use mcproxy.Message.{key, Source}
use mcproxy.Aggregation.{Memberships, SourceState}
use mcproxy.Aggregation.First.{any_state}
use mcproxy.Aggregation.Mutex.{clean_states, clean_data}

pub contains-erase :
    (k j : ℕ) (l : List Source)
    → contains key j (erase key k l) ≡ (contains key j l && not (k == j))
unfolding contains find? erase
contains-erase k j [] = refl
contains-erase k j (x ∷ l) = ground (arith, contains-erase k j l)

-- The number of upstream interfaces for which a state whose mode satisfies `q` names the source.
abbrev pub count_named : (McFilter → Bool) → ℕ → Memberships → ℕ
count_named q saddr [] = 0
count_named q saddr ((i, states) ∷ l) =
    (if any_state q saddr states then 1 else 0) + count_named q saddr l

-- Every filter mode.
abbrev pub any_mode : McFilter → Bool
any_mode m = true

pub any_state-clean_states :
    (q : McFilter → Bool) (t saddr : ℕ) (l : List SourceState)
    → any_state q saddr (clean_states t l) ≡ (any_state q saddr l && not (t == saddr))
unfolding clean_states
any_state-clean_states q t saddr [] = refl
any_state-clean_states q t saddr (st ∷ l) = ground (
  arith,
  any_state-clean_states q t saddr l,
  contains-erase t saddr st.source_list,
  empty_contains key saddr (erase key t st.source_list),
)

pub count_named-clean_data :
    (q : McFilter → Bool) (t saddr : ℕ) (l : Memberships)
    → count_named q saddr (clean_data t l) ≡ (if t == saddr then 0 else count_named q saddr l)
unfolding clean_data
count_named-clean_data q t saddr [] = ground arith
count_named-clean_data q t saddr ((i, states) ∷ l) =
    ground (arith, any_state-clean_states q t saddr states, count_named-clean_data q t saddr l)

pub count_named-append :
    (q : McFilter → Bool) (saddr i : ℕ) (states : List SourceState) (l : Memberships)
    → count_named q saddr (l ++ ((i, states) ∷ []))
      ≡ count_named q saddr l + (if any_state q saddr states then 1 else 0)
count_named-append q saddr i states [] = omega arith
count_named-append q saddr i states ((j, st) ∷ l) =
    omega (arith, count_named-append q saddr i states l)

-- One step of a loop that keeps the sources that satisfy `f`.
pub contains-if :
    (f : ℕ → Bool) (saddr : ℕ) (s : Source) (l : List Source)
    → contains key saddr (if f s.saddr then s ∷ l else l)
      ≡ (((s.saddr == saddr) && f saddr) || contains key saddr l)
unfolding contains find?
contains-if f saddr s l = elim (Bool-cases (s.saddr == saddr)) [
  | inl e ↦
      subst
        (λ a.
          contains key saddr (if f s.saddr then s ∷ l else l)
          ≡ (((s.saddr == saddr) && f a) || contains key saddr l))
        ((==_iff s.saddr saddr).0 e) (ground (arith, e))
  | inr e ↦ ground (arith, e)
]
