-- ===== src/ProxyInstance/Upstreams.antt =====
-- mcproxy/src/proxy/proxy_instance.cpp: the set of the upstream interfaces, which is ordered by the
-- priorities.
use mcproxy.Base.{
  ℕ, ◌≡◌, refl, subst, inl, inr, false, not, ◌&&◌, ◌||◌, List, [], ◌∷◌, arith, ◌==◌, ==_iff,
  Bool-cases,
}
use mcproxy.SourceList.{insert, find?, contains}
use mcproxy.ProxyInstance.{priority_of, has_upstream, erase_upstream, UpstreamInfo}

-- No two upstream interfaces have the same index.
abbrev pub Distinct : List UpstreamInfo → Type 0
Distinct [] = Unit {0}
Distinct (u ∷ l) = (has_upstream u.interface.index l ≡ false) × Distinct l

-- An upstream interface with a priority that is not taken is there after the insertion.
pub has_upstream-insert :
    (i : ℕ) (u : UpstreamInfo) (l : List UpstreamInfo)
    → contains priority_of u.priority l ≡ false
    → has_upstream i (insert priority_of u l) ≡ ((u.interface.index == i) || has_upstream i l)
unfolding has_upstream insert contains find?
has_upstream-insert i u [] h = refl
has_upstream-insert i u (v ∷ l) h = ground (arith, has_upstream-insert i u l)

pub insert-Distinct :
    (u : UpstreamInfo) (l : List UpstreamInfo)
    → has_upstream u.interface.index l ≡ false
    → contains priority_of u.priority l ≡ false
    → Distinct l
    → Distinct (insert priority_of u l)
unfolding insert has_upstream contains find?
insert-Distinct u [] hn hp h = (refl, tt)
insert-Distinct u (v ∷ l) hn hp h =
    ground (arith, insert-Distinct u l, has_upstream-insert v.interface.index u l)

pub has_upstream-erase_upstream :
    (j i : ℕ) (l : List UpstreamInfo)
    → Distinct l
    → has_upstream j (erase_upstream i l) ≡ (has_upstream j l && not (i == j))
unfolding has_upstream erase_upstream
has_upstream-erase_upstream j i [] h = refl
has_upstream-erase_upstream j i (u ∷ l) h = elim (Bool-cases (u.interface.index == j)) [
  | inl e ↦
      let gone : has_upstream j l ≡ false =
        subst (λ k. has_upstream k l ≡ false) ((==_iff u.interface.index j).0 e) h.0 in
      ground (arith, e, gone, has_upstream-erase_upstream j i l h.1)
  | inr e ↦ ground (arith, e, has_upstream-erase_upstream j i l h.1)
]

pub erase_upstream-Distinct :
    (i : ℕ) (l : List UpstreamInfo) → Distinct l → Distinct (erase_upstream i l)
unfolding erase_upstream has_upstream
erase_upstream-Distinct i [] h = tt
erase_upstream-Distinct i (u ∷ l) h =
    ground (arith, erase_upstream-Distinct i l, has_upstream-erase_upstream u.interface.index i l)
