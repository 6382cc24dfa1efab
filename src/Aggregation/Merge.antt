-- ===== src/Aggregation/Merge.antt =====
-- What an aggregated state of mcproxy/src/proxy/simple_mc_proxy_routing.cpp asks for.
use mcproxy.Base.{ℕ, ◌≡◌, ap, ◌∙◌, Bool, false, ◌||◌, some, List, [], ◌∷◌, arith, All}
use mcproxy.SourceList.{find?, contains, IsSorted}
use mcproxy.SourceList.Laws.{inter-Ascending, union-IsSorted, diff-IsSorted}
use mcproxy.SourceList.Members.{contains-union, contains-inter, contains-diff}
use mcproxy.Protocol.{McFilter, include_mode, exclude_mode}
use mcproxy.Message.{key, Source}
use mcproxy.Querier.Agreement.{asks_for}
use mcproxy.Aggregation.{
  empty_state, merge_membership_infos, merge_all, Memberships, get_group_memberships, SourceState,
}

-- Whether a state asks for a source.
abbrev pub asks : SourceState → ℕ → Bool
asks s saddr = asks_for (s.mc_filter, s.source_list) saddr

abbrev pub any_asks : List SourceState → ℕ → Bool
any_asks [] saddr = false
any_asks (s ∷ l) saddr = asks s saddr || any_asks l saddr

abbrev pub HasSet : SourceState → Type 0
HasSet s = IsSorted key s.source_list

merge_asks :
    (m n : McFilter) (x y : List Source) (j : ℕ)
    → IsSorted key x
    → IsSorted key y
    → asks
        (merge_membership_infos
          (record { mc_filter = m; source_list = x })
          (record { mc_filter = n; source_list = y }))
        j
      ≡ (asks_for (m, x) j || asks_for (n, y) j)
unfolding merge_membership_infos
merge_asks include_mode include_mode x y j h i = ground (arith, contains-union key j x y h)
merge_asks include_mode exclude_mode x y j h i = ground (arith, contains-diff key j y x)
merge_asks exclude_mode include_mode x y j h i = ground (arith, contains-diff key j x y)
merge_asks exclude_mode exclude_mode x y j h i = ground (arith, contains-inter key j x y h i)

merge_set :
    (m n : McFilter) (x y : List Source)
    → IsSorted key x
    → IsSorted key y
    → HasSet (
        merge_membership_infos
          (record { mc_filter = m; source_list = x })
          (record { mc_filter = n; source_list = y }))
unfolding merge_membership_infos
merge_set include_mode include_mode x y h i = union-IsSorted key x y h
merge_set include_mode exclude_mode x y h i = diff-IsSorted key y x i
merge_set exclude_mode include_mode x y h i = diff-IsSorted key x y h
merge_set exclude_mode exclude_mode x y h i = inter-Ascending key 0 x y h

-- Merging two states whose lists are sets gives a state, with a set again, that asks for a source
-- exactly if one of the two does, whatever their filter modes.
pub merge-asks :
    (s t : SourceState)
    → HasSet s
    → HasSet t
    → HasSet (merge_membership_infos s t)
      × ((saddr : ℕ) → asks (merge_membership_infos s t) saddr ≡ (asks s saddr || asks t saddr))
merge-asks s t h i = (
  merge_set s.mc_filter t.mc_filter s.source_list t.source_list h i,
  λ j. merge_asks s.mc_filter t.mc_filter s.source_list t.source_list j h i,
)

assoc : (a b c : Bool) → ((a || b) || c) ≡ (a || (b || c))
assoc a b c = ground arith

merge_all-asks :
    (r : SourceState) (l : List SourceState)
    → HasSet r
    → All HasSet l
    → (saddr : ℕ) → asks (merge_all r l) saddr ≡ (asks r saddr || any_asks l saddr)
unfolding merge_all
merge_all-asks r [] h a saddr = ground arith
merge_all-asks r (e ∷ l) h a saddr =
    let (s, m) = merge-asks r e h a.0 in
    merge_all-asks (merge_membership_infos r e) l s a.1 saddr
    ∙ ap (λ b. b || any_asks l saddr) (m saddr)
    ∙ assoc (asks r saddr) (asks e saddr) (any_asks l saddr)

-- Asked for the interface that is first in `m_data`, `get_group_memberships` takes it off and gives
-- a state that asks for a source exactly if one of the states gathered for that interface does. The
-- states' lists are sets.
pub get_group_memberships-asks :
    (i : ℕ) (l : List SourceState) (rest : Memberships)
    → All HasSet l
    → (r : SourceState) × (get_group_memberships i ((i, l) ∷ rest) ≡ some (r, rest))
      × ((saddr : ℕ) → asks r saddr ≡ any_asks l saddr)
unfolding get_group_memberships contains find?
get_group_memberships-asks i l rest a =
    (merge_all empty_state l, ground arith, λ s. merge_all-asks empty_state l tt a s)
