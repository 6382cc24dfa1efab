-- ===== src/Querier/Invariant.antt =====
-- What holds of the entries of the membership database between two events of
-- mcproxy/src/proxy/querier.cpp.
use mcproxy.Base.{ℕ, ◌≡◌, true, false, Option, none, some, List, [], is_some, is_positive}
use mcproxy.SourceList.{find?, contains, IsSorted}
use mcproxy.Protocol.{include_mode, exclude_mode}
use mcproxy.Message.{key, Source}
use mcproxy.Membership.{GaddrInfo}

abbrev pub HasTimer : Option Source → Type 0
HasTimer none = Unit {0}
HasTimer (some s) = is_some s.shared_source_timer ≡ true

abbrev pub HasNoTimer : Option Source → Type 0
HasNoTimer none = Unit {0}
HasNoTimer (some s) = s.shared_source_timer ≡ none

abbrev pub Timed : List Source → Type 0
Timed l = (j : ℕ) → HasTimer (find? key j l)

abbrev pub Untimed : List Source → Type 0
Untimed l = (j : ℕ) → HasNoTimer (find? key j l)

-- The include or requested list and the exclude list are sets, no source is in both, and an excluded
-- source has no timer.
pub record AreSets (x y : List Source) : Type 0 where
  pub include_sorted : IsSorted key x
  pub exclude_sorted : IsSorted key y
  pub disjoint : (j : ℕ) → contains key j x ≡ true → contains key j y ≡ false
  pub untimed : Untimed y

pub record IsValid (g : GaddrInfo) : Type 0 where
  pub sets : AreSets g.include_requested_list g.exclude_list
  pub open sets use *
  -- An included or requested source has a timer.
  pub timed : Timed g.include_requested_list
  -- In exclude mode there is a filter timer, in include mode nothing is excluded.
  pub filter_timed : g.filter_mode ≡ exclude_mode → is_some g.shared_filter_timer ≡ true
  pub none_excluded : g.filter_mode ≡ include_mode → g.exclude_list ≡ []

-- A source as a receiver makes it: no timer, not in retransmission.
abbrev pub IsUntouched : Option Source → Type 0
IsUntouched none = Unit {0}
IsUntouched (some s) = (s.shared_source_timer ≡ none) × (is_positive s.retransmission_count ≡ false)

-- The source list of a record as it comes from a receiver.
pub record IsFresh (l : List Source) : Type 0 where
  pub sorted : IsSorted key l
  pub untouched : (j : ℕ) → IsUntouched (find? key j l)
