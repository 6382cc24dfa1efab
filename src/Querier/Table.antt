-- ===== src/Querier/Table.antt =====
-- The router state tables of RFC 3376 section 6.4 and RFC 3810 section 7.4, which the comments of
-- mcproxy/src/proxy/querier.cpp quote, on sets of addresses.
use mathlib.Core.Path.{fun_ext}
use mcproxy.Base.{ℕ, ◌≡◌, Bool, not, ◌&&◌, ◌||◌, List}
use mcproxy.SourceList.{contains}
use mcproxy.Protocol.{
  McFilter, RecordType, include_mode, exclude_mode, mode_is_include, mode_is_exclude,
  change_to_include_mode, change_to_exclude_mode, allow_new_sources, block_old_sources,
  unknown_record,
}
use mcproxy.Message.{key, Source}
use mcproxy.Membership.{GaddrInfo}

abbrev pub AddrSet : Type 0
AddrSet = ℕ → Bool

infixl 65 ◌⊔◌ ◌∖◌
infixl 70 ◌⊓◌
abbrev pub ◌⊔◌ : AddrSet → AddrSet → AddrSet
◌⊔◌ a b j = a j || b j

abbrev pub ◌⊓◌ : AddrSet → AddrSet → AddrSet
◌⊓◌ a b j = a j && b j

abbrev pub ◌∖◌ : AddrSet → AddrSet → AddrSet
◌∖◌ a b j = a j && not (b j)

-- INCLUDE (included) or EXCLUDE (included, excluded).
pub record RouterState : Type 0 where
  pub mode : McFilter
  pub included : AddrSet
  pub excluded : AddrSet

abbrev pub include_row : RecordType → AddrSet → RouterState → RouterState
include_row allow_new_sources b r = record r { included = r.included ⊔ b }
include_row block_old_sources b r = r
include_row change_to_exclude_mode b r = record {
  mode = exclude_mode;
  included = r.included ⊓ b;
  excluded = b ∖ r.included;
}
include_row change_to_include_mode b r = record r { included = r.included ⊔ b }
include_row mode_is_exclude b r = record {
  mode = exclude_mode;
  included = r.included ⊓ b;
  excluded = b ∖ r.included;
}
include_row mode_is_include b r = record r { included = r.included ⊔ b }
include_row (unknown_record n) b r = r

abbrev pub exclude_row : RecordType → AddrSet → RouterState → RouterState
exclude_row allow_new_sources a r = record r {
  included = r.included ⊔ a;
  excluded = r.excluded ∖ a;
}
exclude_row block_old_sources a r = record r { included = r.included ⊔ (a ∖ r.excluded) }
exclude_row change_to_exclude_mode a r = record r {
  included = a ∖ r.excluded;
  excluded = r.excluded ⊓ a;
}
exclude_row change_to_include_mode a r = record r {
  included = r.included ⊔ a;
  excluded = r.excluded ∖ a;
}
exclude_row mode_is_exclude a r = record r { included = a ∖ r.excluded; excluded = r.excluded ⊓ a }
exclude_row mode_is_include a r = record r { included = r.included ⊔ a; excluded = r.excluded ∖ a }
exclude_row (unknown_record n) a r = r

-- The new router state by the tables.
abbrev pub rfc_table : RecordType → AddrSet → RouterState → RouterState
rfc_table t a r = elim r.mode [
  | include_mode ↦ include_row t a r
  | exclude_mode ↦ exclude_row t a r
]

abbrev pub members : List Source → AddrSet
members l j = contains key j l

-- A group's entry as a router state.
abbrev pub view : GaddrInfo → RouterState
view g = record {
  mode = g.filter_mode;
  included = members g.include_requested_list;
  excluded = members g.exclude_list;
}

pub RouterState-eq :
    (r s : RouterState)
    → r.mode ≡ s.mode
    → ((j : ℕ) → r.included j ≡ s.included j)
    → ((j : ℕ) → r.excluded j ≡ s.excluded j)
    → r ≡ s
RouterState-eq r s m p q =
    λ i. record { mode = m i; included = fun_ext p i; excluded = fun_ext q i }
