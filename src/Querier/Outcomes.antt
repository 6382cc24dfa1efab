-- ===== src/Querier/Outcomes.antt =====
-- What it means that a handler of mcproxy/src/proxy/querier.cpp changed one group of the database.
use mcproxy.Base.{
  ℕ, ◌≡◌, refl, sym, ap, subst, ◌∙◌, ◌≢◌, ◌⊎◌, inl, inr, true, Option, some, [], arith, Bool-cases,
  Option-cases, some-inj,
}
use mcproxy.SourceList.{find?, contains}
use mcproxy.MapOf.{lookup, lookup-put_self, lookup-put_ne, lookup-remove_self, lookup-remove_ne}
use mcproxy.Protocol.{McFilter, GroupMemProtocol, include_mode, exclude_mode}
use mcproxy.Message.{key}
use mcproxy.Membership.{new_gaddr_info, GaddrInfo, MembershipDb}
use mcproxy.World.{World}
use mcproxy.Querier.Records.{find_or_insert, is_unused, store, store_used, Querier}
use mcproxy.Querier.Table.{view, RouterState-eq, RouterState}
use mcproxy.Querier.Invariant.{IsValid}

-- Every entry of the database is valid.
abbrev pub IsValidDb : MembershipDb → Type 0
IsValidDb db = (k : ℕ) (g : GaddrInfo) → lookup k db.group_info ≡ some g → IsValid g

-- The router state of a group; a group with no entry includes nothing.
abbrev pub state_of : MembershipDb → ℕ → RouterState
state_of db gaddr = view (find_or_insert db gaddr)

-- From `q` to `q'` only the entry of `gaddr` changes; it is valid and its router state is `r`.
pub record Outcome (q q' : Querier) (gaddr : ℕ) (r : RouterState) : Type 0 where
  pub reached : state_of q'.db gaddr ≡ r
  pub others : (k : ℕ) → k ≢ gaddr → lookup k q'.db.group_info ≡ lookup k q.db.group_info
  pub entry_valid : (g : GaddrInfo) → lookup gaddr q'.db.group_info ≡ some g → IsValid g

new_gaddr_info-IsValid : (mode : GroupMemProtocol) → IsValid (new_gaddr_info mode)
unfolding new_gaddr_info find? contains
new_gaddr_info-IsValid mode = record {
  sets = record {
    include_sorted = tt;
    exclude_sorted = tt;
    disjoint = λ j e. refl;
    untimed = λ j. tt;
  };
  timed = λ j. tt;
  filter_timed = λ e. absurd (ground arith);
  none_excluded = λ e. refl;
}

pub find_or_insert-IsValid :
    (db : MembershipDb) (gaddr : ℕ) → IsValidDb db → IsValid (find_or_insert db gaddr)
unfolding find_or_insert
find_or_insert-IsValid db gaddr v = elim (Option-cases (lookup gaddr db.group_info)) [
  | inl e ↦ rw (e, find_or_insert) (new_gaddr_info-IsValid db.querier_version_mode)
  | inr (g, e) ↦ rw (e, find_or_insert) (v gaddr g e)
]

pub store-Outcome :
    (q : Querier) (gaddr : ℕ) (g : GaddrInfo) (w : World)
    → IsValid g
    → Outcome q (store q gaddr (g, w)) gaddr (view g)
unfolding find_or_insert
store-Outcome q gaddr g w v = record {
  reached = rw (lookup-put_self gaddr g q.db.group_info, find_or_insert);
  others = λ k h. lookup-put_ne k gaddr g q.db.group_info h;
  entry_valid =
      λ h e. subst IsValid (some-inj (sym (lookup-put_self gaddr g q.db.group_info) ∙ e)) v;
}

unused_parts :
    (g : GaddrInfo)
    → is_unused g ≡ true
    → (g.filter_mode ≡ include_mode) × (g.include_requested_list ≡ [])
unused_parts g h = ground arith

view_unused :
    (g : GaddrInfo) (mode : GroupMemProtocol)
    → IsValid g
    → is_unused g ≡ true
    → view (new_gaddr_info mode) ≡ view g
unfolding new_gaddr_info
view_unused g mode v h =
    let (m, e) = unused_parts g h in
    RouterState-eq (view (new_gaddr_info mode)) (view g) (sym m) (λ j. ap (contains key j) (sym e))
      (λ j. ap (contains key j) (sym (v.none_excluded m)))

pub store_used-Outcome :
    (q : Querier) (gaddr : ℕ) (g : GaddrInfo) (w : World)
    → IsValid g
    → Outcome q (store_used q gaddr (g, w)) gaddr (view g)
unfolding find_or_insert
store_used-Outcome q gaddr g w v = elim (Bool-cases (is_unused g)) [
  | inl e ↦ rw e record {
    reached =
        rw (lookup-remove_self gaddr q.db.group_info, find_or_insert)
          (view_unused g q.db.querier_version_mode v e);
    others = λ k h. lookup-remove_ne k gaddr q.db.group_info h;
    entry_valid = λ h f. absurd (ground (arith, lookup-remove_self gaddr q.db.group_info));
  }
  | inr e ↦ rw e (store-Outcome q gaddr g w v)
]

pub McFilter-cases : (m : McFilter) → (m ≡ include_mode) ⊎ (m ≡ exclude_mode)
McFilter-cases include_mode = inl refl
McFilter-cases exclude_mode = inr refl

-- The call returns, and only the entry of the group changes, to router state `r`.
abbrev pub Returns : Querier → Option Querier → ℕ → RouterState → Type 0
Returns q o gaddr r = (q' : Querier) × (o ≡ some q') × Outcome q q' gaddr r
