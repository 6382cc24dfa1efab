-- ===== src/Querier/Rows.antt =====
-- What timers do to a router state, and steps of handlers of mcproxy/src/proxy/querier.cpp put
-- together.
use mcproxy.Base.{ℕ, ◌≡◌, refl, sym, subst, ◌∙◌, false, some, some-inj}
use mcproxy.MapOf.{lookup}
use mcproxy.Protocol.{include_mode, exclude_mode}
use mcproxy.Membership.{GaddrInfo}
use mcproxy.Querier.Records.{find_or_insert, Querier}
use mcproxy.Querier.Expiry.{notify_routing}
use mcproxy.Querier.Table.{AddrSet, ◌⊔◌, ◌∖◌, view, RouterState}
use mcproxy.Querier.Invariant.{IsValid}
use mcproxy.Querier.Outcomes.{Outcome}

abbrev pub dropped_row : AddrSet → RouterState → RouterState
dropped_row e r = record r { included = r.included ∖ e }

abbrev pub moved_row : AddrSet → RouterState → RouterState
moved_row e r = record r { included = r.included ∖ e; excluded = r.excluded ⊔ e }

-- What sources whose timers run out do to a router state (RFC 3810 section 7.2.3).
abbrev pub source_row : AddrSet → RouterState → RouterState
source_row e r = elim r.mode [ include_mode ↦ dropped_row e r | exclude_mode ↦ moved_row e r ]

-- What the filter timer does to a router state when it runs out (RFC 3810 section 7.2.2).
abbrev pub filter_row : RouterState → RouterState
filter_row r = elim r.mode [
  | include_mode ↦ r
  | exclude_mode ↦ record { mode = include_mode; included = r.included; excluded = λ j. false }
]

pub source_row-include :
    (e : AddrSet) (r : RouterState) → r.mode ≡ include_mode → dropped_row e r ≡ source_row e r
source_row-include e r m = rw m refl

pub source_row-exclude :
    (e : AddrSet) (r : RouterState) → r.mode ≡ exclude_mode → moved_row e r ≡ source_row e r
source_row-exclude e r m = rw m refl

pub filter_row-exclude :
    (r : RouterState)
    → r.mode ≡ exclude_mode
    → record r { mode = include_mode; excluded = λ j. false } ≡ filter_row r
filter_row-exclude r m = rw m refl

pub filter_row-include : (r : RouterState) → r.mode ≡ include_mode → r ≡ filter_row r
filter_row-include r m = rw m refl

pub notify_routing-Outcome :
    (q q' : Querier) (gaddr : ℕ) (r : RouterState)
    → Outcome q q' gaddr r
    → Outcome q (notify_routing gaddr q') gaddr r
notify_routing-Outcome q q' gaddr r o = record {
  reached = o.reached;
  others = o.others;
  entry_valid = o.entry_valid;
}

pub transport_Outcome :
    (q q' q'' : Querier) (gaddr : ℕ)
    → q' ≡ q''
    → {r s : RouterState} → r ≡ s
    → Outcome q q' gaddr r
    → Outcome q q'' gaddr s
transport_Outcome q q' q'' gaddr e {s} f o =
    subst (λ z. Outcome q z gaddr s) e (subst (Outcome q q' gaddr) f o)

pub unchanged_Outcome :
    (q : Querier) (gaddr : ℕ) (g : GaddrInfo)
    → IsValid g
    → lookup gaddr q.db.group_info ≡ some g
    → Outcome q q gaddr (view g)
unfolding find_or_insert
unchanged_Outcome q gaddr g v e = record {
  reached = rw (e, find_or_insert) refl;
  others = λ k h. refl;
  entry_valid = λ h f. subst IsValid (some-inj (sym e ∙ f)) v;
}
