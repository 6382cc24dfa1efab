-- ===== src/Querier/Agreement.antt =====
-- What the routing is told twice: which sources to forward, and what to ask of the upstreams
-- (`suggest_to_forward_traffic` and `get_group_membership_infos` of mcproxy/src/proxy/querier.cpp).
use mcproxy.Base.{
  ℕ, ◌≡◌, refl, ap, ◌∙◌, inl, inr, Bool, true, false, not, ◌&&◌, none, some, List, [], ◌∷◌, arith,
  Option-cases,
}
use mcproxy.SourceList.{find?, contains}
use mcproxy.MapOf.{lookup}
use mcproxy.Protocol.{McFilter, include_mode, exclude_mode}
use mcproxy.Message.{key, Source}
use mcproxy.Membership.{GaddrInfo}
use mcproxy.Querier.Records.{Querier}
use mcproxy.Querier.Forward.{
  wants_source, ForwardList, push_interface, suggest_to_forward_traffic, get_group_membership_infos,
}

-- Whether a filter mode with its sources asks for a source.
abbrev pub asks_for : McFilter × List Source → ℕ → Bool
asks_for (include_mode, l) saddr = contains key saddr l
asks_for (exclude_mode, l) saddr = not (contains key saddr l)

push_interface-cong :
    (p p' : ℕ → Bool) (if_index : ℕ) (l : ForwardList)
    → ((s : ℕ) → p s ≡ p' s)
    → push_interface p if_index l ≡ push_interface p' if_index l
unfolding push_interface
push_interface-cong p p' if_index [] h = refl
push_interface-cong p p' if_index ((s, out) ∷ l) h =
    rw (h s.saddr, push_interface-cong p p' if_index l h) refl

push_interface-nothing :
    (if_index : ℕ) (l : ForwardList) → l ≡ push_interface (λ s. false) if_index l
unfolding push_interface
push_interface-nothing if_index [] = refl
push_interface-nothing if_index ((s, out) ∷ l) =
    ap (λ r. (s, out) ∷ r) (push_interface-nothing if_index l)

wants_source-asks_for :
    (q : Querier) (gaddr : ℕ) (g : GaddrInfo) (s : ℕ)
    → lookup gaddr q.db.group_info ≡ some g
    → wants_source g s ≡ asks_for (get_group_membership_infos q gaddr) s
unfolding wants_source get_group_membership_infos contains find?
wants_source-asks_for q gaddr g s e = ground arith

suggest_known :
    (q : Querier) (gaddr : ℕ) (g : GaddrInfo) (accepts : ℕ → Bool) (l : ForwardList)
    → lookup gaddr q.db.group_info ≡ some g
    → q.db.is_querier ≡ true
    → suggest_to_forward_traffic q gaddr accepts l
      ≡ push_interface (λ s. wants_source g s && accepts s) q.world.if_index l
unfolding suggest_to_forward_traffic
suggest_known q gaddr g accepts l e h = ground arith

suggest_unknown :
    (q : Querier) (gaddr : ℕ) (accepts : ℕ → Bool) (l : ForwardList)
    → lookup gaddr q.db.group_info ≡ none
    → suggest_to_forward_traffic q gaddr accepts l ≡ l
unfolding suggest_to_forward_traffic
suggest_unknown q gaddr accepts l e = ground arith

asks_for_nothing :
    (q : Querier) (gaddr s : ℕ)
    → lookup gaddr q.db.group_info ≡ none
    → false ≡ asks_for (get_group_membership_infos q gaddr) s
unfolding get_group_membership_infos contains find?
asks_for_nothing q gaddr s e = ground arith

-- A querier on duty suggests its interface for exactly the sources that the interface filter lets
-- pass and that its answer to the aggregation asks for: the two functions agree, in every filter
-- mode, under backward compatibility and for a group with no entry.
pub suggest-agrees :
    (q : Querier) (gaddr : ℕ) (accepts : ℕ → Bool) (l : ForwardList)
    → q.db.is_querier ≡ true
    → suggest_to_forward_traffic q gaddr accepts l
      ≡ push_interface
          (λ s. asks_for (get_group_membership_infos q gaddr) s && accepts s)
          q.world.if_index
          l
suggest-agrees q gaddr accepts l h = elim (Option-cases (lookup gaddr q.db.group_info)) [
  | inl e ↦
      suggest_unknown q gaddr accepts l e
      ∙ push_interface-nothing q.world.if_index l
      ∙ push_interface-cong _ _ _ l (λ s. ap (λ b. b && accepts s) (asks_for_nothing q gaddr s e))
  | inr (g, e) ↦
      suggest_known q gaddr g accepts l e h
      ∙ push_interface-cong _ _ _ l
          (λ s. ap (λ b. b && accepts s) (wants_source-asks_for q gaddr g s e))
]
