-- ===== src/Aggregation/First.antt =====
-- `process_upstream_in_first` of mcproxy/src/proxy/simple_mc_proxy_routing.cpp: which upstream
-- interfaces a source of a downstream interface is named to.
use mcproxy.Base.{
  ℕ, zero, suc, ◌≡◌, refl, ◌∙◌, Bool, false, not, ◌&&◌, ◌||◌, List, [], ◌∷◌, ◌++◌, arith, length,
}
use mcproxy.SourceList.{find?, contains}
use mcproxy.SourceList.Members.{empty_contains}
use mcproxy.Protocol.{McFilter}
use mcproxy.Message.{key, Source}
use mcproxy.Aggregation.{
  Memberships, sort_out, process_upstream, process_upstream_in_first, SourceState, Downstream,
  Upstream,
}

-- The downstream interface names the source in its state.
abbrev pub names : Downstream → ℕ → Bool
names d saddr = contains key saddr d.state.source_list

-- An upstream that the source passes by: the output filter lets it out, the input filter does not
-- let it in.
abbrev pub passes_by : (ℕ → ℕ → Bool) → ℕ → Upstream → Bool
passes_by output saddr u = output u.if_index saddr && not (u.match_input_filter saddr)

abbrev pub stops_at : (ℕ → ℕ → Bool) → ℕ → Upstream → Bool
stops_at output saddr u = output u.if_index saddr && u.match_input_filter saddr

-- The source passes by every upstream of `before` and stops at `u`.
abbrev pub arrives : List Upstream → Upstream → ℕ → (ℕ → ℕ → Bool) → Bool
arrives [] u saddr output = stops_at output saddr u
arrives (v ∷ before) u saddr output = passes_by output saddr v && arrives before u saddr output

-- Some downstream interface whose filter mode satisfies `q` names the source, and its output filter
-- satisfies `p`.
abbrev pub any_named : (McFilter → Bool) → ((ℕ → ℕ → Bool) → Bool) → ℕ → List Downstream → Bool
any_named q p saddr [] = false
any_named q p saddr (d ∷ l) =
    (q d.state.mc_filter && (names d saddr && p d.match_output_filter)) || any_named q p saddr l

-- Some state whose filter mode satisfies `q` names the source.
abbrev pub any_state : (McFilter → Bool) → ℕ → List SourceState → Bool
any_state q saddr [] = false
any_state q saddr (s ∷ l) =
    (q s.mc_filter && contains key saddr s.source_list) || any_state q saddr l

-- The source stands in a state gathered for the upstream at place `n`, whose mode satisfies `q`.
abbrev pub gathered_at : (McFilter → Bool) → ℕ → ℕ → Memberships → Bool
gathered_at q n saddr [] = false
gathered_at q zero saddr ((i, l) ∷ rest) = any_state q saddr l
gathered_at q (suc n) saddr (x ∷ rest) = gathered_at q n saddr rest

sort_out_kept :
    (u : Upstream) (output : ℕ → Bool) (saddr : ℕ) (l : List Source)
    → contains key saddr (sort_out u output l).0
      ≡ (contains key saddr l && (output saddr && u.match_input_filter saddr))
unfolding sort_out contains find?
sort_out_kept u output saddr [] = refl
sort_out_kept u output saddr (s ∷ l) = ground (arith, sort_out_kept u output saddr l)

sort_out_passed :
    (u : Upstream) (output : ℕ → Bool) (saddr : ℕ) (l : List Source)
    → contains key saddr (sort_out u output l).1
      ≡ (contains key saddr l && (output saddr && not (u.match_input_filter saddr)))
unfolding sort_out contains find?
sort_out_passed u output saddr [] = refl
sort_out_passed u output saddr (s ∷ l) = ground (arith, sort_out_passed u output saddr l)

process_states :
    (q : McFilter → Bool) (u : Upstream) (saddr : ℕ) (l : List Downstream)
    → any_state q saddr (process_upstream u l).0
      ≡ any_named q (λ output. stops_at output saddr u) saddr l
unfolding process_upstream
process_states q u saddr [] = refl
process_states q u saddr (d ∷ l) = ground (
  arith,
  sort_out_kept u (d.match_output_filter u.if_index) saddr d.state.source_list,
  process_states q u saddr l,
)

process_rest :
    (q : McFilter → Bool) (u : Upstream) (p : (ℕ → ℕ → Bool) → Bool) (saddr : ℕ)
    (l : List Downstream)
    → any_named q p saddr (process_upstream u l).1
      ≡ any_named q (λ output. passes_by output saddr u && p output) saddr l
unfolding process_upstream
process_rest q u p saddr [] = refl
process_rest q u p saddr (d ∷ l) =
    let m = d.match_output_filter in
    let passed = (sort_out u (m u.if_index) d.state.source_list).1 in
    ground (
      arith,
      sort_out_passed u (m u.if_index) saddr d.state.source_list,
      empty_contains key saddr passed,
      process_rest q u p saddr l,
    )

-- In the order of the upstreams' priorities, for each set of filter modes: the states of these modes
-- that are gathered for an upstream name a source exactly if some downstream interface whose state has
-- one of these modes names it, and for that interface every earlier upstream was let out by the
-- interface's output filter and refused by the upstream's input filter, and this one passes both. So
-- each source that a downstream interface names is named, in a state of the same mode, to the first
-- upstream that takes it, and to none after an upstream that the output filter forbids.
pub first-gathered :
    (q : McFilter → Bool) (before after : List Upstream) (u : Upstream) (l : List Downstream)
    (saddr : ℕ)
    → gathered_at q (length before) saddr (process_upstream_in_first (before ++ u ∷ after) l)
      ≡ any_named q (arrives before u saddr) saddr l
unfolding process_upstream_in_first
first-gathered q [] after u l saddr = process_states q u saddr l
first-gathered q (v ∷ before) after u l saddr =
    first-gathered q before after u (process_upstream v l).1 saddr
    ∙ process_rest q v (arrives before u saddr) saddr l
