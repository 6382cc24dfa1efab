-- ===== src/Aggregation/Mutex.antt =====
-- mcproxy/src/proxy/simple_mc_proxy_routing.cpp: `process_upstream_in_mutex`. `inputs` has the
-- interfaces on which the sources of the group are heard, and `is_up` is `is_upstream` of the proxy
-- instance.
use mcproxy.Base.{
  ℕ, Bool, true, ◌&&◌, none, some, List, [], ◌∷◌, ◌++◌, if◌then◌else◌, is_some, is_empty,
}
use mcproxy.SourceList.{erase}
use mcproxy.MapOf.{lookup}
use mcproxy.Message.{key, Source}
use mcproxy.Aggregation.{Memberships, SourceState, Downstream, Upstream}

-- A source is erased from the states of an upstream interface, and states without sources with it.
unfoldable pub clean_states : ℕ → List SourceState → List SourceState
clean_states saddr [] = []
clean_states saddr (st ∷ l) =
    let rest = clean_states saddr l in
    let slist = erase key saddr st.source_list in
    if is_empty slist then rest else record st { source_list = slist } ∷ rest

-- "clean this->m_data"
unfoldable pub clean_data : ℕ → Memberships → Memberships
clean_data saddr [] = []
clean_data saddr ((i, states) ∷ data_rest) =
    (i, clean_states saddr states) ∷ clean_data saddr data_rest

-- What the loop over the sources of a downstream interface leaves: the sources for this upstream
-- interface, those that are handed on to the next, and `m_data`.
pub record Sorted : Type 0 where
  pub kept : List Source
  pub left : List Source
  pub gathered : Memberships

abbrev pub is_heard : List (ℕ × ℕ) → ℕ → Bool
is_heard inputs saddr = is_some (lookup saddr inputs)

module _ (inputs : List (ℕ × ℕ)) (is_up : ℕ → Bool) where
  -- A source that is heard is not handed on; it is kept if it is heard on an upstream interface.
  abbrev pub is_kept : ℕ → Bool
  is_kept saddr = elim (lookup saddr inputs) [ none ↦ true | some i ↦ is_up i ]

  unfoldable pub sort_sources : Upstream → (ℕ → Bool) → List Source → Memberships → Sorted
  sort_sources u output [] gathered = record { kept = []; left = []; gathered = gathered }
  sort_sources u output (s ∷ l) gathered =
      let accepted = output s.saddr && u.match_input_filter s.saddr in
      let cleaned = accepted && is_heard inputs s.saddr in
      let rest =
        sort_sources u output l (if cleaned then clean_data s.saddr gathered else gathered) in
      record {
        kept = if accepted && is_kept s.saddr then s ∷ rest.kept else rest.kept;
        left = if cleaned then rest.left else s ∷ rest.left;
        gathered = rest.gathered;
      }

  -- The loop over the downstream interfaces: the states for this upstream interface, the downstream
  -- interfaces that have sources left, and `m_data`.
  unfoldable pub sort_downstreams :
      Upstream → List Downstream → Memberships → List SourceState × (List Downstream × Memberships)
  sort_downstreams u [] gathered = ([], ([], gathered))
  sort_downstreams u (d ∷ l) gathered =
      let sorted = sort_sources u (d.match_output_filter u.if_index) d.state.source_list gathered in
      let rest = sort_downstreams u l sorted.gathered in
      (
        if is_empty sorted.kept
            then rest.0
            else record (d.state) { source_list = sorted.kept } ∷ rest.0,
        (
          if is_empty sorted.left
              then rest.1.0
              else record d { state = record (d.state) { source_list = sorted.left } } ∷ rest.1.0,
          rest.1.1,
        ),
      )

  -- The loop over the upstream interfaces, with `m_data`.
  unfoldable pub mutex_from : List Upstream → List Downstream → Memberships → Memberships
  mutex_from [] downs gathered = gathered
  mutex_from (u ∷ ups) downs gathered =
      let sorted = sort_downstreams u downs gathered in
      mutex_from ups sorted.1.0 (sorted.1.1 ++ ((u.if_index, sorted.0) ∷ []))

  unfoldable pub process_upstream_in_mutex : List Upstream → List Downstream → Memberships
  process_upstream_in_mutex ups downs = mutex_from ups downs []
