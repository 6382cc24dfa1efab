-- ===== src/Aggregation/Single.antt =====
-- `process_upstream_in_mutex` of mcproxy/src/proxy/simple_mc_proxy_routing.cpp: a source that is heard
-- is named to one upstream interface at most.
use mcproxy.Base.{ℕ, Bool, false, not, ◌&&◌, ◌||◌, List, [], ◌∷◌, if◌then◌else◌}
use mcproxy.Protocol.{McFilter}
use mcproxy.Message.{Source}
use mcproxy.Aggregation.{Memberships, Downstream, Upstream}
use mcproxy.Aggregation.First.{stops_at, any_named}
use mcproxy.Aggregation.Mutex.{clean_data, is_heard}
use mcproxy.Aggregation.Counts.{any_mode}

-- Some downstream interface names the source and it is let out to the upstream interface and in there.
abbrev pub takes : ℕ → Upstream → List Downstream → Bool
takes saddr u downs = any_named any_mode (λ output. stops_at output saddr u) saddr downs

abbrev pub any_takes : ℕ → List Upstream → List Downstream → Bool
any_takes saddr [] downs = false
any_takes saddr (u ∷ ups) downs = takes saddr u downs || any_takes saddr ups downs

-- The number of upstream interfaces, none or one, for which a state of a mode in `q` names a source that
-- is heard: each downstream interface hands it to the first upstream interface that takes it, and the
-- last of these upstream interfaces has it. `named r p` says whether a downstream interface of a mode
-- in `r` whose output filter satisfies `p` still has it, and `n` is the number from what was gathered.
abbrev pub last_named :
    ℕ
    → (McFilter → Bool)
    → Bool
    → List Upstream
    → ((McFilter → Bool) → ((ℕ → ℕ → Bool) → Bool) → Bool)
    → ℕ
    → ℕ
last_named saddr q up [] named n = n
last_named saddr q up (u ∷ ups) named n =
    last_named saddr q up ups (λ r p. named r (λ output. p output && not (stops_at output saddr u)))
      (if named any_mode (λ output. stops_at output saddr u)
        then (if named q (λ output. stops_at output saddr u) && up then 1 else 0)
        else n)

module _ (inputs : List (ℕ × ℕ)) (is_up : ℕ → Bool) (saddr i : ℕ) where
  abbrev accepts : Upstream → (ℕ → Bool) → ℕ → Bool
  accepts u output a = output a && u.match_input_filter a

  abbrev cleans : Upstream → (ℕ → Bool) → ℕ → Bool
  cleans u output a = accepts u output a && is_heard inputs a

  -- `m_data` behind one source.
  abbrev data_behind : Upstream → (ℕ → Bool) → Source → Memberships → Memberships
  data_behind u output s gathered =
      if cleans u output s.saddr then clean_data s.saddr gathered else gathered
