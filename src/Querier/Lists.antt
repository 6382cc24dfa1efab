-- ===== src/Querier/Lists.antt =====
-- How the assignments of mcproxy/src/proxy/querier.cpp to the two source lists of an entry keep them
-- disjoint sets, and which sources keep a timer.
use mcproxy.Base.{ℕ, ◌≡◌, ◌⊎◌, Bool, true, List, arith}
use mcproxy.SourceList.{find?, contains, union, inter, diff, IsSorted}
use mcproxy.SourceList.Laws.{
  find?-union, find?-diff, inter-Ascending, union-IsSorted, diff-IsSorted,
}
use mcproxy.SourceList.Members.{contains-union, contains-inter, contains-diff}
use mcproxy.Message.{key, Source}
use mcproxy.Membership.{GaddrInfo}
use mcproxy.World.{World}
use mcproxy.Querier.Actions.{mali_sources, send_q_sources}
use mcproxy.Querier.Effects.{
  contains-mali_sources, mali_sources-IsSorted, contains-send_q_sources, send_q_sources-IsSorted,
}
use mcproxy.Querier.Invariant.{HasTimer, Timed, IsUntouched, AreSets, IsFresh}
use mcproxy.Querier.Timed.{Untimed-inter, Untimed-diff, Untimed-fresh}

-- `X += A; Y -= A`
pub AreSets-allow : (x y a : List Source) → AreSets x y → AreSets (union key x a) (diff key y a)
AreSets-allow x y a v = record {
  include_sorted = union-IsSorted key x a v.include_sorted;
  exclude_sorted = diff-IsSorted key y a v.exclude_sorted;
  disjoint = λ j.
      ground
        (arith, contains-union key j x a v.include_sorted, contains-diff key j y a, v.disjoint j);
  untimed = Untimed-diff y a v.untimed;
}

-- `A *= B; Y = B - A`
pub AreSets-exclude :
    (x y b : List Source)
    → AreSets x y
    → IsFresh b
    → AreSets (inter key x b) (diff key b (inter key x b))
AreSets-exclude x y b v f = record {
  include_sorted = inter-Ascending key 0 x b v.include_sorted;
  exclude_sorted = diff-IsSorted key b (inter key x b) f.sorted;
  disjoint = λ j. ground (arith, contains-diff key j b (inter key x b));
  untimed = Untimed-diff b (inter key x b) (Untimed-fresh b f);
}

-- `X *= A; X += A - Y; Y *= A`
pub AreSets-narrow :
    (x y a : List Source)
    → AreSets x y
    → IsSorted key a
    → AreSets (union key (inter key x a) (diff key a y)) (inter key y a)
AreSets-narrow x y a v s = record {
  include_sorted = union-IsSorted key (inter key x a) (diff key a y) kept;
  exclude_sorted = inter-Ascending key 0 y a v.exclude_sorted;
  disjoint = λ j. ground (
    arith,
    contains-union key j (inter key x a) (diff key a y) kept,
    contains-inter key j x a v.include_sorted s,
    contains-inter key j y a v.exclude_sorted s,
    contains-diff key j a y,
    v.disjoint j,
  );
  untimed = Untimed-inter y a v.exclude_sorted s v.untimed;
}
  where
    kept : IsSorted key (inter key x a)
    kept = inter-Ascending key 0 x a v.include_sorted

-- `X += A - Y`
pub AreSets-block : (x y a : List Source) → AreSets x y → AreSets (union key x (diff key a y)) y
AreSets-block x y a v = record {
  include_sorted = union-IsSorted key x (diff key a y) v.include_sorted;
  exclude_sorted = v.exclude_sorted;
  disjoint = λ j. ground (
    arith,
    contains-union key j x (diff key a y) v.include_sorted,
    contains-diff key j a y,
    v.disjoint j,
  );
  untimed = v.untimed;
}

module _ (w : World) (gaddr : ℕ) where
  pub AreSets-mali_sources :
      (x y b : List Source) → AreSets x y → AreSets (mali_sources w gaddr x b).0 y
  AreSets-mali_sources x y b v = record {
    include_sorted = mali_sources-IsSorted w gaddr x b v.include_sorted;
    exclude_sorted = v.exclude_sorted;
    disjoint = λ j. ground (arith, contains-mali_sources w gaddr j x b, v.disjoint j);
    untimed = v.untimed;
  }

  pub AreSets-send_q_sources :
      (g : GaddrInfo) (tmp : List Source) (b : Bool)
      → AreSets g.include_requested_list g.exclude_list
      → AreSets (send_q_sources w gaddr g tmp b).0.include_requested_list g.exclude_list
  AreSets-send_q_sources g tmp b v = record {
    include_sorted = send_q_sources-IsSorted w gaddr g tmp b v.include_sorted;
    exclude_sorted = v.exclude_sorted;
    disjoint = λ j. ground (arith, contains-send_q_sources w gaddr j g tmp b, v.disjoint j);
    untimed = v.untimed;
  }

-- After `l += b` the sources of `l` have their timers, and the others are those of `b`.
pub Timed-union :
    (j : ℕ) (l b : List Source)
    → IsSorted key l
    → Timed l
    → HasTimer (find? key j (union key l b)) ⊎ (contains key j b ≡ true)
unfolding contains
Timed-union j l b s h = ground (arith, find?-union key j 0 l b s, h j)

-- After `l += A - Y` with an untouched `A`, a source without a timer is one of `A - Y`.
pub Timed-union_fresh :
    (j : ℕ) (l a y : List Source)
    → IsSorted key l
    → Timed l
    → IsFresh a
    → HasTimer (find? key j (union key l (diff key a y)))
      ⊎ (IsUntouched (find? key j (union key l (diff key a y)))
          × (contains key j (diff key a y) ≡ true))
unfolding contains
Timed-union_fresh j l a y s h f =
    ground (arith, find?-union key j 0 l (diff key a y) s, find?-diff key j a y, h j, f.untouched j)
