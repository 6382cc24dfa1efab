-- ===== src/ProxyStart/Reordered.antt =====
-- mcproxy/include/proxy/message_queue.hpp: the queue of a worker gives messages of one priority in any
-- order; what the messages that set an instance up are does not depend on it.
use mathlib.Core.List.{Permᴰ}
use mcproxy.Base.{
  ℕ, ◌≡◌, refl, sym, ap, subst, ◌∙◌, Bool, true, false, not, ◌&&◌, ◌||◌, Option, none, some, List,
  [], ◌∷◌, ◌++◌, arith, ◌==◌,
}
use mcproxy.ProxyInstance.{
  ConfigMsg, add_downstream, del_downstream, add_upstream, del_upstream, set_global_rule_binding,
}
use mcproxy.ProxyStart.Setup.{uses_priority, IsSetup, uses_priority-append}

abbrev Additive : (List ConfigMsg → Bool) → Type 0
Additive f = (a b : List ConfigMsg) → f (a ++ b) ≡ (f a || f b)

or_swap : (a b c : Bool) → (a || (b || c)) ≡ (b || (a || c))
or_swap true true c = refl
or_swap true false c = refl
or_swap false b c = refl

-- What is said of one message or another does not depend on the order.
pub same-reordered :
    (f : List ConfigMsg → Bool) (l l' : List ConfigMsg) → Additive f → Permᴰ l l' → f l ≡ f l'
same-reordered f _ _ h Permᴰ.nil = refl
same-reordered f _ _ h (Permᴰ.cons {a} {b} {l₁} {l₂} e p) =
    h (a ∷ []) l₁
    ∙ (ap (λ x. f (x ∷ []) || f l₁) e
        ∙ (ap (λ x. f (b ∷ []) || x) (same-reordered f l₁ l₂ h p) ∙ sym (h (b ∷ []) l₂)))
same-reordered f _ _ h (Permᴰ.swap {a} {b} {a'} {b'} {l} e e') =
    subst (λ x. f (a ∷ b ∷ l) ≡ f (a' ∷ x ∷ l)) e
      (subst (λ x. f (a ∷ b ∷ l) ≡ f (x ∷ a ∷ l)) e'
        ((h (a ∷ []) (b ∷ l) ∙ ap (λ x. f (a ∷ []) || x) (h (b ∷ []) l))
          ∙ (or_swap (f (a ∷ [])) (f (b ∷ [])) (f l)
              ∙ sym (h (b ∷ []) (a ∷ l) ∙ ap (λ x. f (b ∷ []) || x) (h (a ∷ []) l)))))
same-reordered f _ _ h (Permᴰ.trans p q) = same-reordered f _ _ h p ∙ same-reordered f _ _ h q

-- The priority that a message uses, and whether it is free of those of others.
abbrev priority_used : ConfigMsg → Option ℕ
priority_used (add_upstream k r) = some k
priority_used _ = none

abbrev is_same : Option ℕ → Option ℕ → Bool
is_same (some j) (some k) = k == j
is_same _ _ = false

abbrev is_free : Option ℕ → List ConfigMsg → Bool
is_free none l = true
is_free (some k) l = not (uses_priority k l)

is_same-sym : (o q : Option ℕ) → is_same o q ≡ is_same q o
is_same-sym none none = refl
is_same-sym none (some k) = refl
is_same-sym (some j) none = refl
is_same-sym (some j) (some k) = ground arith

is_free-cons :
    (o : Option ℕ) (m : ConfigMsg) (l : List ConfigMsg)
    → is_free o (m ∷ l) ≡ (not (is_same o (priority_used m)) && is_free o l)
is_free-cons none m l = refl
is_free-cons (some k) (add_upstream j r) l = ground arith
is_free-cons (some k) (add_downstream r tv) l = refl
is_free-cons (some k) (set_global_rule_binding rb) l = refl
is_free-cons (some k) (del_downstream i) l = refl
is_free-cons (some k) (del_upstream i) l = refl

split :
    (m : ConfigMsg) (l : List ConfigMsg)
    → IsSetup (m ∷ l)
    → IsSetup (m ∷ []) × ((is_free (priority_used m) l ≡ true) × IsSetup l)
unfolding IsSetup
split (add_upstream k r) l h = ((refl, tt), (ground (arith, h.0), h.1))
split (add_downstream r tv) l h = (tt, (refl, h))
split (set_global_rule_binding rb) l h = (tt, (refl, h))
split (del_downstream i) l h = absurd h
split (del_upstream i) l h = absurd h

join :
    (m : ConfigMsg) (l : List ConfigMsg)
    → IsSetup (m ∷ [])
    → is_free (priority_used m) l ≡ true
    → IsSetup l
    → IsSetup (m ∷ l)
unfolding IsSetup
join (add_upstream k r) l o f h = (ground (arith, f), h)
join (add_downstream r tv) l o f h = h
join (set_global_rule_binding rb) l o f h = h
join (del_downstream i) l o f h = absurd o
join (del_upstream i) l o f h = absurd o

is_free-reordered : (o : Option ℕ) (l l' : List ConfigMsg) → Permᴰ l l' → is_free o l ≡ is_free o l'
is_free-reordered none l l' p = refl
is_free-reordered (some k) l l' p =
    ap not (same-reordered (uses_priority k) l l' (uses_priority-append k) p)

IsSetup-swap : (a b : ConfigMsg) (l : List ConfigMsg) → IsSetup (a ∷ b ∷ l) → IsSetup (b ∷ a ∷ l)
IsSetup-swap a b l h =
    let (oa, (fa, hb)) = split a (b ∷ l) h in
    let (ob, (fb, hl)) = split b l hb in
    let apart = is_free-cons (priority_used a) b l in
    let apart' = is_free-cons (priority_used b) a l in
    let same = is_same-sym (priority_used a) (priority_used b) in
    join b (a ∷ l) ob (ground (arith, fa, fb, apart, apart', same))
      (join a l oa (ground (arith, fa, apart)) hl)

pub IsSetup-reordered : (l l' : List ConfigMsg) → Permᴰ l l' → IsSetup l → IsSetup l'
IsSetup-reordered _ _ Permᴰ.nil h = h
IsSetup-reordered _ _ (Permᴰ.cons {a} {b} {l₁} {l₂} e p) h =
    let (o, (f, r)) = split a l₁ h in
    subst (λ x. IsSetup (x ∷ l₂)) e
      (join a l₂ o (sym (is_free-reordered (priority_used a) l₁ l₂ p) ∙ f)
        (IsSetup-reordered l₁ l₂ p r))
IsSetup-reordered _ _ (Permᴰ.swap {a} {b} {a'} {b'} {l} e e') h =
    subst (λ x. IsSetup (a' ∷ x ∷ l)) e (subst (λ x. IsSetup (x ∷ a ∷ l)) e' (IsSetup-swap a b l h))
IsSetup-reordered _ _ (Permᴰ.trans p q) h = IsSetup-reordered _ _ q (IsSetup-reordered _ _ p h)
