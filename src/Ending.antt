-- ===== src/Ending.antt =====
-- How a call of the configuration's code ends: mcproxy/src/parser/scanner.cpp, parser.cpp and
-- configuration.cpp throw string literals.
use mcproxy.Base.{◌≡◌, refl, subst, Bool, true, false, Option, none, some, if◌then◌else◌}

-- The literals that are thrown.
pub data Failure : Type 0 where
  -- "failed to scan config file. Unsupported char"
  failed_to_scan : Failure
  -- "failed to parse config file"
  failed_to_parse : Failure
  -- "failed to parse configfile"
  failed_to_insert : Failure
  -- "mcproxy is disabled"
  is_disabled : Failure

-- `terminated`: `std::terminate` is called. `undefined`: the behaviour is undefined.
pub data Ending {ℓ} (A : Type ℓ) : Type ℓ where
  returned : A → Ending A
  thrown : Failure → Ending A
  terminated : Ending A
  undefined : Ending A
  out_of_fuel : Ending A

infixl 5 ◌>>=◌
abbrev pub ◌>>=◌ {ℓ κ} : {A : Type ℓ} {B : Type κ} → Ending A → (A → Ending B) → Ending B
returned a >>= f = f a
thrown e >>= f = thrown e
terminated >>= f = terminated
undefined >>= f = undefined
out_of_fuel >>= f = out_of_fuel

abbrev pub is_out_of_fuel {ℓ} : {A : Type ℓ} → Ending A → Bool
is_out_of_fuel out_of_fuel = true
is_out_of_fuel _ = false

-- A chain ends where its parts end.
pub >>=-ends {ℓ κ} :
    {A : Type ℓ} {B : Type κ} (m : Ending A) (f : A → Ending B)
    → is_out_of_fuel m ≡ false
    → ((a : A) → m ≡ returned a → is_out_of_fuel (f a) ≡ false)
    → is_out_of_fuel (m >>= f) ≡ false
>>=-ends (returned a) f h k = k a refl
>>=-ends (thrown e) f h k = refl
>>=-ends terminated f h k = refl
>>=-ends undefined f h k = refl
>>=-ends out_of_fuel f h k = h

pub >>=-eq-returned {ℓ κ} :
    {A : Type ℓ} {B : Type κ} (m : Ending A) (f : A → Ending B) {b : B}
    → (m >>= f) ≡ returned b
    → (a : A) × (m ≡ returned a) × (f a ≡ returned b)
>>=-eq-returned (returned a) f h = (a, refl, h)
>>=-eq-returned (thrown e) f h = cc
>>=-eq-returned terminated f h = cc
>>=-eq-returned undefined f h = cc
>>=-eq-returned out_of_fuel f h = cc

-- A call that returns has a result with `P`, and fuel is enough.
unfoldable pub Ends {ℓ} : {A : Type ℓ} → (A → Type 0) → Ending A → Type 0
Ends P (returned a) = P a
Ends P (thrown e) = Unit
Ends P terminated = Unit
Ends P undefined = Unit
Ends P out_of_fuel = ⊥

pub thrown-Ends {ℓ} : {A : Type ℓ} (P : A → Type 0) (e : Failure) → Ends P (thrown e)
unfolding Ends
thrown-Ends P e = tt

pub terminated-Ends {ℓ} : {A : Type ℓ} (P : A → Type 0) → Ends P terminated
unfolding Ends
terminated-Ends P = tt

pub undefined-Ends {ℓ} : {A : Type ℓ} (P : A → Type 0) → Ends P undefined
unfolding Ends
undefined-Ends P = tt

pub returned-Ends {ℓ} : {A : Type ℓ} (P : A → Type 0) (a : A) → P a → Ends P (returned a)
unfolding Ends
returned-Ends P a h = h

pub Ends-returned {ℓ} :
    {A : Type ℓ} (P : A → Type 0) (a : A) (m : Ending A) → Ends P m → m ≡ returned a → P a
unfolding Ends
Ends-returned P a m h e = subst (Ends P) (e) h

pub >>=-Ends {ℓ κ} :
    {A : Type ℓ} {B : Type κ} (P : A → Type 0) (Q : B → Type 0) (m : Ending A) (f : A → Ending B)
    → Ends P m
    → ((a : A) → P a → Ends Q (f a))
    → Ends Q (m >>= f)
unfolding Ends
>>=-Ends P Q (returned a) f h k = k a h
>>=-Ends P Q (thrown e) f h k = tt
>>=-Ends P Q terminated f h k = tt
>>=-Ends P Q undefined f h k = tt
>>=-Ends P Q out_of_fuel f h k = absurd h

pub if-Ends {ℓ} :
    {A : Type ℓ} (P : A → Type 0) (b : Bool) (m n : Ending A)
    → (b ≡ true → Ends P m)
    → (b ≡ false → Ends P n)
    → Ends P (if b then m else n)
unfolding Ends
if-Ends P true m n h k = h refl
if-Ends P false m n h k = k refl

pub Option-Ends {ℓ κ} :
    {A : Type ℓ} {B : Type κ} (P : B → Type 0) (o : Option A) (m : Ending B) (f : A → Ending B)
    → (o ≡ none → Ends P m)
    → ((a : A) → o ≡ some a → Ends P (f a))
    → Ends P (elim o [ none ↦ m | some a ↦ f a ])
unfolding Ends
Option-Ends P none m f h k = h refl
Option-Ends P (some a) m f h k = k a refl

pub Ends-map {ℓ} :
    {A : Type ℓ} (P Q : A → Type 0) (m : Ending A) → Ends P m → ((a : A) → P a → Q a) → Ends Q m
unfolding Ends
Ends-map P Q (returned a) h k = k a h
Ends-map P Q (thrown e) h k = tt
Ends-map P Q terminated h k = tt
Ends-map P Q undefined h k = tt
Ends-map P Q out_of_fuel h k = absurd h
