-- ===== src/Buffer.antt =====
-- Bytes in memory: what mcproxy/src/proxy/igmp_receiver.cpp and mcproxy/src/proxy/mld_receiver.cpp
-- do with pointers into the buffer of a packet. `none`: a byte or a pointer outside of the buffer.
pub mod Written
use mcproxy.Base.{ℕ, zero, suc, ◌+◌, ◌*◌, Option, none, some, List, [], ◌∷◌}
use mcproxy.TimersValues.{TimersValues}
use mcproxy.World.{World}
use mcproxy.Querier.Records.{Querier}
use mcproxy.Querier.Invariant.{Timed}
use mcproxy.MessageQueue.{MessageQueue}
use mcproxy.Text.{Text}
use mcproxy.Addr.{Addr}
use mcproxy.Rules.{Table}
use mcproxy.Interface.{Interface}
use mcproxy.Token.{Token}
use mcproxy.Parser.{Parser}
use mcproxy.Configuration.{Configuration}

infixl 5 ◌>>=◌
abbrev pub ◌>>=◌ {ℓ κ} : {A : Type ℓ} {B : Type κ} → Option A → (A → Option B) → Option B
none >>= f = none
some a >>= f = f a

-- The buffer from a pointer that is moved up by `n` bytes.
unfoldable pub skip : ℕ → List ℕ → Option (List ℕ)
skip zero buf = some buf
skip (suc n) [] = none
skip (suc n) (b ∷ buf) = skip n buf

-- The buffer from a pointer that is moved up by `n` bytes where nothing is read: it may leave the buffer,
-- and no byte can be read behind it.
unfoldable pub advance : ℕ → List ℕ → List ℕ
advance zero buf = buf
advance (suc n) [] = []
advance (suc n) (b ∷ buf) = advance n buf

-- A number of `n` bytes in network byte order, behind the bytes that `acc` stands for, and the buffer
-- from its end.
unfoldable pub read_more : ℕ → ℕ → List ℕ → Option (ℕ × List ℕ)
read_more zero acc buf = some (acc, buf)
read_more (suc n) acc [] = none
read_more (suc n) acc (b ∷ buf) = read_more n (acc * 256 + b) buf

-- `ntohs` of two bytes, an `in_addr` of four, an `in6_addr` of sixteen.
abbrev pub read_number : ℕ → List ℕ → Option (ℕ × List ℕ)
read_number n buf = read_more n 0 buf

-- A predicate of what was read, where all of it was in the buffer.
abbrev pub Holds {ℓ} : {A : Type ℓ} → (A → Type 0) → Option A → Type 0
Holds P none = Unit
Holds P (some a) = P a

pub >>=-Holds {ℓ κ} :
    {A : Type ℓ} {B : Type κ} (Q : A → Type 0) (P : B → Type 0) (m : Option A) (f : A → Option B)
    → Holds Q m
    → ((a : A) → Q a → Holds P (f a))
    → Holds P (m >>= f)
>>=-Holds Q P none f h k = tt
>>=-Holds Q P (some a) f h k = k a h

-- Where the first value does not matter.
pub >>=-Holds_any {ℓ κ} :
    {A : Type ℓ} {B : Type κ} (P : B → Type 0) (m : Option A) (f : A → Option B)
    → ((a : A) → Holds P (f a))
    → Holds P (m >>= f)
>>=-Holds_any P none f k = tt
>>=-Holds_any P (some a) f k = k a
