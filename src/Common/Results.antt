-- ===== src/Common/Results.antt =====
-- `Result<A, E>`, its `?` as the bind of a do block, and what an `Ok` says of the parts of one.
use mathlib.Core.Path.{◌≡◌, refl, ap}
use mathlib.Core.Bool.{Bool, true, false}
use mathlib.Core.Option.{Option, none, some}
use Prim.Native.Nat.{ℕ, ◌+◌, ◌*◌}
use ace_chain.Common.Tests.{ltb, if◌then◌else◌}
use ace_chain.Common.Words.{u64_max}

pub data Result {ℓ κ} (E : Type ℓ) (A : Type κ) : Type (ℓ ⊔ κ) where
  ok : A → Result E A
  err : E → Result E A

module _ {ℓ} {E : Type ℓ} where
  infixl 5 ◌>>=◌ ◌>>◌
  abbrev pub ◌>>=◌ {κ μ} : {A : Type κ} {B : Type μ} → Result E A → (A → Result E B) → Result E B
  ok a >>= f = f a
  err e >>= f = err e

  abbrev pub ◌>>◌ {κ} : {B : Type κ} → Result E (Unit {0}) → Result E B → Result E B
  m >> k = m >>= λ _. k

  -- A test that returns an error where it fails.
  abbrev pub guard : Bool → E → Result E (Unit {0})
  guard true e = ok tt
  guard false e = err e

  -- `ok_or`.
  abbrev pub ok_or {κ} : {A : Type κ} → Option A → E → Result E A
  ok_or none e = err e
  ok_or (some a) e = ok a

  -- `checked_add` and `checked_mul` of `u64` numbers.
  abbrev pub checked_add : E → ℕ → ℕ → Result E ℕ
  checked_add e a b = if ltb u64_max (a + b) then err e else ok (a + b)

  abbrev pub checked_mul : E → ℕ → ℕ → Result E ℕ
  checked_mul e a b = if ltb u64_max (a * b) then err e else ok (a * b)

  pub >>=-eq-ok {κ μ} :
      {A : Type κ} {B : Type μ} (m : Result E A) (f : A → Result E B) {b : B}
      → (m >>= f) ≡ ok b
      → (a : A) × (m ≡ ok a) × (f a ≡ ok b)
  >>=-eq-ok (ok a) f e = (a, refl, e)
  >>=-eq-ok (err x) f e = cc

  pub guard-eq-ok : (test : Bool) (x : E) → guard test x ≡ ok tt → test ≡ true
  guard-eq-ok true x e = refl
  guard-eq-ok false x e = cc

  pub ok_or-eq-ok {κ} : {A : Type κ} (o : Option A) (e : E) (a : A) → ok_or o e ≡ ok a → o ≡ some a
  ok_or-eq-ok none e a h = cc h
  ok_or-eq-ok (some b) e a h = let same : b ≡ a = cc h in ap some same
