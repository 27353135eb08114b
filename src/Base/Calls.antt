-- ===== src/Base/Calls.antt =====
-- What a call of a C function comes to: it returns, or it goes wrong in a way that C does not define.
use mathlib.Core.Path.{◌≡◌, refl, subst}

pub data Fault : Type 0 where
  null_pointer : Fault
  read_out_of_bounds : Fault
  write_out_of_bounds : Fault
  use_after_free : Fault
  uninitialized_read : Fault
  assertion_failed : Fault
  deadlock : Fault

pub data Outcome {ℓ} (A : Type ℓ) : Type ℓ where
  done : A → Outcome A
  fault : Fault → Outcome A

infixl 5 ◌>>=◌ ◌>>◌
abbrev pub ◌>>=◌ {ℓ κ} : {A : Type ℓ} {B : Type κ} → Outcome A → (A → Outcome B) → Outcome B
done a >>= f = f a
fault e >>= f = fault e

abbrev pub ◌>>◌ {ℓ κ} : {A : Type ℓ} {B : Type κ} → Outcome A → Outcome B → Outcome B
m >> k = m >>= λ _. k

-- Inversion of a bind that returned.
pub >>=-eq-done {ℓ κ} :
    {A : Type ℓ} {B : Type κ} (m : Outcome A) (f : A → Outcome B) {b : B}
    → (m >>= f) ≡ done b
    → (a : A) × (m ≡ done a) × (f a ≡ done b)
>>=-eq-done (done a) f h = (a, refl, h)
>>=-eq-done (fault e) f h = cc

-- What holds of the result, if the call returns one.
abbrev pub IfDone {ℓ κ} : {A : Type ℓ} → (A → Type κ) → Outcome A → Type (ℓ ⊔ κ)
IfDone {A} P m = (a : A) → m ≡ done a → P a

pub IfDone-done {ℓ κ} : {A : Type ℓ} (P : A → Type κ) (x : A) → P x → IfDone P (done x)
IfDone-done P x p a e = subst P (cc) p

pub IfDone-bind {ℓ κ μ ν} :
    {A : Type ℓ} {B : Type κ} (P : A → Type μ) (Q : B → Type ν) (m : Outcome A) (f : A → Outcome B)
    → IfDone P m
    → ((a : A) → P a → IfDone Q (f a))
    → IfDone Q (m >>= f)
IfDone-bind P Q m f h k b e = let (a, runs, ends) = >>=-eq-done m f e in k a (h a runs) b ends

pub IfDone-after {ℓ κ ν} :
    {A : Type ℓ} {B : Type κ} (Q : B → Type ν) (m : Outcome A) (f : A → Outcome B)
    → ((a : A) → IfDone Q (f a))
    → IfDone Q (m >>= f)
IfDone-after Q m f k b e = let (a, runs, ends) = >>=-eq-done m f e in k a b ends
