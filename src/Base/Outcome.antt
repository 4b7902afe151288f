-- ===== src/Base/Outcome.antt =====
-- The outcome of code that may stop the process: `exit` is `log_fatal` followed by `exit(1)`, and
-- `fault` is behaviour that C leaves undefined, such as an access outside an array.
use mathlib.Core.Path.{◌≡◌, refl, ap, subst}
use mathlib.Core.Bool.{Bool, true, false}
use risc_v_microarchitecture.Base.Tests.{if◌then◌else◌, if-split}

pub data Run {ℓ} (A : Type ℓ) : Type ℓ where
  ok : A → Run A
  exit : Run A
  fault : Run A

infixl 5 ◌>>=◌
abbrev pub ◌>>=◌ {ℓ κ} : {A : Type ℓ} {B : Type κ} → Run A → (A → Run B) → Run B
ok a >>= f = f a
exit >>= f = exit
fault >>= f = fault

-- What gives a result in two parts gives one in the first, from which the second starts.
pub >>=-eq-ok {ℓ κ} :
    {A : Type ℓ} {B : Type κ} {last : B} (start : Run A) (next : A → Run B)
    → (start >>= next) ≡ ok last
    → (middle : A) × (next middle ≡ ok last) × (start ≡ ok middle)
>>=-eq-ok fault next h = cc
>>=-eq-ok exit next h = cc
>>=-eq-ok (ok a) next h = (a, h, refl)

-- Whether code gives a result, neither stopping the process nor faulting.
abbrev pub returns {ℓ} : {A : Type ℓ} → Run A → Bool
returns (ok a) = true
returns exit = false
returns fault = false

pub returns_lem {ℓ} : {A : Type ℓ} (m : Run A) → returns m ≡ true → (a : A) × (m ≡ ok a)
returns_lem (ok a) h = (a, refl)
returns_lem exit h = cc
returns_lem fault h = cc

pub returns->>= {ℓ κ} :
    {A : Type ℓ} {B : Type κ} (m : Run A) (f : A → Run B)
    → returns m ≡ true
    → ((a : A) → m ≡ ok a → returns (f a) ≡ true)
    → returns (m >>= f) ≡ true
returns->>= (ok a) f h k = k a refl
returns->>= exit f h k = cc
returns->>= fault f h k = cc

-- What holds of the result, where there is one.
pub record Ensures {ℓ κ} {A : Type ℓ} (P : A → Type κ) (m : Run A) : Type (ℓ ⊔ κ) where
  pub ensured : (a : A) → m ≡ ok a → P a

value_or {ℓ} : {A : Type ℓ} → A → Run A → A
value_or d (ok a) = a
value_or d exit = d
value_or d fault = d

pub Ensures-ok {ℓ κ} : {A : Type ℓ} (P : A → Type κ) (a : A) → P a → Ensures P (ok a)
unfolding value_or
Ensures-ok P a p = record { ensured = λ b e. subst P (ap (value_or a) e) p }

pub Ensures-exit {ℓ κ} : {A : Type ℓ} (P : A → Type κ) → Ensures P exit
Ensures-exit P = record { ensured = λ b e. absurd cc }

pub Ensures->>= {ℓ κ μ ν} :
    {A : Type ℓ} {B : Type κ} (P : A → Type μ) {Q : B → Type ν} {m : Run A} {f : A → Run B}
    → Ensures P m
    → ((a : A) → P a → Ensures Q (f a))
    → Ensures Q (m >>= f)
Ensures->>= P {Q} {m} {f} p k = record {
  ensured = λ b e. let (a, e₂, e₁) = >>=-eq-ok m f e in (k a (p.ensured a e₁)).ensured b e₂;
}

-- A bind whose first part promises nothing.
pub Ensures-then {ℓ κ ν} :
    {A : Type ℓ} {B : Type κ} {Q : B → Type ν} (m : Run A) (f : A → Run B)
    → ((a : A) → Ensures Q (f a))
    → Ensures Q (m >>= f)
Ensures-then m f k = record {
  ensured = λ b e. let (a, e₂, e₁) = >>=-eq-ok m f e in (k a).ensured b e₂;
}

pub Ensures-if {ℓ κ} :
    {A : Type ℓ} {P : A → Type κ} (b : Bool) (x y : Run A)
    → Ensures P x
    → Ensures P y
    → Ensures P (if b then x else y)
Ensures-if {P} b x y = if-split (Ensures P) b x y
