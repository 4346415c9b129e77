-- ===== src/Base/Early.antt =====
-- A computation that ends early: a parser that throws an error code, a handler that returns a
-- response before its last line.
use mathlib.Core.Path.{◌≡◌, refl}
use mathlib.Core.Logic.{◌⊎◌, inl, inr}
use mathlib.Core.Bool.{Bool, true, false}
use mathlib.Core.Option.{Option, none, some}

pub data Result {ℓ κ} (E : Type ℓ) (A : Type κ) : Type (ℓ ⊔ κ) where
  ok : A → Result E A
  err : E → Result E A

abbrev pub ensure {κ} : {E : Type κ} → Bool → E → Result E (Unit {0})
ensure false early = err early
ensure true _ = ok tt

-- Ends with `e` where there is no value.
abbrev pub or_else {ℓ κ} : {E : Type ℓ} {A : Type κ} → Option A → E → Result E A
or_else none e = err e
or_else (some a) e = ok a

-- Ends with what `f` makes of the value, where there is one.
abbrev pub stop_at {ℓ κ} : {E : Type ℓ} {A : Type κ} → Option A → (A → E) → Result E (Unit {0})
stop_at none f = ok tt
stop_at (some a) f = err (f a)

abbrev pub map_err {ℓ κ μ} :
    {E : Type ℓ} {F : Type κ} {A : Type μ} → (E → F) → Result E A → Result F A
map_err f (ok a) = ok a
map_err f (err e) = err (f e)

-- The steps of a handler in their order; the first early end is the answer.
infixl 5 ◌>>=◌ ◌>>◌
abbrev pub ◌>>=◌ {μ ℓ κ} :
    {E : Type μ} {Before : Type ℓ} {After : Type κ}
    → Result E Before
    → (Before → Result E After)
    → Result E After
err early >>= rest = err early
ok value >>= rest = rest value

abbrev pub ◌>>◌ {μ κ} :
    {E : Type μ} {After : Type κ} → Result E (Unit {0}) → Result E After → Result E After
step >> rest = step >>= λ done. rest

pub Result-cases {ℓ κ} :
    {E : Type ℓ} {A : Type κ} (m : Result E A) → ((e : E) × (m ≡ err e)) ⊎ ((a : A) × (m ≡ ok a))
Result-cases (ok a) = inr (a, refl)
Result-cases (err e) = inl (e, refl)

-- What ran through has run through its first step.
pub >>=-eq-ok {μ ℓ κ} :
    {E : Type μ} {Before : Type ℓ} {After : Type κ} (step : Result E Before)
    (rest : Before → Result E After) {end : After}
    → (step >>= rest) ≡ ok end
    → (value : Before) × (step ≡ ok value) × (rest value ≡ ok end)
>>=-eq-ok (err early) rest h = cc
>>=-eq-ok (ok value) rest h = (value, refl, h)
