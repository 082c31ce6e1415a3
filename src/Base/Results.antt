-- ===== src/Base/Results.antt =====
-- The outcomes of C++ code: a value, an exception, or undefined behaviour.
use mathlib.Core.Path.{◌≡◌, refl}
use mathlib.Core.Option.{Option, none, some}

pub data Result {ℓ} (A : Type ℓ) : Type ℓ where
  undefined : Result A
  throws : Result A
  ok : A → Result A

-- `none` is undefined behaviour.
abbrev pub or_undefined {ℓ} : {A : Type ℓ} → Option A → Result A
or_undefined (some value) = ok value
or_undefined none = undefined

-- `none` is an exception.
abbrev pub or_throw {ℓ} : {A : Type ℓ} → Option A → Result A
or_throw (some value) = ok value
or_throw none = throws

infixl 5 ◌>>=◌
-- The code behind runs where there is a value.
abbrev pub ◌>>=◌ {ℓ κ} : {A : Type ℓ} {B : Type κ} → Result A → (A → Result B) → Result B
undefined >>= next = undefined
throws >>= next = throws
ok value >>= next = next value

-- The same outcome with functions that agree.
pub >>=_same {ℓ κ} :
    {A : Type ℓ} {B : Type κ} (outcome : Result A) (next other : A → Result B)
    → ((value : A) → next value ≡ other value)
    → (outcome >>= next) ≡ (outcome >>= other)
>>=_same undefined next other agree = refl
>>=_same throws next other agree = refl
>>=_same (ok value) next other agree = agree value

-- A chain is grouped either way.
pub >>=_assoc {ℓ} :
    {A B C : Type ℓ} (outcome : Result A) (next : A → Result B) (last : B → Result C)
    → (outcome >>= next >>= last) ≡ (outcome >>= λ value. next value >>= last)
>>=_assoc undefined next last = refl
>>=_assoc throws next last = refl
>>=_assoc (ok value) next last = refl

pub >>=_ok {ℓ} : {A : Type ℓ} (outcome : Result A) → (outcome >>= λ value. ok value) ≡ outcome
>>=_ok undefined = refl
>>=_ok throws = refl
>>=_ok (ok value) = refl

-- The parts of a chain that gives a value.
pub >>=-eq-ok {ℓ κ} :
    {A : Type ℓ} {B : Type κ} (outcome : Result A) (next : A → Result B) {value : B}
    → (outcome >>= next) ≡ ok value
    → (first : A) × (outcome ≡ ok first) × (next first ≡ ok value)
>>=-eq-ok undefined next e = cc
>>=-eq-ok throws next e = cc
>>=-eq-ok (ok first) next e = (first, refl, e)

pub ok_injective {ℓ} : {A : Type ℓ} {a b : A} → ok a ≡ ok b → a ≡ b
ok_injective e = cc
