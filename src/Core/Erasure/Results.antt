-- ===== src/Core/Erasure/Results.antt =====
-- Results that may be failures (src/core/erasure.ts): how a successful one comes about.
use wildbloom.Prelude.{◌≡◌, refl, ap, Bool, true}
use wildbloom.Core.Erasure.{Failure, Result, ok, err, ◌>>=◌, guard}

pub ok_inj {ℓ} : {A : Type ℓ} (v w : A) → ok v ≡ ok w → v ≡ w
ok_inj v w h = cc h

pub err_not_ok {ℓ} : {A : Type ℓ} (e : Failure) (w : A) → err e ≡ ok w → ⊥
err_not_ok e w h = cc h

-- A chain succeeds only if its first part does.
pub >>=-eq-ok {ℓ κ} :
    {A : Type ℓ} {B : Type κ} (first : Result A) (next : A → Result B) {b : B}
    → (first >>= next) ≡ ok b
    → (a : A) × (first ≡ ok a) × (next a ≡ ok b)
>>=-eq-ok (err failure) next {b} h = absurd (err_not_ok failure b h)
>>=-eq-ok (ok value) next h = (value, refl, h)

pub guard-true : (b : Bool) (e : Failure) → b ≡ true → guard b e ≡ ok tt
guard-true b e h = ap (λ t. guard t e) h
