-- ===== src/Config/Parse/Outcomes.antt =====
-- What a result of parsing says of the steps before it.
use slopsentinel.Base.{Text, Bool, true, false, ◌≡◌, ◌≢◌, refl, subst}
use slopsentinel.Config.Parse.{Parsed, ok, config_error, ◌>>=◌, require}

IsError : {A : Type 0} → Parsed A → Type 0
IsError (ok a) = ⊥
IsError (config_error at) = Unit

pub not_error : {A : Type 0} (at : Text) (a : A) → config_error at ≢ ok a
unfolding IsError
not_error at a p = subst IsError p tt

pub ok_injective : {A : Type 0} (a b : A) → ok a ≡ ok b → a ≡ b
ok_injective a b p = cc

-- A result of two steps has a result of the first.
pub bind_ok :
    {A B : Type 0} (m : Parsed A) (f : A → Parsed B) (b : B)
    → (m >>= f) ≡ ok b
    → (a : A) × (m ≡ ok a) × (f a ≡ ok b)
unfolding ◌>>=◌
bind_ok (ok a) f b p = (a, refl, p)
bind_ok (config_error at) f b p = absurd (not_error at b p)

pub require_ok :
    {A : Type 0} (c : Bool) (at : Text) (m : Parsed A) (a : A)
    → require c at m ≡ ok a
    → (c ≡ true) × (m ≡ ok a)
unfolding require
require_ok true at m a p = (refl, p)
require_ok false at m a p = absurd (not_error at a p)
