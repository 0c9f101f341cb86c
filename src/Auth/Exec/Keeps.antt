-- ===== src/Auth/Exec/Keeps.antt =====
-- Coroutines that leave the ambient context and claims as they are, whether they return or raise.
use blocks_genesis_py.Prelude.{Bool, true, false, ◌≡◌, refl, ◌∙◌, if◌then◌else◌}
use blocks_genesis_py.Prelude.Result.{Result, ok, err}
use blocks_genesis_py.Auth.Host.{World, AuthError, Exec}
use blocks_genesis_py.Auth.Exec.{◌>>=◌, resume, pure, raise, lift, gets, modify}

abbrev pub SameAmbient : World → World → Type 0
SameAmbient v w = (v.context ≡ w.context) × (v.auth_claims ≡ w.auth_claims)

pub record Keeps {A : Type 0} (m : Exec A) : Type 0 where
  pub at : (w : World) → SameAmbient (m w).1 w

module _ {A : Type 0} where
  pub Keeps-pure : (a : A) → Keeps (pure a)
  Keeps-pure a = record { at = λ w. (refl, refl) }

  pub Keeps-raise : (e : AuthError) → Keeps (raise {A = A} e)
  Keeps-raise e = record { at = λ w. (refl, refl) }

  pub Keeps-lift : (r : Result AuthError A) → Keeps (lift r)
  Keeps-lift r = record { at = λ w. (refl, refl) }

  pub Keeps-gets : (f : World → A) → Keeps (gets f)
  Keeps-gets f = record { at = λ w. (refl, refl) }

  pub Keeps-if : (b : Bool) (m n : Exec A) → Keeps m → Keeps n → Keeps (if b then m else n)
  Keeps-if true m n km kn = km
  Keeps-if false m n km kn = kn

pub Keeps-modify : (f : World → World) → ((w : World) → SameAmbient (f w) w) → Keeps (modify f)
Keeps-modify f h = record { at = h }

module _ {A B : Type 0} where
  Keeps-resume :
      (r : Result AuthError A × World) (k : A → Exec B)
      → ((a : A) → Keeps (k a))
      → SameAmbient (resume r k).1 r.1
  Keeps-resume (ok a, w) k h = (h a).at w
  Keeps-resume (err e, w) k h = (refl, refl)

  pub Keeps-bind :
      (m : Exec A) (k : A → Exec B) → Keeps m → ((a : A) → Keeps (k a)) → Keeps (m >>= k)
  Keeps-bind m k km kk = record {
    at = λ w. let (c, a) = Keeps-resume (m w) k kk in let (d, b) = km.at w in (c ∙ d, a ∙ b);
  }

pub ruleset keeps_rules =
    (Keeps-pure, Keeps-raise, Keeps-lift, Keeps-gets, Keeps-if, Keeps-bind, Keeps-modify)
