-- ===== src/Auth/Exec.antt =====
-- The chaining of coroutines that share a world and may raise.
pub mod Keeps
use blocks_genesis_py.Prelude.{arith, ◌≡◌, refl}
use blocks_genesis_py.Prelude.Result.{Result, ok, err}
use blocks_genesis_py.Auth.Host.{World, AuthError, Exec}

abbrev pub resume {ℓ κ} :
    {A : Type ℓ} {B : Type κ}
    → Result AuthError A × World
    → (A → Exec B)
    → Result AuthError B × World
resume (ok a, w) k = k a w
resume (err e, w) k = (err e, w)

infixl 5 ◌>>=◌ ◌>>◌
abbrev pub ◌>>=◌ {ℓ κ} : {A : Type ℓ} {B : Type κ} → Exec A → (A → Exec B) → Exec B
◌>>=◌ m k w = resume (m w) k

abbrev pub ◌>>◌ {ℓ κ} : {A : Type ℓ} {B : Type κ} → Exec A → Exec B → Exec B
m >> n = m >>= λ _. n

abbrev pub pure {ℓ} : {A : Type ℓ} → A → Exec A
pure a w = (ok a, w)

abbrev pub raise {ℓ} : {A : Type ℓ} → AuthError → Exec A
raise e w = (err e, w)

abbrev pub lift {ℓ} : {A : Type ℓ} → Result AuthError A → Exec A
lift r w = (r, w)

abbrev pub gets {ℓ} : {A : Type ℓ} → (World → A) → Exec A
gets f w = (ok (f w), w)

abbrev pub modify : (World → World) → Exec (Unit {0})
modify f w = (ok tt, f w)

-- Inversion of a chain that returned.
pub resume-ok {ℓ κ} :
    {A : Type ℓ} {B : Type κ} (r : Result AuthError A × World) (k : A → Exec B) {b : B}
    → (resume r k).0 ≡ ok b
    → (a : A) × (r.0 ≡ ok a) × ((k a r.1).0 ≡ ok b)
resume-ok (ok a, w) k h = (a, refl, h)
resume-ok (err e, w) k h = cc

-- The same, with the worlds.
pub resume-returns {ℓ κ} :
    {A : Type ℓ} {B : Type κ} (r : Result AuthError A × World) (k : A → Exec B) {b : B}
    {after : World}
    → resume r k ≡ (ok b, after)
    → (a : A) × (between : World) × (r ≡ (ok a, between)) × (k a between ≡ (ok b, after))
resume-returns (ok a, w) k h = (a, w, refl, h)
resume-returns (err e, w) k h = absurd (ground arith)
