-- ===== src/Auth/Tests/Permission.antt =====
-- Examples of the access checks: one permission, which lets the role "admin" reach "orders".
use blocks_genesis_py.Prelude.{
  ℕ, ◌<◌, String, Bool, true, false, ◌&&◌, List, [], ◌∷◌, Option, none, some, ◌≡◌, refl, sym, ◌==◌,
  eq_iff, inl, arith, if◌then◌else◌,
}
use blocks_genesis_py.Prelude.Text.{is_blank}
use blocks_genesis_py.Auth.Permission.{
  Condition, resource_in, resource_with_roles, Counter, check_permission, check_standard_access,
  authorize_dependency,
}
use blocks_genesis_py.Auth.Permission.Granted.{
  Permission, SatisfiesAny, Counts, Authorized, authorize_dependency-Authorized,
}
use blocks_genesis_py.Auth.Tests.{toy_host, request, world, after, caller, accepted_run}

abbrev orders : Permission
orders = record { organization_id = "default"; resource = "orders"; roles = "admin" ∷ [] }

abbrev stored : String → List Permission
stored t = orders ∷ []

abbrev one_if : Bool → Option ℕ
one_if true = some 1
one_if false = none

abbrev any_count : List Condition → Option ℕ
any_count (resource_with_roles name (r ∷ []) ∷ []) = one_if (name == "orders" && r == "admin")
any_count _ = none

abbrev toy_count : Counter
toy_count t q = if q.organization_id == "default" then any_count q.any_of else none

any_count-one :
    (cs : List Condition) (n : ℕ) → any_count cs ≡ some n → (0 < n) × SatisfiesAny orders cs
any_count-one [] n h = cc
any_count-one (resource_in ps ∷ cs) n h = cc
any_count-one (resource_with_roles name [] ∷ cs) n h = cc
any_count-one (resource_with_roles name (r ∷ s ∷ rs) ∷ cs) n h = cc
any_count-one (resource_with_roles name (r ∷ []) ∷ c ∷ cs) n h = cc
any_count-one (resource_with_roles name (r ∷ []) ∷ []) n h =
    let both : (name == "orders" && r == "admin") ≡ true = ground arith in
    let named : name ≡ "orders" = (eq_iff name "orders").0 (ground arith) in
    let held : r ≡ "admin" = (eq_iff r "admin").0 (ground arith) in
    (ground arith, inl (sym named, ("admin", inl refl, inl (sym held))))

toy_count-Counts : Counts toy_count stored
toy_count-Counts t q n h =
    let same : q.organization_id ≡ "default" =
      (eq_iff q.organization_id "default").0 (ground arith) in
    let (p, s) = any_count-one q.any_of n (ground arith) in
    (λ _. (orders, inl refl, sym same, s), λ _. p)

authorize_dependency-Authorized_example :
    Authorized toy_count stored toy_count-Counts toy_host request world "orders" caller after
unfolding authorize_dependency check_standard_access check_permission is_blank
authorize_dependency-Authorized_example =
    authorize_dependency-Authorized toy_count stored toy_count-Counts toy_host request "orders"
      world caller after (rw accepted_run)
