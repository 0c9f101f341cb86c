-- ===== src/Auth/Certificate/Lifetime.antt =====
-- How long a tenant's certificate is cached.
use blocks_genesis_py.Prelude.{ℕ, ◌+◌, ◌*◌, ◌≤◌, ◌≡◌, ◌⊎◌, arith}
use blocks_genesis_py.Auth.Certificate.{day, cert_ttl}

-- A certificate is cached for a minute at least, and beyond that never past its validity.
pub cert_ttl_bounds :
    (now issued valid_days : ℕ)
    → (60 ≤ cert_ttl now issued valid_days)
      × ((cert_ttl now issued valid_days ≡ 60)
          ⊎ (now + cert_ttl now issued valid_days ≤ issued + valid_days * day))
unfolding cert_ttl
cert_ttl_bounds now issued valid_days = ground arith
