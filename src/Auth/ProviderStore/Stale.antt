-- ===== src/Auth/ProviderStore/Stale.antt =====
-- How old the providers are that are served.
use blocks_genesis_py.Prelude.{
  ℕ, ◌+◌, ◌-◌, ◌≤◌, String, Bool, true, false, List, [], ◌∷◌, Option, none, some, leb, ◌==◌, eq_iff,
  ◌≡◌, ◌⊎◌, ◌∙◌, refl, sym, ap, subst, inl, inr, Bool-cases, arith,
}
use blocks_genesis_py.Prelude.Dict.{get, get-insert, get-pop}
use blocks_genesis_py.Prelude.Text.{is_blank}
use blocks_genesis_py.Auth.Provider.{ThirdPartyJwtProvider}
use blocks_genesis_py.Auth.ProviderStore.{
  Store, fresh, served, get_active, invalidate, Event, reads, drops, after,
}

-- Whether the event invalidates the tenant.
abbrev pub drops_it : String → Event → Bool
drops_it tenant_id (drops j) = j == tenant_id
drops_it tenant_id (reads j now later loaded) = false

-- Among the events, the latest first, a read has loaded the providers for the tenant and stored them at
-- the time, and the tenant was not invalidated since.
pub data LoadedIn (tenant_id : String) (providers : List ThirdPartyJwtProvider) (at : ℕ)
    : List Event → Type 0 where
  loads :
      (now : ℕ) (older : List Event)
      → get (after (reads tenant_id now at providers ∷ older)) tenant_id ≡ some (providers, at)
      → LoadedIn tenant_id providers at (reads tenant_id now at providers ∷ older)
  kept :
      (e : Event) (past : List Event)
      → drops_it tenant_id e ≡ false
      → LoadedIn tenant_id providers at past
      → LoadedIn tenant_id providers at (e ∷ past)

-- A tenant that is blank is no other.
blank_differs : (j t : String) → is_blank j ≡ true → is_blank t ≡ false → (j == t) ≡ false
blank_differs j t b n = elim (Bool-cases (j == t)) [
  | inl e ↦
      let same : j ≡ t = (eq_iff j t).0 e in
      let both : true ≡ false = sym b ∙ ap is_blank same ∙ n in cc
  | inr e ↦ e
]

module _ (t : String) (providers : List ThirdPartyJwtProvider) (at : ℕ) where
  invalidate-kept :
      (j : String) (store : Store)
      → is_blank t ≡ false
      → get (invalidate j store) t ≡ some (providers, at)
      → ((j == t) ≡ false) × (get store t ≡ some (providers, at))
  unfolding invalidate
  invalidate-kept j store n h = elim (Bool-cases (is_blank j)) [
    | inl b ↦ (blank_differs j t b n, rw b at h)
    | inr b ↦
        let left = sym (get-pop store j t) ∙ rw b at h in
        elim (Bool-cases (j == t)) [ inl e ↦ cc (rw e at left) | inr e ↦ (e, rw e at left) ]
  ]

  -- What a read leaves in the store: what was there, or what it has loaded.
  served-stored :
      (q : Option (List ThirdPartyJwtProvider)) (j : String) (later : ℕ)
      (loaded : List ThirdPartyJwtProvider) (store : Store)
      → get (served q later loaded j store).1 t ≡ some (providers, at)
      → (get store t ≡ some (providers, at)) ⊎ ((j ≡ t) × (loaded ≡ providers) × (later ≡ at))
  unfolding served
  served-stored (some ps) j later loaded store h = inl h
  served-stored none j later loaded store h =
      let put = sym (get-insert store j t (loaded, later)) ∙ h in
      elim (Bool-cases (j == t)) [
        | inl e ↦
            let there : ◌≡◌ {A = Option (List ThirdPartyJwtProvider × ℕ)} (some (loaded, later))
                (some (providers, at)) =
              rw e at put in
            let same : ◌≡◌ {A = List ThirdPartyJwtProvider × ℕ} (loaded, later) (providers, at) =
              cc in
            inr ((eq_iff j t).0 e, ap (λ x. x.0) same, ap (λ x. x.1) same)
        | inr e ↦ inl (rw e at put)
      ]

  get_active-stored :
      (j : String) (now later : ℕ) (loaded : List ThirdPartyJwtProvider) (store : Store)
      → get (get_active j now later loaded store).1 t ≡ some (providers, at)
      → (get store t ≡ some (providers, at)) ⊎ ((j ≡ t) × (loaded ≡ providers) × (later ≡ at))
  unfolding get_active
  get_active-stored j now later loaded store h = elim (Bool-cases (is_blank j)) [
    | inl b ↦ inl (rw b at h)
    | inr b ↦ served-stored (fresh (get store j) now) j later loaded store (rw b at h)
  ]

  after-LoadedIn :
      (past : List Event)
      → is_blank t ≡ false
      → get (after past) t ≡ some (providers, at)
      → LoadedIn t providers at past
  unfolding after
  after-LoadedIn [] n h = absurd (unfold get in cc)
  after-LoadedIn (drops j ∷ past) n h =
      let (other, there) = invalidate-kept j (after past) n h in
      kept (drops j) past other (after-LoadedIn past n there)
  after-LoadedIn (reads j now later loaded ∷ past) n h =
      elim (get_active-stored j now later loaded (after past) h) [
        | inl there ↦ kept (reads j now later loaded) past refl (after-LoadedIn past n there)
        | inr (p, q, r) ↦
            let same : reads j now later loaded ≡ reads t now at providers = cc in
            subst (λ e. LoadedIn t providers at (e ∷ past)) (sym same)
              (loads now past (subst (λ e. get (after (e ∷ past)) t ≡ some (providers, at)) same h))
      ]

-- The providers that are served: none without a tenant; else just loaded, or loaded for the tenant a
-- minute ago at most.
pub data Recent (past : List Event) (tenant_id : String) (now : ℕ)
    (loaded : List ThirdPartyJwtProvider) : List ThirdPartyJwtProvider → Type 0 where
  no_tenant : is_blank tenant_id ≡ true → Recent past tenant_id now loaded []
  just_loaded : is_blank tenant_id ≡ false → Recent past tenant_id now loaded loaded
  remembered :
      is_blank tenant_id ≡ false
      → (providers : List ThirdPartyJwtProvider) (at : ℕ) → LoadedIn tenant_id providers at past
      → now ≤ at + 60
      → Recent past tenant_id now loaded providers

served-Recent :
    (q : Option (List ThirdPartyJwtProvider × ℕ)) (t : String) (now later : ℕ)
    (loaded : List ThirdPartyJwtProvider) (past : List Event) (store : Store)
    → is_blank t ≡ false
    → ((v : List ThirdPartyJwtProvider × ℕ) → q ≡ some v → LoadedIn t v.0 v.1 past)
    → Recent past t now loaded (served (fresh q now) later loaded t store).0
unfolding served fresh
served-Recent none t now later loaded past store b h = just_loaded b
served-Recent (some (ps, at)) t now later loaded past store b h =
    elim (Bool-cases (leb (now - at) 60)) [
      | inl e ↦
          let m = h (ps, at) refl in
          let recent : now ≤ at + 60 = ground arith in rw e (remembered b ps at m recent)
      | inr e ↦ rw e (just_loaded b)
    ]

-- Whatever reads and invalidations came before, the providers that a read serves are those that it has
-- just loaded, or those that an earlier read has loaded for the same tenant and stored a minute ago at
-- most, and not invalidated since; without a tenant there are none.
pub get_active-Recent :
    (past : List Event) (t : String) (now later : ℕ) (loaded : List ThirdPartyJwtProvider)
    → Recent past t now loaded (get_active t now later loaded (after past)).0
unfolding get_active
get_active-Recent past t now later loaded = elim (Bool-cases (is_blank t)) [
  | inl b ↦ rw b (no_tenant b)
  | inr b ↦ rw b (
      served-Recent (get (after past) t) t now later loaded past (after past) b
        (λ v e. after-LoadedIn t v.0 v.1 past b e))
]
