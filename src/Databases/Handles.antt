-- ===== src/Databases/Handles.antt =====
-- Which database a handle stands for.
use blocks_genesis_py.Prelude.{
  ℕ, ◌<◌, String, ◌&&◌, List, [], ◌∷◌, Option, none, some, nat_eq, ◌==◌, eq_iff, if◌then◌else◌, ◌≡◌,
  refl, sym, subst, inl, inr, Bool-cases, either_way, arith,
}
use blocks_genesis_py.Prelude.Dict.{get, get-insert}
use blocks_genesis_py.Prelude.Text.{is_empty, or_text}
use blocks_genesis_py.Context.Record.{BlocksContext}
use blocks_genesis_py.Tenancy.Service.{Database, get_db_connection}
use blocks_genesis_py.Databases.{
  Handle, Pool, Found, found, raised, value_error, lookup, client_or_new, get_client, opened,
  handle_or_new, returned, get_database_by_connection, tenant_of, some_handle, connected_to, State,
  placed, get_database, Event, asks, recaches, run, new_state,
}

-- A handle of a database on a connection.
abbrev pub Opens : Pool → String → String → Handle → Type 0
Opens p connection name h = (p.connected h.client ≡ some connection) × (h.database_name ≡ name)

-- Every client is one of its connection, and every handle one of its key.
pub record IsPool (p : Pool) : Type 0 where
  pub client_of : (c : String) (k : ℕ) → get p.clients c ≡ some k → p.connected k ≡ some c
  pub client_made : (k : ℕ) (c : String) → p.connected k ≡ some c → k < p.made
  pub handle_of : (c n : String) (h : Handle) → lookup p.databases c n ≡ some h → Opens p c n h

not_raised : (h : Handle) → raised value_error ≡ found h → ⊥
not_raised h e = cc

none_found : (h : Handle) → found none ≡ found (some h) → ⊥
none_found h e = cc

nothing_found : (h : Handle) → raised value_error ≡ found (some h) → ⊥
nothing_found h e = cc

-- What is opened on a client stays open when another is made.
kept :
    (p : Pool) (k : ℕ) (c d : String)
    → IsPool p
    → p.connected k ≡ some c
    → (if nat_eq p.made k then some d else p.connected k) ≡ some c
kept p k c d h e = ground (arith, h.client_made k c)

client-IsPool :
    (c : String) (o : Option ℕ) (p : Pool)
    → get p.clients c ≡ o
    → IsPool p
    → let r = client_or_new c o p in
      IsPool r.1
      × (r.1.connected r.0 ≡ some c)
      × ((k : ℕ) (d : String) → p.connected k ≡ some d → r.1.connected k ≡ some d)
unfolding client_or_new
client-IsPool c (some k) p e h = (h, h.client_of c k e, λ j d f. f)
client-IsPool c none p e h = (
  record {
    client_of = λ d k f.
        ground
          (arith, get-insert p.clients c d p.made, eq_iff c d, h.client_of d k, h.client_made k d);
    client_made = λ k d f. ground (arith, h.client_made k d);
    handle_of = λ d n x f.
        let (stands, named) = h.handle_of d n x f in (kept p x.client d c h stands, named);
  },
  ground arith,
  λ k d f. kept p k d c h f,
)

opened-IsPool :
    (c n : String) (k : ℕ) (p : Pool)
    → IsPool p
    → p.connected k ≡ some c
    → let r = opened c n (k, p) in IsPool r.1 × Opens r.1 c n r.0
unfolding opened lookup
opened-IsPool c n k p h e = (
  record {
    client_of = h.client_of;
    client_made = h.client_made;
    handle_of = λ d m x f. elim (Bool-cases (c == d && n == m)) [
      | inl q ↦ (ground (arith, eq_iff c d, eq_iff n m), ground (arith, eq_iff n m))
      | inr q ↦ h.handle_of d m x (rw q at f)
    ];
  },
  (e, refl),
)

handle-IsPool :
    (c n : String) (o : Option Handle) (p : Pool)
    → lookup p.databases c n ≡ o
    → IsPool p
    → let r = handle_or_new c n o p in IsPool r.1 × Opens r.1 c n r.0
unfolding handle_or_new get_client
handle-IsPool c n (some x) p e h = (h, h.handle_of c n x e)
handle-IsPool c n none p e h =
    let r = get_client c p in
    let (pool, connected, _) = client-IsPool c (get p.clients c) p refl h in
    opened-IsPool c n r.0 r.1 pool connected

returned-Opens :
    (c n : String) (r : Handle × Pool) (h : Handle)
    → (returned r).0 ≡ found h
    → Opens r.1 c n r.0
    → Opens (returned r).1 c n h
unfolding returned
returned-Opens c n (x, p) h e o = let same : x ≡ h = ground arith in subst (Opens p c n) same o

connection-IsPool :
    (c n : String) (p : Pool) → IsPool p → IsPool (get_database_by_connection c n p).1
unfolding get_database_by_connection returned
connection-IsPool c n p h = elim (Bool-cases (is_empty c)) [
  | inl e ↦ rw e h
  | inr e ↦ elim (Bool-cases (is_empty n)) [
    | inl f ↦ rw (e, f) h
    | inr f ↦ rw (e, f) (handle-IsPool c n (lookup p.databases c n) p refl h).0
  ]
]

some_handle-pool : (r : Found Handle × Pool) → (some_handle r).1 ≡ r.1
unfolding some_handle
some_handle-pool (found h, p) = refl
some_handle-pool (raised e, p) = refl

connected_to-IsPool :
    (o : Option (String × String)) (p : Pool) → IsPool p → IsPool (connected_to o p).1
unfolding connected_to
connected_to-IsPool none p h = h
connected_to-IsPool (some (n, c)) p h =
    subst IsPool (sym (some_handle-pool (get_database_by_connection c n p)))
      (connection-IsPool c n p h)

get_database-IsPool :
    (database : Database) (t : String) (context : Option BlocksContext) (s : State)
    → IsPool s.pool
    → IsPool (get_database database t context s).1.pool
unfolding get_database placed
get_database-IsPool database t context s h =
    either_way (λ (r : Found (Option Handle) × State). IsPool r.1.pool)
      (is_empty (or_text t (tenant_of context))) h
      (connected_to-IsPool (get_db_connection database (or_text t (tenant_of context)) s.tenants).0
        s.pool h)

run-IsPool :
    (database : Database) (es : List Event) (s : State)
    → IsPool s.pool
    → IsPool (run database es s).pool
unfolding run
run-IsPool database [] s h = h
run-IsPool database (asks t c ∷ es) s h =
    run-IsPool database es (get_database database t c s).1 (get_database-IsPool database t c s h)
run-IsPool database (recaches ts ∷ es) s h = run-IsPool database es (record s { tenants = ts }) h

new_state-IsPool : IsPool new_state.pool
unfolding get lookup
new_state-IsPool = record {
  client_of = λ c k e. cc;
  client_made = λ k c e. cc;
  handle_of = λ c n h e. cc;
}

found_by_connection :
    (c n : String) (p : Pool) (h : Handle)
    → IsPool p
    → (get_database_by_connection c n p).0 ≡ found h
    → Opens (get_database_by_connection c n p).1 c n h
unfolding get_database_by_connection
found_by_connection c n p h v e = elim (Bool-cases (is_empty c)) [
  | inl b ↦ absurd (not_raised h (rw b at e))
  | inr b ↦ elim (Bool-cases (is_empty n)) [
    | inl f ↦ absurd (not_raised h (rw (b, f) at e))
    | inr f ↦
        let r = handle_or_new c n (lookup p.databases c n) p in
        rw (b, f)
          (returned-Opens c n r h (rw (b, f) at e)
            (handle-IsPool c n (lookup p.databases c n) p refl v).1)
  ]
]

some_handle-found :
    (r : Found Handle × Pool) (h : Handle) → (some_handle r).0 ≡ found (some h) → r.0 ≡ found h
unfolding some_handle
some_handle-found (found x, p) h e = cc
some_handle-found (raised x, p) h e = cc

-- A database that a place gives is the one of that place.
connected_to-Opens :
    (o : Option (String × String)) (p : Pool) (h : Handle)
    → IsPool p
    → (connected_to o p).0 ≡ found (some h)
    → (place : String × String) × (o ≡ some place) × Opens (connected_to o p).1 place.1 place.0 h
unfolding connected_to some_handle
connected_to-Opens none p h v e = absurd (nothing_found h e)
connected_to-Opens (some (n, c)) p h v e = (
  (n, c),
  refl,
  subst (λ q. Opens q c n h) (sym (some_handle-pool (get_database_by_connection c n p)))
      (found_by_connection c n p h v (some_handle-found (get_database_by_connection c n p) h e)),
)

asked-Opens :
    (database : Database) (t : String) (context : Option BlocksContext) (s : State) (h : Handle)
    → IsPool s.pool
    → (get_database database t context s).0 ≡ found (some h)
    → (place : String × String) × ((get_db_connection database
          (or_text t (tenant_of context))
          s.tenants).0
        ≡ some place)
      × Opens (get_database database t context s).1.pool place.1 place.0 h
unfolding get_database placed
asked-Opens database t context s h v e =
    elim (Bool-cases (is_empty (or_text t (tenant_of context)))) [
      | inl b ↦ absurd (none_found h (rw b at e))
      | inr b ↦
          let place = get_db_connection database (or_text t (tenant_of context)) s.tenants in
          rw b (connected_to-Opens place.0 s.pool h v (rw b at e))
    ]

-- Whatever was asked before and whichever tenants were cached: a database that a call gets is the one
-- that the tenant is placed at when it is asked for, by its name, on a client of the tenant's own
-- connection string; the tenant is the given one, else the context's.
pub get_database-Opens :
    (database : Database) (es : List Event) (t : String) (context : Option BlocksContext)
    (h : Handle)
    → let s = run database es new_state in
      let r = get_database database t context s in
      r.0 ≡ found (some h)
      → (place : String × String) × ((get_db_connection database
            (or_text t (tenant_of context))
            s.tenants).0
          ≡ some place)
        × Opens r.1.pool place.1 place.0 h
get_database-Opens database es t context h e =
    asked-Opens database t context (run database es new_state) h
      (run-IsPool database es new_state new_state-IsPool) e
