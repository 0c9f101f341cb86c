-- ===== src/Delegation/Tokens.antt =====
-- `DelegatedTokenProvider` of blocks_genesis/_delegation/token_provider.py, as its callers interleave.
-- A task runs without interruption from one `await` to the next. The two that can be waited at are the
-- grant's lock and the exchange. Lock objects are numbered as they are made, and a task keeps the one
-- it has got, whatever the table holds by then.
pub mod Owned
pub mod SingleFlight
pub mod Served
mod Tests
use blocks_genesis_py.Prelude.{
  ℕ, ◌+◌, ◌%◌, String, Bool, true, false, not, ◌&&◌, List, [], ◌∷◌, Option, none, some, nat_eq,
  if◌then◌else◌,
}
use blocks_genesis_py.Prelude.Dict.{Dict, get, insert, pop}
use blocks_genesis_py.Prelude.Text.{is_empty}
use blocks_genesis_py.Delegation.Exchange.{CachedToken, is_usable, Platform, Attempt, exchange}

abbrev pub sweep_interval_calls : ℕ
sweep_interval_calls = 64

-- Where a caller stands: before its call, waiting for a lock, exchanging under it, or back with a
-- token or none.
pub data Task : Type 0 where
  idle : Task
  waiting : (tenant_id delegation_id : String) (lock : ℕ) → Task
  exchanging : (tenant_id delegation_id : String) (lock : ℕ) → Task
  returned : Option String → Task

pub record Provider : Type 0 where
  pub tokens : Dict CachedToken
  pub locks : Dict ℕ
  pub call_count : ℕ
  -- the lock objects: which are held, and how many were made
  pub held : ℕ → Bool
  pub made : ℕ
  pub tasks : ℕ → Task

abbrev pub update {ℓ} : {A : Type ℓ} → (ℕ → A) → ℕ → A → ℕ → A
update f i a j = if nat_eq i j then a else f j

abbrev pub put_task : ℕ → Task → Provider → Provider
put_task i t s = record s { tasks = update s.tasks i t }

-- The access token of a cached token that can still be served.
unfoldable pub usable_token : Option CachedToken → ℕ → Option String
unfolding is_usable
usable_token none now = none
usable_token (some t) now = if is_usable t now then some t.access_token else none

-- `_sweep_expired`: every stale token goes, and with it its lock unless that is held.
lock_released : (ℕ → Bool) → String → Dict ℕ → Dict ℕ
lock_released held key locks = elim (get locks key) [
  | none ↦ locks
  | some l ↦ if held l then locks else pop locks key
]

sweep_tokens : Dict CachedToken → ℕ → Dict CachedToken
unfolding is_usable
sweep_tokens [] now = []
sweep_tokens ((k, t) ∷ ts) now =
    let rest = sweep_tokens ts now in if is_usable t now then (k, t) ∷ rest else rest

sweep_locks : Dict CachedToken → ℕ → (ℕ → Bool) → Dict ℕ → Dict ℕ
unfolding is_usable lock_released
sweep_locks [] now held locks = locks
sweep_locks ((k, t) ∷ ts) now held locks =
    sweep_locks ts now held (if is_usable t now then locks else lock_released held k locks)

unfoldable pub sweep_expired : ℕ → Provider → Provider
unfolding sweep_tokens sweep_locks
sweep_expired now s = record s {
  tokens = sweep_tokens s.tokens now;
  locks = sweep_locks s.tokens now s.held s.locks;
}

pub counted : ℕ → Provider → Provider
unfolding sweep_expired
counted now s =
    let c = s.call_count + 1 in
    if nat_eq (c % sweep_interval_calls) 0
    then sweep_expired now (record s { call_count = c })
    else record s { call_count = c }

-- What is done under a lock up to the exchange: a token that another caller has refreshed is served
-- and the lock released again, else the stale token goes and the exchange starts.
rechecked : ℕ → String → String → ℕ → Option String → Provider → Provider
rechecked i tenant_id delegation_id l (some t) s =
    put_task i (returned (some t)) (record s { held = update s.held l false })
rechecked i tenant_id delegation_id l none s =
    put_task i (exchanging tenant_id delegation_id l)
      (record s { held = update s.held l true; tokens = pop s.tokens delegation_id })

-- `async with lock`: a free lock is taken at once, here also where others wait for it.
locked : ℕ → String → String → ℕ → ℕ → Bool → Provider → Provider
unfolding rechecked usable_token
locked i tenant_id delegation_id now l true s = put_task i (waiting tenant_id delegation_id l) s
locked i tenant_id delegation_id now l false s =
    rechecked i tenant_id delegation_id l (usable_token (get s.tokens delegation_id) now) s

-- `self._locks.setdefault(delegation_id, asyncio.Lock())`
with_lock : ℕ → String → String → ℕ → Option ℕ → Provider → Provider
unfolding locked
with_lock i tenant_id delegation_id now (some l) s =
    locked i tenant_id delegation_id now l (s.held l) s
with_lock i tenant_id delegation_id now none s =
    locked i tenant_id delegation_id now s.made false
      (record s { locks = insert s.locks delegation_id s.made; made = s.made + 1 })

first_checked : ℕ → String → String → ℕ → Option String → Provider → Provider
unfolding with_lock
first_checked i tenant_id delegation_id now (some t) s = put_task i (returned (some t)) s
first_checked i tenant_id delegation_id now none s =
    with_lock i tenant_id delegation_id now (get s.locks delegation_id) s

-- A task that is waiting or exchanging cannot call.
abbrev pub is_free : Task → Bool
is_free idle = true
is_free (waiting t d l) = false
is_free (exchanging t d l) = false
is_free (returned r) = true

looked_up : ℕ → String → String → ℕ → ℕ → Provider → Provider
unfolding first_checked usable_token
looked_up i tenant_id delegation_id now later s =
    first_checked i tenant_id delegation_id later (usable_token (get s.tokens delegation_id) now) s

-- `get_token_async` up to its first wait, for the ambient grant and the context's tenant. The clock is
-- read before the lock, `now`, and under it, `later`.
unfoldable pub call : ℕ → Option String → String → ℕ → ℕ → Provider → Provider
unfolding counted looked_up
call i none tenant_id now later s = put_task i (returned none) s
call i (some delegation_id) tenant_id now later s =
    if is_empty delegation_id
    then put_task i (returned none) s
    else if is_empty tenant_id
    then put_task i (returned none) s
    else looked_up i tenant_id delegation_id now later (counted now s)

woken : ℕ → ℕ → Task → Provider → Provider
unfolding locked
woken i now (waiting tenant_id delegation_id l) s =
    locked i tenant_id delegation_id now l (s.held l) s
woken i now t s = s

-- The lock is released in any case.
settled : ℕ → String → ℕ → Option CachedToken → Provider → Provider
settled i delegation_id l none s =
    put_task i (returned none) (record s { held = update s.held l false })
settled i delegation_id l (some t) s =
    put_task i (returned (some t.access_token))
      (record s { held = update s.held l false; tokens = insert s.tokens delegation_id t })

finished : Platform → ℕ → Attempt → Task → Provider → Provider
unfolding settled exchange
finished p i a (exchanging tenant_id delegation_id l) s =
    settled i delegation_id l (exchange p a tenant_id delegation_id) s
finished p i a t s = s

unfoldable pub invalidate : String → Provider → Provider
invalidate delegation_id s =
    if is_empty delegation_id
    then s
    else record s { tokens = pop s.tokens delegation_id; locks = pop s.locks delegation_id }

-- What may happen next: a task calls, a waiting task is woken, an exchange comes to its end, a message
-- is settled.
pub data Event : Type 0 where
  calls : (task : ℕ) (grant : Option String) (tenant_id : String) (now later : ℕ) → Event
  wakes : (task now : ℕ) → Event
  ends : (task : ℕ) (attempt : Attempt) → Event
  settles : (grant : String) → Event

unfoldable pub step : Platform → Event → Provider → Provider
unfolding call woken finished invalidate
step p (calls i grant tenant_id now later) s =
    if is_free (s.tasks i) then call i grant tenant_id now later s else s
step p (wakes i now) s = woken i now (s.tasks i) s
step p (ends i a) s = finished p i a (s.tasks i) s
step p (settles grant) s = invalidate grant s

unfoldable pub run : Platform → List Event → Provider → Provider
unfolding step
run p [] s = s
run p (e ∷ es) s = run p es (step p e s)

abbrev pub new_provider : Provider
new_provider = record {
  tokens = [];
  locks = [];
  call_count = 0;
  held = λ l. false;
  made = 0;
  tasks = λ i. idle;
}
