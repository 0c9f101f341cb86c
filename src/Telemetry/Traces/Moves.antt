-- ===== src/Telemetry/Traces/Moves.antt =====
-- What a thread takes from the queue, and where it puts it.
use blocks_genesis_py.Prelude.{
  ℕ, ◌+◌, String, Bool, List, [], ◌∷◌, ◌++◌, not, filter, map, ltb, is_nil, if◌then◌else◌, ◌==◌,
  eq_iff, ◌≡◌, refl, ap, inl, inr, Bool-cases, either_way, arith,
}
use blocks_genesis_py.Prelude.Dict.{get, insert}
use blocks_genesis_py.Telemetry.Traces.Document.{SpanDocument}
use blocks_genesis_py.Telemetry.Traces.{
  Entry, Buffer, or_empty, buffered, size, entries, Shared, Position, at_test, at_get, filling,
  at_flush, draining, taking, at_last_flush, done, Taker, flushed, taken, turn,
}

-- How many entries pass a test.
unfoldable pub count : (Entry → Bool) → List Entry → ℕ
count p [] = 0
count p (e ∷ es) = let rest = count p es in if p e then rest + 1 else rest

pub count-append :
    (p : Entry → Bool) (xs ys : List Entry) → count p (xs ++ ys) ≡ count p xs + count p ys
unfolding count
count-append p [] ys = omega arith
count-append p (x ∷ xs) ys = ground (arith, count-append p xs ys)

count-filter :
    (p q : Entry → Bool) (xs : List Entry)
    → count p (filter q xs) + count p (filter (λ e. not (q e)) xs) ≡ count p xs
unfolding count
count-filter p q [] = omega arith
count-filter p q (x ∷ xs) = ground (arith, count-filter p q xs)

abbrev labelled : String → List SpanDocument → List Entry
labelled t docs = map (λ doc. (t, doc)) docs

count-labelled :
    (p : Entry → Bool) (t : String) (docs more : List SpanDocument)
    → count p (labelled t (docs ++ more)) ≡ count p (labelled t docs) + count p (labelled t more)
unfolding count
count-labelled p t [] more = omega arith
count-labelled p t (d ∷ docs) more = ground (arith, count-labelled p t docs more)

count-insert :
    (p : Entry → Bool) (t : String) (docs : List SpanDocument) (b : Buffer)
    → count p (entries (insert b t docs)) + count p (labelled t (or_empty (get b t)))
      ≡ count p (entries b) + count p (labelled t docs)
unfolding entries insert get or_empty count
count-insert p t docs [] = omega (arith, count-append p (labelled t docs) [])
count-insert p t docs ((j, old) ∷ b) = elim (Bool-cases (j == t)) [
  | inl e ↦
      let same : j ≡ t = (eq_iff j t).0 e in
      rw (e, ← same)
        (omega (
          arith,
          count-append p (labelled j docs) (entries b),
          count-append p (labelled j old) (entries b),
        ))
  | inr e ↦ rw e (
      omega (
        arith,
        count-append p (labelled j old) (entries (insert b t docs)),
        count-append p (labelled j old) (entries b),
        count-insert p t docs b,
      ))
]

count-buffered :
    (p : Entry → Bool) (e : Entry) (b : Buffer)
    → count p (entries (buffered e b)) ≡ count p (entries b) + count p (e ∷ [])
unfolding buffered
count-buffered p (t, d) b = omega (
  arith,
  count-insert p t (or_empty (get b t) ++ d ∷ []) b,
  count-labelled p t (or_empty (get b t)) (d ∷ []),
)

-- The entries that a thread and what the threads share hold between them.
abbrev pub total : (Entry → Bool) → Taker × Shared → ℕ
total p (t, s) =
    count p s.database + count p s.refused + count p (entries t.buffer) + count p s.queue

-- As much is held, of what was accepted before.
abbrev pub Moves : (Entry → Bool) → Shared → ℕ → Taker × Shared → Type 0
Moves p s n (t, s') = (total p (t, s') ≡ n) × (s'.accepted ≡ s.accepted)

taken-Moves :
    (p : Entry → Bool) (q : List Entry) (next else_next : Position) (t : Taker) (s : Shared)
    → s.queue ≡ q
    → Moves p s (total p (t, s)) (taken q next else_next t s)
unfolding taken
taken-Moves p [] next else_next t s e = (refl, refl)
taken-Moves p (x ∷ q) next else_next t s e =
    (omega (arith, count-buffered p x t.buffer, ap (count p) e, count-append p (x ∷ []) q), refl)

flushed-Moves :
    (p takes : Entry → Bool) (q : Position) (t : Taker) (s : Shared)
    → Moves p s (total p (t, s)) (record { position = q; buffer = [] }, flushed takes t.buffer s)
unfolding flushed entries count
flushed-Moves p takes q t s = (
  omega (
    arith,
    count-append p s.database (filter takes (entries t.buffer)),
    count-append p s.refused (filter (λ e. not (takes e)) (entries t.buffer)),
    count-filter p takes (entries t.buffer),
  ),
  refl,
)

pub turn-Moves :
    (p : Entry → Bool) (n : ℕ) (q : Position) (takes : Entry → Bool) (t : Taker) (s : Shared)
    → Moves p s (total p (t, s)) (turn n q takes t s)
unfolding turn
turn-Moves p n at_test takes t s = (refl, refl)
turn-Moves p n at_get takes t s = taken-Moves p s.queue filling at_flush t s refl
turn-Moves p n filling takes t s =
    either_way (Moves p s (total p (t, s))) (ltb (size t.buffer) n)
      (taken-Moves p s.queue filling at_flush t s refl) (refl, refl)
turn-Moves p n at_flush takes t s = flushed-Moves p takes at_test t s
turn-Moves p n draining takes t s = (refl, refl)
turn-Moves p n taking takes t s = taken-Moves p s.queue draining at_last_flush t s refl
turn-Moves p n at_last_flush takes t s = flushed-Moves p takes done t s
turn-Moves p n done takes t s = (refl, refl)

-- The buffer is empty before the first take and after the last flush.
abbrev pub RestsAt : Position → Buffer → Type 0
RestsAt at_test b = b ≡ []
RestsAt at_get b = b ≡ []
RestsAt done b = b ≡ []
RestsAt _ b = Unit

abbrev pub Rests : Taker → Type 0
Rests t = RestsAt t.position t.buffer

taken-Rests :
    (q : List Entry) (next else_next : Position) (t : Taker) (s : Shared)
    → ((b : Buffer) → RestsAt next b)
    → ((b : Buffer) → RestsAt else_next b)
    → Rests (taken q next else_next t s).0
unfolding taken
taken-Rests [] next else_next t s h k = k t.buffer
taken-Rests (x ∷ q) next else_next t s h k = h (buffered x t.buffer)

pub turn-Rests :
    (n : ℕ) (q : Position) (takes : Entry → Bool) (t : Taker) (s : Shared)
    → t.position ≡ q
    → Rests t
    → Rests (turn n q takes t s).0
unfolding turn
turn-Rests n at_test takes t s e h =
    let empty : RestsAt at_test t.buffer = rw e at h in
    either_way (λ (q : Position). RestsAt q t.buffer) s.is_stopped tt empty
turn-Rests n at_get takes t s e h = taken-Rests s.queue filling at_flush t s (λ b. tt) (λ b. tt)
turn-Rests n filling takes t s e h =
    either_way (λ (r : Taker × Shared). Rests r.0) (ltb (size t.buffer) n)
      (taken-Rests s.queue filling at_flush t s (λ b. tt) (λ b. tt)) tt
turn-Rests n at_flush takes t s e h = refl
turn-Rests n draining takes t s e h =
    either_way (λ (q : Position). RestsAt q t.buffer) (is_nil s.queue) tt tt
turn-Rests n taking takes t s e h =
    taken-Rests s.queue draining at_last_flush t s (λ b. tt) (λ b. tt)
turn-Rests n at_last_flush takes t s e h = refl
turn-Rests n done takes t s e h = h
