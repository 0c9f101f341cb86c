-- ===== src/Telemetry/Traces/Document/Split.antt =====
-- How the attributes of a span are split.
use blocks_genesis_py.Prelude.{
  String, true, false, not, [], ◌∷◌, Option, none, some, if◌then◌else◌, ◌==◌, eq_iff, ◌≡◌, refl, ap,
  ◌∙◌, sym, inl, inr, Bool-cases, arith,
}
use text.Mathlib.TextEquality.{Char-path}
use text.Mathlib.TextLemmas.{nil-append, cons-append}
use blocks_genesis_py.Prelude.Dict.{Dict, get, insert, get-insert, get-keep_keys}
use blocks_genesis_py.Prelude.Text.{starts_with, drop, concat, len}
use blocks_genesis_py.Telemetry.Traces.Document.{Span, is_baggage, baggage_from, entry_of}

-- A text that starts with `p` is `p` and the rest.
starts_with-split : (p s : String) → starts_with s p ≡ true → s ≡ concat p (drop (len p) s)
unfolding starts_with drop len
starts_with-split String.[] s h = sym (nil-append s)
starts_with-split (String.◌∷◌ d p) String.[] h = cc
starts_with-split (String.◌∷◌ d p) (String.◌∷◌ c s) h =
    let same : c ≡ d = Char-path c d (ground arith) in
    rw (same, cons-append) (ap (λ t. String.◌∷◌ d t) (starts_with-split p s (ground arith)))

-- No key stands twice, as in every dictionary.
abbrev pub Distinct : Dict String → Type 0
Distinct [] = Unit
Distinct ((key, value) ∷ d) = (get d key ≡ none) × Distinct d

-- The value that is there, else the other.
abbrev or_else : Option String → Option String → Option String
or_else (some v) o = some v
or_else none o = o

-- Two baggage keys with one name are one key.
baggage_name-injective :
    (k j : String) → is_baggage k ≡ true → is_baggage j ≡ true → drop 8 k ≡ drop 8 j → k ≡ j
unfolding len
baggage_name-injective k j h g e =
    starts_with-split "baggage." k h
    ∙ ap (concat "baggage.") e
    ∙ sym (starts_with-split "baggage." j g)

other_name :
    (k j : String)
    → is_baggage k ≡ true
    → is_baggage j ≡ true
    → (k == j) ≡ false
    → (drop 8 k == drop 8 j) ≡ false
other_name k j h g e =
    ground (arith, eq_iff k j, eq_iff (drop 8 k) (drop 8 j), baggage_name-injective k j h g)

other_key : (k j : String) → is_baggage k ≡ false → is_baggage j ≡ true → (k == j) ≡ false
other_key k j h g = ground (arith, eq_iff k j, λ (e : k ≡ j). ap is_baggage e)

or_else-none : (o : Option String) → or_else o none ≡ o
or_else-none none = refl
or_else-none (some v) = refl

get-baggage_from :
    (attributes items : Dict String) (j : String)
    → Distinct attributes
    → is_baggage j ≡ true
    → get (baggage_from items attributes) (drop 8 j)
      ≡ or_else (get attributes j) (get items (drop 8 j))
unfolding baggage_from get
get-baggage_from [] items j h g = refl
get-baggage_from ((k, v) ∷ d) items j h g =
    let other = if is_baggage k then insert items (drop 8 k) v else items in
    get-baggage_from d other j h.1 g ∙ elim (Bool-cases (is_baggage k)) [
      | inl b ↦ elim (Bool-cases (k == j)) [
        | inl e ↦
            let same : k ≡ j = (eq_iff k j).0 e in
            let alone : get d j ≡ none = rw same at h.0 in
            rw (b, e, alone)
              (get-insert items (drop 8 k) (drop 8 j) v
                ∙ rw ((eq_iff _ _).1 (ap (drop 8) same)) refl)
        | inr e ↦
            rw (b, e)
              (ap (or_else (get d j))
                (get-insert items (drop 8 k) (drop 8 j) v ∙ rw (other_name k j b g e) refl))
      ]
      | inr b ↦ rw (b, other_key k j b g) refl
    ]

-- Of the attributes of a span, whose keys are distinct, the document has under `Attributes` those whose
-- key does not begin with "baggage.", with their values, and no other; of the others it has the value
-- under `Baggage`, by the rest of the key.
pub entry_of-attributes :
    (service_name : String) (span : Span) (key : String)
    → Distinct span.attributes
    → let doc = (entry_of service_name span).1 in
      (get doc.attributes key ≡ (if is_baggage key then none else get span.attributes key))
      × ((if is_baggage key then get doc.baggage (drop 8 key) else get doc.attributes key)
          ≡ get span.attributes key)
unfolding entry_of get
entry_of-attributes service_name span key h =
    let kept = get-keep_keys (λ k. not (is_baggage k)) span.attributes key in
    elim (Bool-cases (is_baggage key)) [
      | inl b ↦ (
        kept ∙ rw b refl,
        rw b (get-baggage_from span.attributes [] key h b ∙ or_else-none (get span.attributes key)),
      )
      | inr b ↦ (kept ∙ rw b refl, rw b (kept ∙ rw b refl))
    ]
