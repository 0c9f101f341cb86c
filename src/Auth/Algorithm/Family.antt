-- ===== src/Auth/Algorithm/Family.antt =====
-- A provider that passes `is_single_key_source` accepts the wire names of one family only.
use blocks_genesis_py.Prelude.{
  String, true, false, not, List, [], ◌∷◌, some, ◌≡◌, refl, ◌⊎◌, inl, inr, ◌↔◌, any, all, Elem,
  Elem-any, Elem-snoc, all-Elem, not_any-Elem, sym, ap, subst, ◌∙◌, ◌&&◌, Bool-cases, arith, ◌==◌,
  eq_iff,
}
use blocks_genesis_py.Prelude.Int.{pos}
use blocks_genesis_py.Prelude.Text.{is_empty}
use blocks_genesis_py.Auth.Algorithm.{
  JwtSigningAlgorithm, unspecified, of_int, to_int, is_unspecified, is_symmetric, to_wire_name,
  add_name, wire_names_from, to_wire_names, is_single_key_source,
}

-- The stored number of a member gives the member back.
pub of_int-to_int : (a : JwtSigningAlgorithm) → of_int (pos (to_int a)) ≡ some a
unfolding of_int to_int
of_int-to_int unspecified = refl
of_int-to_int _ = refl

-- The name is that of a listed algorithm other than UNSPECIFIED.
abbrev pub IsWireNameIn : List JwtSigningAlgorithm → String → Type 0
IsWireNameIn algorithms name =
    (a : JwtSigningAlgorithm) × Elem a algorithms
    × (is_unspecified a ≡ false)
    × (to_wire_name a ≡ name)

is_empty-wire_name : (a : JwtSigningAlgorithm) → is_empty (to_wire_name a) ≡ is_unspecified a
unfolding to_wire_name
is_empty-wire_name unspecified = refl
is_empty-wire_name _ = refl

module _ (names : List String) (name n : String) where
  add_name_sound :
      Elem n (add_name names name) → Elem n names ⊎ ((n ≡ name) × (is_empty name ≡ false))
  unfolding add_name
  add_name_sound h = elim (Bool-cases (not (is_empty name) && not (any (λ m. m == name) names))) [
    | inl e ↦ elim ((Elem-snoc n names name).0 (rw e at h)) [
      | inl m ↦ inl m
      | inr q ↦ inr (q, ground arith)
    ]
    | inr e ↦ inl (rw e at h)
  ]

  add_name_complete :
      Elem n names ⊎ ((n ≡ name) × (is_empty name ≡ false)) → Elem n (add_name names name)
  unfolding add_name
  add_name_complete h =
      elim (Bool-cases (not (is_empty name) && not (any (λ m. m == name) names))) [
        | inl e ↦ rw e ((Elem-snoc n names name).1 (elim h [ inl m ↦ inl m | inr q ↦ inr q.0 ]))
        | inr e ↦ rw e (elim h [
          | inl m ↦ m
          | inr (q, filled) ↦
              let (m, listed, same) = Elem-any (λ m. m == name) names (ground arith) in
              subst (λ x. Elem x names) ((eq_iff m name).0 same ∙ sym q) listed
        ])
      ]

IsWireNameIn-cons :
    (a : JwtSigningAlgorithm) (rest : List JwtSigningAlgorithm) (n : String)
    → IsWireNameIn (a ∷ rest) n
    → ((n ≡ to_wire_name a) × (is_empty (to_wire_name a) ≡ false)) ⊎ IsWireNameIn rest n
IsWireNameIn-cons a rest n (b, inl e, known, named) =
    inl (sym named ∙ ap to_wire_name e, is_empty-wire_name a ∙ sym (ap is_unspecified e) ∙ known)
IsWireNameIn-cons a rest n (b, inr m, known, named) = inr (b, m, known, named)

wire_names_from_sound :
    (names : List String) (algorithms : List JwtSigningAlgorithm) (n : String)
    → Elem n (wire_names_from names algorithms)
    → Elem n names ⊎ IsWireNameIn algorithms n
unfolding wire_names_from
wire_names_from_sound names [] n h = inl h
wire_names_from_sound names (a ∷ rest) n h =
    elim (wire_names_from_sound (add_name names (to_wire_name a)) rest n h) [
      | inl m ↦ elim (add_name_sound names (to_wire_name a) n m) [
        | inl k ↦ inl k
        | inr (e, filled) ↦ inr (a, inl refl, sym (is_empty-wire_name a) ∙ filled, sym e)
      ]
      | inr (b, m, known, named) ↦ inr (b, inr m, known, named)
    ]

wire_names_from_complete :
    (names : List String) (algorithms : List JwtSigningAlgorithm) (n : String)
    → Elem n names ⊎ IsWireNameIn algorithms n
    → Elem n (wire_names_from names algorithms)
unfolding wire_names_from
wire_names_from_complete names [] n (inl h) = h
wire_names_from_complete names [] n (inr w) = absurd w.1
wire_names_from_complete names (a ∷ rest) n h =
    wire_names_from_complete (add_name names (to_wire_name a)) rest n (elim h [
      | inl m ↦ inl (add_name_complete names (to_wire_name a) n (inl m))
      | inr w ↦ elim (IsWireNameIn-cons a rest n w) [
        | inl q ↦ inl (add_name_complete names (to_wire_name a) n (inr q))
        | inr later ↦ inr later
      ]
    ])

-- The names handed to validation are exactly those of the configured algorithms other than
-- UNSPECIFIED.
pub to_wire_names_iff :
    (algorithms : List JwtSigningAlgorithm) (n : String)
    → Elem n (to_wire_names (some algorithms)) ↔ IsWireNameIn algorithms n
unfolding to_wire_names
to_wire_names_iff algorithms n = (
  λ h. elim (wire_names_from_sound [] algorithms n h) [ inl m ↦ absurd m | inr w ↦ w ],
  λ w. wire_names_from_complete [] algorithms n (inr w),
)

-- If the algorithms have a single key source, then every listed one is of the first one's family.
pub single_key_source-family :
    (a b : JwtSigningAlgorithm) (rest : List JwtSigningAlgorithm)
    → is_single_key_source (some (a ∷ rest)) ≡ true
    → Elem b (a ∷ rest)
    → is_symmetric b ≡ is_symmetric a
unfolding is_single_key_source
single_key_source-family a b rest h m = elim (Bool-cases (all is_symmetric (a ∷ rest))) [
  | inl e ↦
      all-Elem is_symmetric b (a ∷ rest) e m ∙ sym (all-Elem is_symmetric a (a ∷ rest) e (inl refl))
  | inr e ↦
      let one : any is_symmetric (a ∷ rest) ≡ false = ground arith in
      not_any-Elem is_symmetric b (a ∷ rest) one m
      ∙ sym (not_any-Elem is_symmetric a (a ∷ rest) one (inl refl))
]

-- Where the algorithms have a single key source, every name that validation accepts is the name of
-- an algorithm of the first one's family: symmetric if that is, and asymmetric if it is not.
pub single_key_source-wire_names :
    (a : JwtSigningAlgorithm) (rest : List JwtSigningAlgorithm) (n : String)
    → is_single_key_source (some (a ∷ rest)) ≡ true
    → Elem n (to_wire_names (some (a ∷ rest)))
    → (b : JwtSigningAlgorithm) × (to_wire_name b ≡ n) × (is_symmetric b ≡ is_symmetric a)
single_key_source-wire_names a rest n single m =
    let (b, listed, known, named) = (to_wire_names_iff (a ∷ rest) n).0 m in
    (b, named, single_key_source-family a b rest single listed)
