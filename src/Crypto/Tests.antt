-- ===== src/Crypto/Tests.antt =====
-- A toy platform for the examples: a box that carries its text in the open behind sixteen zeros, bytes
-- as unary marks, and a text as its characters' numbers.
use Prim.Native.Nat.{compare, Ordering}
use Prim.Native.Char.{Char, char, code, IsScalar}
use text.Mathlib.TextEquality.{Char-path}
use blocks_genesis_py.Prelude.{
  ℕ, zero, suc, String, true, [], ◌∷◌, ◌++◌, Option, none, some, ◌≡◌, refl, ap, arith,
}
use blocks_genesis_py.Prelude.Result.{ok}
use blocks_genesis_py.Prelude.Text.{is_blank}
use blocks_genesis_py.Crypto.{Bytes, Primitives, encrypt, decrypt}
use blocks_genesis_py.Crypto.Envelope.{decrypt-encrypt}

abbrev pub zeros : Bytes
zeros = 0 ∷ 0 ∷ 0 ∷ 0 ∷ 0 ∷ 0 ∷ 0 ∷ 0 ∷ 0 ∷ 0 ∷ 0 ∷ 0 ∷ 0 ∷ 0 ∷ 0 ∷ 0 ∷ []

abbrev skip : ℕ → Bytes → Bytes
skip zero bs = bs
skip (suc n) [] = []
skip (suc n) (b ∷ bs) = skip n bs

abbrev pub mark : ℕ → String → String
mark zero s = String.◌∷◌ "b" s
mark (suc n) s = String.◌∷◌ "a" (mark n s)

abbrev pub marks : Bytes → String
marks [] = ""
marks (n ∷ ns) = mark n (marks ns)

abbrev grown : Option Bytes → Option Bytes
grown none = none
grown (some []) = none
grown (some (n ∷ ns)) = some (suc n ∷ ns)

abbrev pushed : Option Bytes → Option Bytes
pushed none = none
pushed (some ns) = some (0 ∷ ns)

abbrev is_b : Ordering → Option Bytes → Option Bytes
is_b Ordering.eq rest = pushed rest
is_b _ rest = grown rest

abbrev unmark : String → Option Bytes
unmark String.[] = some []
unmark (String.◌∷◌ c s) = is_b (compare (code c) 98) (unmark s)

unmark-mark :
    (n : ℕ) (s : String) (ns : Bytes) → unmark s ≡ some ns → unmark (mark n s) ≡ some (n ∷ ns)
unmark-mark zero s ns h = rw h
unmark-mark (suc n) s ns h = rw (unmark-mark n s ns h)

pub unmark-marks : (ns : Bytes) → unmark (marks ns) ≡ some ns
unmark-marks [] = refl
unmark-marks (n ∷ ns) = unmark-mark n (marks ns) ns (unmark-marks ns)

mark_filled : (n : ℕ) (s : String) → is_blank (mark n s) ≡ true → ⊥
unfolding is_blank
mark_filled zero s h = absurd (ground arith)
mark_filled (suc n) s h = absurd (ground arith)

pub marks_filled : (ns : Bytes) → is_blank (marks ns) ≡ true → ns ≡ []
marks_filled [] h = refl
marks_filled (n ∷ ns) h = absurd (mark_filled n (marks ns) h)

abbrev pub numbers : String → Bytes
numbers String.[] = []
numbers (String.◌∷◌ c s) = code c ∷ numbers s

abbrev in_order :
    (n : ℕ) (a b c : Ordering)
    → compare n 55296 ≡ a
    → compare 57343 n ≡ b
    → compare n 1114112 ≡ c
    → Option Char
in_order n Ordering.lt b c p q r = some (char n (rw p tt))
in_order n _ Ordering.lt Ordering.lt p q r = some (char n (rw (p, q, r) tt))
in_order n _ _ _ p q r = none

in_order_lem :
    (n : ℕ) (v : IsScalar n) (a b c : Ordering) (p : compare n 55296 ≡ a) (q : compare 57343 n ≡ b)
    (r : compare n 1114112 ≡ c)
    → in_order n a b c p q r ≡ some (char n v)
in_order_lem n v Ordering.lt b c p q r = ap some (Char-path _ (char n v) refl)
in_order_lem n v Ordering.eq Ordering.lt Ordering.lt p q r = ap some (Char-path _ (char n v) refl)
in_order_lem n v Ordering.eq Ordering.lt Ordering.eq p q r = absurd (rw (p, q, r) at v)
in_order_lem n v Ordering.eq Ordering.lt Ordering.gt p q r = absurd (rw (p, q, r) at v)
in_order_lem n v Ordering.eq Ordering.eq c p q r = absurd (rw (p, q) at v)
in_order_lem n v Ordering.eq Ordering.gt c p q r = absurd (rw (p, q) at v)
in_order_lem n v Ordering.gt Ordering.lt Ordering.lt p q r = ap some (Char-path _ (char n v) refl)
in_order_lem n v Ordering.gt Ordering.lt Ordering.eq p q r = absurd (rw (p, q, r) at v)
in_order_lem n v Ordering.gt Ordering.lt Ordering.gt p q r = absurd (rw (p, q, r) at v)
in_order_lem n v Ordering.gt Ordering.eq c p q r = absurd (rw (p, q) at v)
in_order_lem n v Ordering.gt Ordering.gt c p q r = absurd (rw (p, q) at v)

abbrev char_of : ℕ → Option Char
char_of n = in_order n (compare n 55296) (compare 57343 n) (compare n 1114112) refl refl refl

char_of-code : (c : Char) → char_of (code c) ≡ some c
char_of-code (char n v) =
    in_order_lem n v (compare n 55296) (compare 57343 n) (compare n 1114112) refl refl refl

abbrev joined : Option Char → Option String → Option String
joined (some c) (some s) = some (String.◌∷◌ c s)
joined _ _ = none

abbrev letters : Bytes → Option String
letters [] = some ""
letters (n ∷ ns) = joined (char_of n) (letters ns)

pub letters-numbers : (s : String) → letters (numbers s) ≡ some s
letters-numbers String.[] = refl
letters-numbers (String.◌∷◌ c s) = rw (char_of-code c, letters-numbers s)

abbrev pub toy_crypto : Primitives
toy_crypto = record {
  sha256 = λ bs. bs;
  seal = λ key nonce plain. zeros ++ plain;
  unseal = λ key nonce sealed. some (skip 16 sealed);
  b64encode = marks;
  b64decode = unmark;
  utf8_encode = numbers;
  utf8_decode = letters;
  unseal-seal = λ key nonce plain. refl;
  length-seal = λ key nonce plain. omega arith;
  b64decode-encode = unmark-marks;
  b64encode_filled = marks_filled;
  utf8_decode-encode = letters-numbers;
}

abbrev pub nonce : Bytes
nonce = 1 ∷ 2 ∷ 3 ∷ 4 ∷ 5 ∷ 6 ∷ 7 ∷ 8 ∷ 9 ∷ 10 ∷ 11 ∷ 12 ∷ []

abbrev pub envelope : String
envelope = marks (1 ∷ (nonce ++ (zeros ++ numbers "s")))

decrypt-encrypt_example : decrypt toy_crypto envelope "salt" ≡ ok (some "s")
unfolding encrypt is_blank
decrypt-encrypt_example = decrypt-encrypt toy_crypto nonce "s" "salt" envelope refl refl
