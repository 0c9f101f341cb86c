-- ===== src/Prelude/Text.antt =====
-- The operations of Python's `str` that the program uses, on a text as its characters.
use Prim.Native.Nat.{ℕ, zero, suc, ◌-◌}
use Prim.Native.Char.{Char, code}
use Prim.Native.String.{String, [], ◌∷◌, ◌++◌}
use mathlib.Core.Path.{◌≡◌, refl}
use mathlib.Core.Bool.{Bool, true, false, ◌&&◌, ◌||◌}
use mathlib.Core.Logic.{◌↔◌}
use mathlib.Core.List.{List}
use native.Mathlib.Omega.{arith}
use text.Mathlib.TextLemmas.{cons-ne-nil}
use blocks_genesis_py.Prelude.Tests.{leb, nat_eq, if◌then◌else◌}

-- `str.isspace` of one character.
is_space : ℕ → Bool
is_space c =
    (leb 9 c && leb c 13)
    || (leb 28 c && leb c 32)
    || nat_eq c 133
    || nat_eq c 160
    || nat_eq c 5760
    || (leb 8192 c && leb c 8202)
    || nat_eq c 8232
    || nat_eq c 8233
    || nat_eq c 8239
    || nat_eq c 8287
    || nat_eq c 12288

-- `not s`
abbrev pub is_empty : String → Bool
is_empty [] = true
is_empty (c ∷ s) = false

-- `not s.strip()`
unfoldable pub is_blank : String → Bool
unfolding is_space
is_blank [] = true
is_blank (c ∷ s) = is_space (code c) && is_blank s

lstrip : String → String
lstrip [] = []
lstrip (c ∷ s) = let rest = lstrip s in if is_space (code c) then rest else c ∷ s

rstrip : String → String
rstrip [] = []
rstrip (c ∷ s) = let rest = rstrip s in if is_space (code c) && is_empty rest then [] else c ∷ rest

-- `s.strip()`
unfoldable pub strip : String → String
unfolding lstrip rstrip is_space
strip s = rstrip (lstrip s)

-- The character that stands in `to` where `c` stands in `from`, and `c` itself otherwise.
translate : String → String → Char → Char
translate (u ∷ us) (l ∷ ls) c =
    let rest = translate us ls c in if nat_eq (code u) (code c) then l else rest
translate _ _ c = c

-- `s.lower()`, on the letters of ASCII; every other character stays.
unfoldable pub lower : String → String
unfolding translate
lower [] = []
lower (c ∷ s) = translate "ABCDEFGHIJKLMNOPQRSTUVWXYZ" "abcdefghijklmnopqrstuvwxyz" c ∷ lower s

-- `s.startswith(p)`
unfoldable pub starts_with : String → String → Bool
starts_with s [] = true
starts_with [] (d ∷ p) = false
starts_with (c ∷ s) (d ∷ p) = nat_eq (code c) (code d) && starts_with s p

-- `p in s`
unfoldable pub contains : String → String → Bool
unfolding starts_with
contains [] p = starts_with [] p
contains (c ∷ s) p = starts_with (c ∷ s) p || contains s p

-- `s[n:]`
unfoldable pub drop : ℕ → String → String
drop zero s = s
drop (suc n) [] = []
drop (suc n) (c ∷ s) = drop n s

prepend : Char → List String → List String
prepend c List.[] = List.◌∷◌ (c ∷ []) List.[]
prepend c (List.◌∷◌ w ws) = List.◌∷◌ (c ∷ w) ws

-- `s.split(sep)` for a separator of one character.
unfoldable pub split : ℕ → String → List String
unfolding prepend
split sep [] = List.◌∷◌ [] List.[]
split sep (c ∷ s) =
    let rest = split sep s in if nat_eq (code c) sep then List.◌∷◌ [] rest else prepend c rest

-- `len(s)`
unfoldable pub len : String → ℕ
len [] = 0
len (c ∷ s) = suc (len s)

-- `all(p(c) for c in s)`, by the character's number.
unfoldable pub all_chars : (ℕ → Bool) → String → Bool
all_chars p [] = true
all_chars p (c ∷ s) = p (code c) && all_chars p s

pub is_empty_iff : (s : String) → (is_empty s ≡ true) ↔ (s ≡ "")
is_empty_iff [] = (λ _. refl, λ _. refl)
is_empty_iff (c ∷ s) = (λ e. cc e, λ e. absurd (cons-ne-nil c s e))

-- A blank text is one of which stripping leaves nothing.
is_blank-lstrip : (s : String) → is_blank s ≡ is_empty (lstrip s)
unfolding is_blank lstrip
is_blank-lstrip [] = refl
is_blank-lstrip (c ∷ s) = ground (arith, is_blank-lstrip s)

-- `a or b`
abbrev pub or_text : String → String → String
or_text a b = if is_empty a then b else a

-- `a + b`
abbrev pub concat : String → String → String
concat a b = ◌++◌ a b

-- `s` without the occurrences of `p`, from the left; `skip` characters of one are still to be
-- dropped.
remove_from : String → ℕ → String → String
remove_from p skip [] = []
remove_from p (suc skip) (c ∷ s) = remove_from p skip s
remove_from p zero (c ∷ s) =
    let rest = remove_from p (len p - 1) s in
    let kept = c ∷ remove_from p 0 s in if starts_with (c ∷ s) p then rest else kept

-- `s.replace(p, "")`, for a `p` that is not empty.
unfoldable pub remove : String → String → String
unfolding remove_from starts_with len
remove p s = remove_from p 0 s

first : List String → String
first List.[] = ""
first (List.◌∷◌ w ws) = w

-- `s.split(sep)[0]`
unfoldable pub before : ℕ → String → String
unfolding first split
before sep s = first (split sep s)

-- The character is one of the text.
is_one_of : ℕ → String → Bool
is_one_of c [] = false
is_one_of c (d ∷ s) = nat_eq c (code d) || is_one_of c s

-- `s.rstrip(chars)`
unfoldable pub rstrip_of : String → String → String
unfolding is_one_of
rstrip_of chars [] = []
rstrip_of chars (c ∷ s) =
    let rest = rstrip_of chars s in
    if is_one_of (code c) chars && is_empty rest then [] else c ∷ rest
