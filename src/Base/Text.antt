-- ===== src/Base/Text.antt =====
-- Go strings as lists of bytes, with the functions of package strings that the runtime calls.
-- The argument order is Go's. Case mapping is that of ASCII.
use Prim.Native.Nat.{ℕ, ◌+◌, ◌-◌}
use Prim.Native.Char.{code}
use Prim.Native.String.{String}
use mathlib.Core.Path.{◌≡◌, refl}
use mathlib.Core.Logic.{◌↔◌}
use mathlib.Core.Bool.{Bool, true, false, ◌&&◌, ◌||◌}
use mathlib.Core.Option.{Option, none, some}
use mathlib.Core.List.{List, [], ◌∷◌, ◌++◌}
use native.Mathlib.Omega.{arith}
use agenthub_skill_runtime.Base.Tests.{ltb, leb, ◌==◌, if◌then◌else◌}

abbrev pub Bytes : Type 0
Bytes = List ℕ

-- The bytes of an ASCII literal.
abbrev pub codes : String → Bytes
codes String.[] = []
codes (String.◌∷◌ c s) = code c ∷ codes s

-- s == t
unfoldable pub eqb : Bytes → Bytes → Bool
eqb [] [] = true
eqb (a ∷ s) (b ∷ t) = a == b && eqb s t
eqb _ _ = false

abbrev pub is_empty : Bytes → Bool
is_empty [] = true
is_empty (c ∷ s) = false

-- strings.HasPrefix(s, prefix)
unfoldable pub has_prefix : Bytes → Bytes → Bool
has_prefix s [] = true
has_prefix [] (b ∷ p) = false
has_prefix (a ∷ s) (b ∷ p) = a == b && has_prefix s p

-- strings.HasSuffix(s, suffix)
unfoldable pub has_suffix : Bytes → Bytes → Bool
unfolding eqb
has_suffix [] suffix = eqb [] suffix
has_suffix (c ∷ s) suffix = eqb (c ∷ s) suffix || has_suffix s suffix

-- strings.Contains(s, sub)
unfoldable pub contains : Bytes → Bytes → Bool
unfolding has_prefix
contains [] sub = has_prefix [] sub
contains (c ∷ s) sub = has_prefix (c ∷ s) sub || contains s sub

-- strings.ContainsRune and strings.ContainsAny over ASCII sets
unfoldable pub contains_byte : Bytes → ℕ → Bool
contains_byte [] b = false
contains_byte (c ∷ s) b = c == b || contains_byte s b

unfoldable pub contains_any : Bytes → Bytes → Bool
unfolding contains_byte
contains_any [] set = false
contains_any (c ∷ s) set = contains_byte set c || contains_any s set

-- The rest behind a prefix: strings.CutPrefix, and with the text itself for `none` strings.TrimPrefix.
unfoldable pub cut_prefix : Bytes → Bytes → Option Bytes
cut_prefix s [] = some s
cut_prefix [] (b ∷ p) = none
cut_prefix (a ∷ s) (b ∷ p) = if a == b then cut_prefix s p else none

unfoldable pub trim_prefix : Bytes → Bytes → Bytes
unfolding cut_prefix
trim_prefix s p = elim (cut_prefix s p) [ none ↦ s | some rest ↦ rest ]

-- The bytes up to the last one that does not pass the test.
unfoldable pub trim_end : (ℕ → Bool) → Bytes → Bytes
trim_end drop [] = []
trim_end drop (c ∷ s) =
    let rest = trim_end drop s in if drop c && is_empty rest then [] else c ∷ rest

unfoldable pub trim_start : (ℕ → Bool) → Bytes → Bytes
trim_start drop [] = []
trim_start drop (c ∷ s) = let rest = trim_start drop s in if drop c then rest else c ∷ s

-- strings.TrimRight(s, "/")
unfoldable pub trim_right_slash : Bytes → Bytes
unfolding trim_end
trim_right_slash s = trim_end (λ c. c == b'/') s

-- The ASCII part of unicode.IsSpace.
abbrev pub is_space : ℕ → Bool
is_space c = c == 32 || (leb 9 c && leb c 13)

-- strings.TrimSpace(s)
unfoldable pub trim_space : Bytes → Bytes
unfolding trim_end trim_start
trim_space s = trim_start is_space (trim_end is_space s)

abbrev pub upper : ℕ → ℕ
upper c = if leb b'a' c && leb c b'z' then c - 32 else c

abbrev pub lower : ℕ → ℕ
lower c = if leb b'A' c && leb c b'Z' then c + 32 else c

-- strings.ToUpper(s), strings.ToLower(s)
unfoldable pub to_upper : Bytes → Bytes
to_upper [] = []
to_upper (c ∷ s) = upper c ∷ to_upper s

unfoldable pub to_lower : Bytes → Bytes
to_lower [] = []
to_lower (c ∷ s) = lower c ∷ to_lower s

-- strings.EqualFold(s, t)
unfoldable pub equal_fold : Bytes → Bytes → Bool
unfolding eqb to_lower
equal_fold s t = eqb (to_lower s) (to_lower t)

-- strings.Split(s, sep) for a separator of one byte
unfoldable pub split_byte : Bytes → ℕ → List Bytes
split_byte [] sep = [] ∷ []
split_byte (c ∷ s) sep =
    let rest = split_byte s sep in
    if c == sep then [] ∷ rest else elim rest [ [] ↦ (c ∷ []) ∷ [] | p ∷ ps ↦ (c ∷ p) ∷ ps ]

-- The order of Go's `<` on strings, by bytes.
unfoldable pub lex_le : Bytes → Bytes → Bool
lex_le [] t = true
lex_le (a ∷ s) [] = false
lex_le (a ∷ s) (b ∷ t) = ltb a b || (a == b && lex_le s t)

pub eqb→eq : (s t : Bytes) → eqb s t ≡ true → s ≡ t
unfolding eqb
eqb→eq [] [] h = refl
eqb→eq (a ∷ s) (b ∷ t) h = ground (arith, eqb→eq s t)
eqb→eq [] (b ∷ t) h = cc
eqb→eq (a ∷ s) [] h = cc

pub eqb_refl : (s : Bytes) → eqb s s ≡ true
unfolding eqb
eqb_refl [] = refl
eqb_refl (a ∷ s) = ground (arith, eqb_refl s)

pub eq→eqb : (s t : Bytes) → s ≡ t → eqb s t ≡ true
eq→eqb s t h = rw h (eqb_refl t)

pub eqb_iff : (s t : Bytes) → (eqb s t ≡ true) ↔ (s ≡ t)
eqb_iff s t = (eqb→eq s t, eq→eqb s t)

pub has_prefix→append : (s p : Bytes) → has_prefix s p ≡ true → (rest : Bytes) × (s ≡ p ++ rest)
unfolding has_prefix
has_prefix→append s [] h = (s, refl)
has_prefix→append [] (b ∷ p) h = absurd (cc)
has_prefix→append (a ∷ s) (b ∷ p) h =
    let (rest, e) = has_prefix→append s p (ground arith) in (rest, ground arith)

pub has_prefix-append : (p rest : Bytes) → has_prefix (p ++ rest) p ≡ true
unfolding has_prefix
has_prefix-append [] rest = refl
has_prefix-append (b ∷ p) rest = ground (arith, has_prefix-append p rest)

pub cut_prefix-append : (p rest : Bytes) → cut_prefix (p ++ rest) p ≡ some rest
unfolding cut_prefix
cut_prefix-append [] rest = refl
cut_prefix-append (b ∷ p) rest = ground (arith, cut_prefix-append p rest)

pub trim_prefix-append : (p rest : Bytes) → trim_prefix (p ++ rest) p ≡ rest
unfolding trim_prefix
trim_prefix-append p rest = rw (cut_prefix-append p rest, trim_prefix)
