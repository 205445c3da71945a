-- ===== src/Base/Texts.antt =====
-- Go strings as byte lists, with the functions of Go's `strings` and `fmt` that the panel calls.
use Prim.Native.Nat.{ℕ, zero, suc, ◌+◌, ◌/◌, ◌%◌}
use Prim.Native.Char.{code}
use Prim.Native.String.{String}
use mathlib.Core.Path.{◌≡◌, refl}
use mathlib.Core.Bool.{Bool, true, false, ◌&&◌, ◌||◌}
use mathlib.Core.Option.{Option, none, some}
use mathlib.Core.Option
use mathlib.Core.List.{reverse, List, [], ◌∷◌}
use native.Mathlib.Omega.{arith}
use flux_panel_v.Base.Tests.{if◌then◌else◌, ◌==◌, ltb, leb}

abbrev pub Text : Type 0
Text = List ℕ

-- The bytes of an ASCII literal.
abbrev pub codes : String → Text
codes String.[] = []
codes (String.◌∷◌ c s) = code c ∷ codes s

abbrev pub is_empty {ℓ} : {A : Type ℓ} → List A → Bool
is_empty [] = true
is_empty (x ∷ xs) = false

-- `s == t`
unfoldable pub eq_text : Text → Text → Bool
eq_text [] [] = true
eq_text [] (d ∷ t) = false
eq_text (c ∷ s) [] = false
eq_text (c ∷ s) (d ∷ t) = c == d && eq_text s t

pub eq_text→eq : (s t : Text) → eq_text s t ≡ true → s ≡ t
unfolding eq_text
eq_text→eq [] [] h = refl
eq_text→eq [] (d ∷ t) h = cc
eq_text→eq (c ∷ s) [] h = cc
eq_text→eq (c ∷ s) (d ∷ t) h = ground (arith, eq_text→eq s t)

pub eq_text_refl : (s : Text) → eq_text s s ≡ true
unfolding eq_text
eq_text_refl [] = refl
eq_text_refl (c ∷ s) = ground (arith, eq_text_refl s)

-- `strings.Contains(s, string(c))`
unfoldable pub has_byte : ℕ → Text → Bool
has_byte c [] = false
has_byte c (d ∷ s) = d == c || has_byte c s

-- `strings.HasPrefix`
unfoldable pub has_prefix : Text → Text → Bool
has_prefix s [] = true
has_prefix [] (d ∷ t) = false
has_prefix (c ∷ s) (d ∷ t) = c == d && has_prefix s t

-- `strings.Contains(s, t)`
unfoldable pub contains : Text → Text → Bool
unfolding has_prefix
contains [] t = has_prefix [] t
contains (c ∷ s) t = has_prefix (c ∷ s) t || contains s t

-- One step of the split, on the parts of the rest.
abbrev pub add_byte : ℕ → List Text → List Text
add_byte c [] = (c ∷ []) ∷ []
add_byte c (p ∷ ps) = (c ∷ p) ∷ ps

-- `strings.Split(s, string(sep))`
unfoldable pub split : ℕ → Text → List Text
split sep [] = [] ∷ []
split sep (c ∷ s) = if c == sep then [] ∷ split sep s else add_byte c (split sep s)

-- `unicode.IsSpace` on the UTF-8 bytes: the spaces of one byte, of two (U+0085 and U+00A0) and of
-- three (U+1680, U+2000 to U+200A, U+2028, U+2029, U+202F, U+205F and U+3000).
abbrev pub is_space : ℕ → Bool
is_space c = c == 32 || (leb 9 c && leb c 13)

abbrev pub is_space_2 : ℕ → ℕ → Bool
is_space_2 a b = a == 194 && (b == 133 || b == 160)

abbrev pub is_space_3 : ℕ → ℕ → ℕ → Bool
is_space_3 a b c =
    (a == 225 && (b == 154 && c == 128))
    || ((a == 226
          && ((b == 128 && ((leb 128 c && leb c 138) || (c == 168 || (c == 169 || c == 175))))
              || (b == 129 && c == 159)))
        || (a == 227 && (b == 128 && c == 128)))

-- Spaces before the text go; `p2` and `p3` are the tests for those of more bytes.
unfoldable pub trim_with : (ℕ → ℕ → Bool) → (ℕ → ℕ → ℕ → Bool) → Text → Text
trim_with p2 p3 [] = []
trim_with p2 p3 (a ∷ []) = if is_space a then [] else a ∷ []
trim_with p2 p3 (a ∷ b ∷ []) =
    let one = trim_with p2 p3 (b ∷ []) in
    if is_space a then one else if p2 a b then [] else a ∷ b ∷ []
trim_with p2 p3 (a ∷ b ∷ c ∷ s) =
    let one = trim_with p2 p3 (b ∷ c ∷ s) in
    let two = trim_with p2 p3 (c ∷ s) in
    let three = trim_with p2 p3 s in
    if is_space a then one else if p2 a b then two else if p3 a b c then three else a ∷ b ∷ c ∷ s

unfoldable pub trim_left : Text → Text
unfolding trim_with
trim_left s = trim_with is_space_2 is_space_3 s

-- From the end, where a space's bytes stand in the opposite order.
unfoldable pub trim_right : Text → Text
unfolding trim_with
trim_right s = reverse (trim_with (λ b a. is_space_2 a b) (λ c b a. is_space_3 a b c) (reverse s))

-- `strings.TrimSpace`
unfoldable pub trim_space : Text → Text
unfolding trim_left trim_right
trim_space s = trim_right (trim_left s)

-- `strings.Index(s, string(c))`
unfoldable pub index : ℕ → Text → Option ℕ
index c [] = none
index c (d ∷ s) = if d == c then some 0 else Option.map suc (index c s)

abbrev pub later_index : ℕ → ℕ → Option ℕ → Option ℕ
later_index c d (some i) = some (suc i)
later_index c d none = if d == c then some 0 else none

-- `strings.LastIndex(s, string(c))`
unfoldable pub last_index : ℕ → Text → Option ℕ
last_index c [] = none
last_index c (d ∷ s) = later_index c d (last_index c s)

-- `s[:n]` and `s[n:]`
unfoldable pub take : ℕ → Text → Text
take zero s = []
take (suc n) [] = []
take (suc n) (c ∷ s) = c ∷ take n s

unfoldable pub drop : ℕ → Text → Text
drop zero s = s
drop (suc n) [] = []
drop (suc n) (c ∷ s) = drop n s

-- `%d` of a number below 10 ^ fuel, in front of `acc`.
unfoldable pub digits_onto : ℕ → ℕ → Text → Text
digits_onto zero n acc = acc
digits_onto (suc fuel) n acc =
    let rest = digits_onto fuel (n / 10) ((48 + n % 10) ∷ acc) in
    if ltb n 10 then (48 + n) ∷ acc else rest

-- `fmt.Sprintf("%d", n)` of an int64: at most 19 digits.
unfoldable pub show_nat : ℕ → Text
unfolding digits_onto
show_nat n = digits_onto 20 n []
