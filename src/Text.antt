-- ===== src/Text.antt =====
-- Go's byte strings, as lists of bytes, and the functions of its package strings that the source
-- calls. The texts are ASCII, so that a byte is a character.
use dnscrypt_proxy_fork.Base.{
  ℕ, zero, suc, ◌+◌, ◌-◌, ◌≡◌, refl, ap, sym, ◌∙◌, Bool, true, false, ◌&&◌, ◌||◌, List, [], ◌∷◌,
  ◌++◌, length, Option, none, some, is_some, ltb, leb, ◌==◌, if◌then◌else◌, arith,
}
pub mod Laws

abbrev pub Bytes : Type 0
Bytes = List ℕ

unfoldable pub bytes_eq : Bytes → Bytes → Bool
bytes_eq [] [] = true
bytes_eq [] (y ∷ ys) = false
bytes_eq (x ∷ xs) [] = false
bytes_eq (x ∷ xs) (y ∷ ys) = x == y && bytes_eq xs ys

-- The rest of `s` after a prefix, if it has it.
unfoldable pub cut_prefix : Bytes → Bytes → Option Bytes
cut_prefix [] s = some s
cut_prefix (c ∷ prefix) [] = none
cut_prefix (c ∷ prefix) (d ∷ s) = if c == d then cut_prefix prefix s else none

unfoldable pub has_prefix : Bytes → Bytes → Bool
has_prefix s prefix = is_some (cut_prefix prefix s)

abbrev pub or_same : Option Bytes → Bytes → Bytes
or_same none s = s
or_same (some t) s = t

unfoldable pub trim_prefix : Bytes → Bytes → Bytes
trim_prefix s prefix = or_same (cut_prefix prefix s) s

-- The text without its end, if it ends in the suffix.
unfoldable pub cut_suffix : Bytes → Bytes → Option Bytes
cut_suffix suffix [] = if bytes_eq [] suffix then some [] else none
cut_suffix suffix (c ∷ s) =
    if bytes_eq (c ∷ s) suffix
    then some []
    else elim (cut_suffix suffix s) [ none ↦ none | some t ↦ some (c ∷ t) ]

unfoldable pub has_suffix : Bytes → Bytes → Bool
has_suffix s suffix = is_some (cut_suffix suffix s)

-- `strings.Contains`
unfoldable pub contains : Bytes → Bytes → Bool
contains [] sub = has_prefix [] sub
contains (c ∷ s) sub = has_prefix (c ∷ s) sub || contains s sub

-- The last byte removed; the empty text stays as it is.
unfoldable pub drop_last : Bytes → Bytes
drop_last [] = []
drop_last (c ∷ []) = []
drop_last (c ∷ d ∷ s) = c ∷ drop_last (d ∷ s)

-- `StringReverse` of common.go, which swaps the ends on the way to the middle.
unfoldable pub reverse_onto : Bytes → Bytes → Bytes
reverse_onto [] t = t
reverse_onto (c ∷ s) t = reverse_onto s (c ∷ t)

unfoldable pub string_reverse : Bytes → Bytes
string_reverse s = reverse_onto s []

-- A letter A to Z becomes small.
abbrev pub lower_byte : ℕ → ℕ
lower_byte c = if leb 65 c && leb c 90 then c + 32 else c

unfoldable pub to_lower : Bytes → Bytes
to_lower [] = []
to_lower (c ∷ s) = lower_byte c ∷ to_lower s
