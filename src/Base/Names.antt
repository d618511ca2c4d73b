-- ===== src/Base/Names.antt =====
-- Go's `<` on strings: by bytes, which is the order of the code points.
use Prim.Native.Nat.{ℕ}
use Prim.Native.Char.{code}
use Prim.Native.String.{String}
use mathlib.Core.Bool.{Bool, true, false}
use mathlib.Core.List.{List, [], ◌∷◌}
use dnscrypt_proxy_fork.Base.Tests.{ltb, ◌==◌, if◌then◌else◌}

-- What stands for the bytes of an ASCII name: its code points.
abbrev pub codes : String → List ℕ
codes (String.◌∷◌ first rest) = code first ∷ codes rest
codes String.[] = []

-- Whether the first list comes before the second in a dictionary.
pub precedes : List ℕ → List ℕ → Bool
precedes [] [] = false
precedes [] (b ∷ bs) = true
precedes (a ∷ as') [] = false
precedes (a ∷ as') (b ∷ bs) = if a == b then precedes as' bs else ltb a b

unfoldable pub name_lt : String → String → Bool
unfolding precedes
name_lt a b = precedes (codes a) (codes b)
