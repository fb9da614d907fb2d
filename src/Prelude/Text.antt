-- ===== src/Prelude/Text.antt =====
-- QString as the list of its code units, and QByteArray as the list of its bytes.
use Prim.Native.Nat.{ℕ, ◌<◌}
use Prim.Native.Char.{code}
use Prim.Native.String.{String}
use mathlib.Core.Path.{◌≡◌, refl}
use mathlib.Core.Bool.{Bool, true, false, ◌&&◌}
use mathlib.Core.Logic.{◌↔◌}
use mathlib.Core.List.{List, [], ◌∷◌}
use native.Mathlib.Omega.{arith}
use cute_ipc.Prelude.Tests.{◌==◌, if◌then◌else◌}
use cute_ipc.Prelude.Lists.{All}

abbrev pub Text : Type 0
Text = List ℕ

abbrev pub Bytes : Type 0
Bytes = List ℕ

-- The code units of a literal.
abbrev pub text : String → Text
text String.[] = []
text (String.◌∷◌ c s) = code c ∷ text s

-- QString::operator==

unfoldable pub same : Text → Text → Bool
same [] [] = true
same [] (y ∷ ys) = false
same (x ∷ xs) [] = false
same (x ∷ xs) (y ∷ ys) = (x == y) && same xs ys

pub same→eq : (s t : Text) → same s t ≡ true → s ≡ t
unfolding same
same→eq [] [] h = refl
same→eq [] (y ∷ ys) h = cc
same→eq (x ∷ xs) [] h = cc
same→eq (x ∷ xs) (y ∷ ys) h = ground (arith, same→eq xs ys)

pub same_refl : (s : Text) → same s s ≡ true
unfolding same
same_refl [] = refl
same_refl (x ∷ xs) = ground (arith, same_refl xs)

pub same_iff : (s t : Text) → (same s t ≡ true) ↔ (s ≡ t)
same_iff s t = (same→eq s t, λ e. rw e (same_refl t))

-- Each unit is a byte, so that fromLatin1 and toLatin1 lose nothing.
abbrev pub IsLatin1 : Text → Type 0
IsLatin1 = All (λ c. c < 256)

-- QString::mid(1)
abbrev pub mid_one : Text → Text
mid_one [] = []
mid_one (c ∷ s) = s

-- s[0]; the data of a text ends in a zero unit.
abbrev pub first_unit : Text → ℕ
first_unit [] = 0
first_unit (c ∷ s) = c

-- s.left(s.indexOf("(")): all of `s` if it has no parenthesis, since indexOf is -1 then.
unfoldable pub before_paren : Text → Text
before_paren [] = []
before_paren (c ∷ s) = if c == b'(' then [] else c ∷ before_paren s
