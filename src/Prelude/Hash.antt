-- ===== src/Prelude/Hash.antt =====
-- QHash with text keys, as an association list without repeated keys, and lists of object identities.
use cute_ipc.Prelude.Tests.{if◌then◌else◌, Bool-cases}
use cute_ipc.Prelude.Lists.{All}
use cute_ipc.Prelude.Text.{Text, same, same→eq, same_iff}
use mathlib.Core.Path.{◌≡◌, refl, subst}
use mathlib.Core.Logic.{inl, inr}
use mathlib.Core.Bool.{Bool, true, false, ◌||◌}
use mathlib.Core.Option.{Option, none, some}
use mathlib.Core.List.{List, [], ◌∷◌}
use native.Mathlib.Omega.{arith}

abbrev pub Hash {ℓ} : Type ℓ → Type ℓ
Hash V = List (Text × V)

module _ {ℓ} {V : Type ℓ} where
  -- value(key), `none` for the default value
  unfoldable pub lookup : Text → Hash V → Option V
  lookup key [] = none
  lookup key ((other, value) ∷ rest) = if same other key then some value else lookup key rest

  unfoldable pub contains : Text → Hash V → Bool
  contains key [] = false
  contains key ((other, value) ∷ rest) = same other key || contains key rest

  -- insert replaces the value of a key that is there.
  unfoldable pub insert : Text → V → Hash V → Hash V
  insert key value [] = (key, value) ∷ []
  insert key value (entry ∷ rest) =
      if same entry.0 key then (key, value) ∷ rest else entry ∷ insert key value rest

  unfoldable pub remove : Text → Hash V → Hash V
  remove k [] = []
  remove k ((j, v) ∷ m) = let rest = remove k m in if same j k then rest else (j, v) ∷ rest

  pub lookup-insert :
      (k j : Text) (v : V) (m : Hash V)
      → lookup j (insert k v m) ≡ (if same k j then some v else lookup j m)
  unfolding lookup insert
  lookup-insert k j v [] = refl
  lookup-insert k j v ((i, w) ∷ m) =
      ground (arith, same_iff k j, same_iff i k, same_iff i j, lookup-insert k j v m)

  pub lookup-remove :
      (k j : Text) (m : Hash V) → lookup j (remove k m) ≡ (if same k j then none else lookup j m)
  unfolding lookup remove
  lookup-remove k j [] = ground arith
  lookup-remove k j ((i, v) ∷ m) =
      ground (arith, lookup-remove k j m, same_iff i k, same_iff i j, same_iff k j)

  pub contains-lookup :
      (k : Text) (m : Hash V) → contains k m ≡ (elim (lookup k m) [ none ↦ false | some v ↦ true ])
  unfolding lookup contains
  contains-lookup k [] = refl
  contains-lookup k ((j, v) ∷ m) = ground (arith, contains-lookup k m)

  -- A property of all entries.
  pub All-insert {κ} :
      (P : Text × V → Type κ) (k : Text) (v : V) (m : Hash V)
      → P (k, v)
      → All P m
      → All P (insert k v m)
  unfolding insert
  All-insert P k v [] p h = (p, tt)
  All-insert P k v ((j, w) ∷ m) p h = elim (Bool-cases (same j k)) [
    | inl e ↦ rw e (p, h.1)
    | inr e ↦ rw e (h.0, All-insert P k v m p h.1)
  ]

  pub All-remove {κ} :
      (P : Text × V → Type κ) (k : Text) (m : Hash V) → All P m → All P (remove k m)
  unfolding remove
  All-remove P k [] h = tt
  All-remove P k ((j, w) ∷ m) h = elim (Bool-cases (same j k)) [
    | inl e ↦ rw e (All-remove P k m h.1)
    | inr e ↦ rw e (h.0, All-remove P k m h.1)
  ]

  pub All-lookup {κ} :
      (P : Text × V → Type κ) (k : Text) (m : Hash V) {v : V}
      → lookup k m ≡ some v
      → All P m
      → P (k, v)
  unfolding lookup
  All-lookup P k [] e h = cc
  All-lookup P k ((j, w) ∷ m) {v} e h = elim (Bool-cases (same j k)) [
    | inl t ↦
        let key : j ≡ k = same→eq j k t in
        let value : w ≡ v = cc in subst P (λ i. (key i, value i)) h.0
    | inr t ↦ All-lookup P k m (rw t at e) h.1
  ]
