-- ===== src/Memory/Cells.antt =====
-- How often a cell is live: what allocating and freeing in src/CuteIPCMarshaller.cpp does to it.
use cute_ipc.Prelude.{
  ℕ, ◌+◌, ◌<◌, ◌≡◌, refl, ap, inl, inr, true, List, [], ◌∷◌, ◌++◌, if◌then◌else◌, Bool-cases, arith,
}
use cute_ipc.Prelude.Result.{ok}
use cute_ipc.Memory.{
  Kind, name_cell, value_cell, bits_cell, same_kind, Cell, same_cell, Heap, allocate, holds, strike,
  release,
}

pub one : Cell → Cell → ℕ
one c x = if same_cell c x then 1 else 0

abbrev pub count : Cell → List Cell → ℕ
count x [] = 0
count x (c ∷ cs) = one c x + count x cs

pub count-append : (x : Cell) (cs ds : List Cell) → count x (cs ++ ds) ≡ count x cs + count x ds
count-append x [] ds = omega arith
count-append x (c ∷ cs) ds = omega (arith, count-append x cs ds)

same_kind→eq : (a b : Kind) → same_kind a b ≡ true → a ≡ b
unfolding same_kind
same_kind→eq name_cell name_cell h = refl
same_kind→eq (value_cell a) (value_cell b) h = ap value_cell (ground (arith, h))
same_kind→eq bits_cell bits_cell h = refl
same_kind→eq name_cell (value_cell b) h = cc
same_kind→eq name_cell bits_cell h = cc
same_kind→eq (value_cell a) name_cell h = cc
same_kind→eq (value_cell a) bits_cell h = cc
same_kind→eq bits_cell name_cell h = cc
same_kind→eq bits_cell (value_cell b) h = cc

same_kind_refl : (a : Kind) → same_kind a a ≡ true
unfolding same_kind
same_kind_refl name_cell = refl
same_kind_refl (value_cell a) = ground arith
same_kind_refl bits_cell = refl

same_cell→eq : (a b : Cell) → same_cell a b ≡ true → a ≡ b
unfolding same_cell
same_cell→eq a b h =
    let at : a.address ≡ b.address = ground arith in
    let like : a.kind ≡ b.kind = same_kind→eq a.kind b.kind (ground arith) in
    λ i. record { address = at i; kind = like i }

pub one_same : (c : Cell) → one c c ≡ 1
unfolding one same_cell
one_same c = ground (arith, same_kind_refl c.kind)

-- Freeing a live cell takes one entry away.
holds_live : (c : Cell) (xs : List Cell) → 0 < count c xs → holds c xs ≡ true
unfolding holds one
holds_live c [] h = absurd (omega (arith, h))
holds_live c (x ∷ xs) h = ground (arith, holds_live c xs)

count-strike :
    (x c : Cell) (xs : List Cell) → holds c xs ≡ true → count x (strike c xs) + one c x ≡ count x xs
unfolding holds strike one
count-strike x c [] h = cc
count-strike x c (y ∷ ys) h = elim (Bool-cases (same_cell y c)) [
  | inl e ↦ let k : y ≡ c = same_cell→eq y c e in rw e (omega (arith, ap (λ z. one z x) k))
  | inr e ↦ rw e (omega (arith, count-strike x c ys (rw e at h)))
]

-- What a call adds to the live cells.
pub record Balance (h h' : Heap) (extra : List Cell) : Type 0 where
  pub counts : (x : Cell) → count x h'.live ≡ count x h.live + count x extra

pub Balance-refl : (h : Heap) → Balance h h []
Balance-refl h = record { counts = λ x. omega arith }

pub Balance-trans :
    (h h' h'' : Heap) (cs ds : List Cell)
    → Balance h h' cs
    → Balance h' h'' ds
    → Balance h h'' (cs ++ ds)
Balance-trans h h' h'' cs ds b b' = record {
  counts = λ x. omega (arith, b.counts x, b'.counts x, count-append x cs ds);
}

pub allocate-Balance : (k : Kind) (h : Heap) → Balance h (allocate k h).1 ((allocate k h).0 ∷ [])
allocate-Balance k h = record { counts = λ x. omega arith }

-- A cell among those that a call added can be freed.
pub release-Balance :
    (c : Cell) (h h' : Heap) (cs ds : List Cell)
    → Balance h h' (cs ++ c ∷ ds)
    → (h'' : Heap) × (release c h' ≡ ok h'') × Balance h h'' (cs ++ ds)
unfolding release
release-Balance c h h' cs ds b =
    let live : 0 < count c h'.live =
      omega (arith, b.counts c, count-append c cs (c ∷ ds), one_same c) in
    let there = holds_live c h'.live live in
    (
      record h' { live = strike c h'.live },
      rw there refl,
      record {
        counts = λ x. omega (
          arith,
          b.counts x,
          count-strike x c h'.live there,
          count-append x cs (c ∷ ds),
          count-append x cs ds,
        );
      },
    )
