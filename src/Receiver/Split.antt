-- ===== src/Receiver/Split.antt =====
-- Lists that are cut in two places.
use cute_ipc.Prelude.{
  ℕ, zero, suc, ◌≤◌, ◌≡◌, refl, ap, List, [], ◌∷◌, ◌++◌, length, take, drop, take-length_append,
  drop-length_append, arith,
}

-- The shorter of two front parts of one list begins the longer.
pub split_at {ℓ} :
    {A : Type ℓ} (xs ys us vs : List A)
    → xs ++ ys ≡ us ++ vs
    → length us ≤ length xs
    → (ws : List A) × (xs ≡ us ++ ws) × (ws ++ ys ≡ vs)
split_at xs ys [] vs e h = (xs, refl, e)
split_at [] ys (u ∷ us) vs e h = absurd (omega arith)
split_at (x ∷ xs) ys (u ∷ us) vs e h =
    let (ws, p, r) = split_at xs ys us vs (cc) (omega arith) in (ws, cc, r)

pub take_all {ℓ} : {A : Type ℓ} (n : ℕ) (xs : List A) → length xs ≤ n → take n xs ≡ xs
take_all zero [] h = refl
take_all zero (x ∷ xs) h = absurd (omega arith)
take_all (suc n) [] h = refl
take_all (suc n) (x ∷ xs) h = ap (◌∷◌ x) (take_all n xs (omega arith))

pub drop_all {ℓ} : {A : Type ℓ} (n : ℕ) (xs : List A) → length xs ≤ n → drop n xs ≡ []
drop_all zero [] h = refl
drop_all zero (x ∷ xs) h = absurd (omega arith)
drop_all (suc n) [] h = refl
drop_all (suc n) (x ∷ xs) h = drop_all n xs (omega arith)

pub take_front {ℓ} :
    {A : Type ℓ} (n : ℕ) (us ws xs : List A) → n ≡ length us → us ++ ws ≡ xs → take n xs ≡ us
take_front n us ws xs e p = rw (e, ← p) (take-length_append us ws)

pub drop_front {ℓ} :
    {A : Type ℓ} (n : ℕ) (us ws xs : List A) → n ≡ length us → us ++ ws ≡ xs → drop n xs ≡ ws
drop_front n us ws xs e p = rw (e, ← p) (drop-length_append us ws)
