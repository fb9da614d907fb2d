-- ===== src/Service/Counts.antt =====
-- How often an object occurs in the lists of src/CuteIPCSignalHandler.cpp and
-- src/CuteIPCService.cpp.
use cute_ipc.Prelude.{
  ℕ, suc, ◌+◌, ◌-◌, ◌≤◌, ◌≡◌, ◌≢◌, refl, List, [], ◌∷◌, ◌++◌, ◌==◌, if◌then◌else◌, arith,
}
use cute_ipc.SignalHandler.{remove_one}
use cute_ipc.Service.{without}

abbrev pub count : ℕ → List ℕ → ℕ
count x [] = 0
count x (y ∷ ys) = if y == x then suc (count x ys) else count x ys

pub count-append : (x : ℕ) (ys zs : List ℕ) → count x (ys ++ zs) ≡ count x ys + count x zs
count-append x [] zs = omega arith
count-append x (y ∷ ys) zs = ground (arith, count-append x ys zs)

pub count-remove_one_same : (x : ℕ) (ys : List ℕ) → count x (remove_one x ys) ≡ count x ys - 1
unfolding remove_one
count-remove_one_same x [] = omega arith
count-remove_one_same x (y ∷ ys) = ground (arith, count-remove_one_same x ys)

pub count-remove_one_other :
    (x c : ℕ) (ys : List ℕ) → x ≢ c → count x (remove_one c ys) ≡ count x ys
unfolding remove_one
count-remove_one_other x c [] h = refl
count-remove_one_other x c (y ∷ ys) h = ground (arith, count-remove_one_other x c ys h)

pub count-remove_one_le : (x c : ℕ) (ys : List ℕ) → count x (remove_one c ys) ≤ count x ys
unfolding remove_one
count-remove_one_le x c [] = omega arith
count-remove_one_le x c (y ∷ ys) = ground (arith, count-remove_one_le x c ys)

pub without_absent : (c : ℕ) (xs : List ℕ) → count c xs ≡ 0 → without c xs ≡ xs
unfolding without
without_absent c [] h = refl
without_absent c (x ∷ xs) h = ground (arith, without_absent c xs)
