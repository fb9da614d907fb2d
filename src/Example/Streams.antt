-- ===== src/Example/Streams.antt =====
-- A concrete data stream: integers in four bytes, most significant first; a sequence with each unit
-- raised by one and a zero behind it.
use cute_ipc.Prelude.{
  ℕ, suc, zero, ◌+◌, ◌-◌, ◌*◌, ◌/◌, ◌%◌, ◌≤◌, ◌<◌, ◌≡◌, refl, ◌∙◌, List, [], ◌∷◌, ◌++◌, length, ltb,
  if◌then◌else◌, arith,
}
use cute_ipc.Prelude.Int.{ℤ, pos, negsuc, IsInt32}
use cute_ipc.Prelude.Text.{Bytes}
use cute_ipc.Qt.{DataStream}

abbrev pub put_uint : ℕ → Bytes
put_uint n = (n / 16777216 % 256) ∷ (n / 65536 % 256) ∷ (n / 256 % 256) ∷ (n % 256) ∷ []

abbrev pub get_uint : Bytes → ℕ × Bytes
get_uint (a ∷ (b ∷ (c ∷ (d ∷ rest)))) =
    ((a * 16777216 + b * 65536 + c * 256 + d) % 4294967296, rest)
get_uint _ = (0, [])

abbrev pub word : ℤ → ℕ
word (pos n) = n
word (negsuc n) = 4294967295 - n

abbrev pub int : ℕ → ℤ
int w = if ltb w 2147483648 then pos w else negsuc (4294967295 - w)

abbrev pub put_int : ℤ → Bytes
put_int z = put_uint (word z)

abbrev pub get_int : Bytes → ℤ × Bytes
get_int s = (int (get_uint s).0, (get_uint s).1)

abbrev pub put_units : List ℕ → Bytes
put_units [] = 0 ∷ []
put_units (u ∷ us) = suc u ∷ put_units us

abbrev pub get_units : Bytes → List ℕ × Bytes
get_units [] = ([], [])
get_units (zero ∷ rest) = ([], rest)
get_units (suc u ∷ rest) = (u ∷ (get_units rest).0, (get_units rest).1)

pub get_uint-put_uint :
    (n : ℕ) (rest : Bytes) → n < 4294967296 → get_uint (put_uint n ++ rest) ≡ (n, rest)
get_uint-put_uint n rest h =
    let e : (n / 16777216 % 256 * 16777216
            + n / 65536 % 256 * 65536
            + n / 256 % 256 * 256
            + n % 256)
          % 4294967296
        ≡ n =
      omega arith in
    λ i. (e i, rest)

word-lt : (z : ℤ) → IsInt32 z → word z < 4294967296
word-lt (pos n) h = omega arith
word-lt (negsuc n) h = omega arith

int-word : (z : ℤ) → IsInt32 z → int (word z) ≡ z
int-word (pos n) h = ground arith
int-word (negsuc n) h = ground arith

pub get_int-put_int : (z : ℤ) (rest : Bytes) → IsInt32 z → get_int (put_int z ++ rest) ≡ (z, rest)
get_int-put_int z rest h =
    let e = get_uint-put_uint (word z) rest (word-lt z h) in
    (λ i. (int (e i).0, (e i).1)) ∙ (λ i. (int-word z h i, rest))

pub get_units-put_units : (us rest : List ℕ) → get_units (put_units us ++ rest) ≡ (us, rest)
get_units-put_units [] rest = refl
get_units-put_units (u ∷ us) rest = rw (get_units-put_units us rest)

pub length-get_uint : (s : Bytes) → 4 ≤ length s → length (get_uint s).1 + 4 ≡ length s
length-get_uint [] h = omega arith
length-get_uint (a ∷ []) h = omega arith
length-get_uint (a ∷ (b ∷ [])) h = omega arith
length-get_uint (a ∷ (b ∷ (c ∷ []))) h = omega arith
length-get_uint (a ∷ (b ∷ (c ∷ (d ∷ rest)))) h = omega arith

pub get_uint-lt : (s : Bytes) → (get_uint s).0 < 4294967296
get_uint-lt [] = omega arith
get_uint-lt (a ∷ []) = omega arith
get_uint-lt (a ∷ (b ∷ [])) = omega arith
get_uint-lt (a ∷ (b ∷ (c ∷ []))) = omega arith
get_uint-lt (a ∷ (b ∷ (c ∷ (d ∷ rest)))) = omega arith

pub length-put_units_pos : (us : List ℕ) → 0 < length (put_units us)
length-put_units_pos [] = omega arith
length-put_units_pos (u ∷ us) = omega arith

abbrev pub example_stream : DataStream
example_stream = record {
  put_int = put_int;
  get_int = get_int;
  put_uint = put_uint;
  get_uint = get_uint;
  put_string = put_units;
  get_string = get_units;
  put_bytes = put_units;
  get_bytes = get_units;
  put_colors = put_units;
  get_colors = get_units;
  get_int-put_int = get_int-put_int;
  get_string-put_string = get_units-put_units;
  get_bytes-put_bytes = get_units-put_units;
  get_colors-put_colors = get_units-put_units;
  get_uint-put_uint = get_uint-put_uint;
  length-put_uint = λ n. refl;
  get_uint-lt = get_uint-lt;
  length-get_uint = length-get_uint;
  length-put_int_pos = λ n. omega arith;
  length-put_bytes_pos = length-put_units_pos;
}
