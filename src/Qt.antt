-- ===== src/Qt.antt =====
-- The parts of Qt that the sources call and that are not part of the repository, as parameters:
-- `DataStream` (QDataStream), `ImageClass` (QImage) and `MetaTypes` (QMetaType, and the conversion of
-- a QString to Latin-1). `I` is the type of images, `V` that of all other values that an argument may
-- hold. The fields after the operations state what Qt documents of them: what `<<` wrote, `>>` reads
-- back, and an image is determined by its bits, its format and its colour table.
use cute_ipc.Prelude.{ℕ, ◌+◌, ◌≤◌, ◌<◌, ◌≡◌, ◌≢◌, List, ◌++◌, Option, some, length}
use cute_ipc.Prelude.Int.{ℤ, IsInt32}
use cute_ipc.Prelude.Text.{Text, Bytes, IsLatin1, text}

-- An operator `>>` always yields a value (a default one past the end) and moves the stream on.
pub record DataStream : Type 0 where
  pub put_int : ℤ → Bytes
  pub get_int : Bytes → ℤ × Bytes
  pub put_uint : ℕ → Bytes
  pub get_uint : Bytes → ℕ × Bytes
  pub put_string : Text → Bytes
  pub get_string : Bytes → Text × Bytes
  pub put_bytes : Bytes → Bytes
  pub get_bytes : Bytes → Bytes × Bytes
  pub put_colors : List ℕ → Bytes
  pub get_colors : Bytes → List ℕ × Bytes
  pub get_int-put_int : (n : ℤ) (rest : Bytes) → IsInt32 n → get_int (put_int n ++ rest) ≡ (n, rest)
  pub get_string-put_string :
      (s : Text) (rest : Bytes) → get_string (put_string s ++ rest) ≡ (s, rest)
  pub get_bytes-put_bytes : (b rest : Bytes) → get_bytes (put_bytes b ++ rest) ≡ (b, rest)
  pub get_colors-put_colors :
      (c : List ℕ) (rest : Bytes) → get_colors (put_colors c ++ rest) ≡ (c, rest)
  pub get_uint-put_uint :
      (n : ℕ) (rest : Bytes) → n < 4294967296 → get_uint (put_uint n ++ rest) ≡ (n, rest)
  pub length-put_uint : (n : ℕ) → length (put_uint n) ≡ 4
  pub get_uint-lt : (s : Bytes) → (get_uint s).0 < 4294967296
  pub length-get_uint : (s : Bytes) → 4 ≤ length s → length (get_uint s).1 + 4 ≡ length s
  pub length-put_int_pos : (n : ℤ) → 0 < length (put_int n)
  pub length-put_bytes_pos : (b : Bytes) → 0 < length (put_bytes b)

-- `from_bits` is the constructor QImage(bits, width, height, bytesPerLine, format).
pub record ImageClass (I : Type 0) : Type 0 where
  pub width : I → ℤ
  pub height : I → ℤ
  pub bytes_per_line : I → ℤ
  pub format : I → ℤ
  pub dots_per_meter_x : I → ℤ
  pub dots_per_meter_y : I → ℤ
  pub color_table : I → List ℕ
  pub const_bits : I → Bytes
  pub from_bits : Bytes → ℤ → ℤ → ℤ → ℤ → I
  pub set_dots_per_meter_x : ℤ → I → I
  pub set_dots_per_meter_y : ℤ → I → I
  pub set_color_table : List ℕ → I → I
  pub width-IsInt32 : (i : I) → IsInt32 (width i)
  pub height-IsInt32 : (i : I) → IsInt32 (height i)
  pub bytes_per_line-IsInt32 : (i : I) → IsInt32 (bytes_per_line i)
  pub format-IsInt32 : (i : I) → IsInt32 (format i)
  pub dots_per_meter_x-IsInt32 : (i : I) → IsInt32 (dots_per_meter_x i)
  pub dots_per_meter_y-IsInt32 : (i : I) → IsInt32 (dots_per_meter_y i)
  -- byteCount() is an int.
  pub length-const_bits : (i : I) → length (const_bits i) < 2147483648
  pub rebuilt :
      (i : I)
      → set_color_table (color_table i) (
          set_dots_per_meter_y (dots_per_meter_y i) (
            set_dots_per_meter_x
              (dots_per_meter_x i)
              (from_bits (const_bits i) (width i) (height i) (bytes_per_line i) (format i))))
        ≡ i

-- `type_id` is QMetaType::type, 0 for a name that is not registered. `save` and `load` are the
-- functions of QMetaType; `none` is their answer `false`. `string_value` and `as_string` pass
-- between a QString and an argument that holds one.
pub record MetaTypes (V : Type 0) : Type 0 where
  pub type_id : Text → ℕ
  pub image_id : ℕ
  pub to_latin1 : Text → Text
  pub save : ℕ → V → Option Bytes
  pub load : ℕ → Bytes → Option (V × Bytes)
  pub string_value : Text → V
  pub as_string : V → Option Text
  pub image_id-ne-zero : image_id ≢ 0
  pub type_id-image : type_id (text "QImage") ≡ image_id
  pub to_latin1_latin : (s : Text) → IsLatin1 s → to_latin1 s ≡ s
  pub load-save :
      (t : ℕ) (v : V) {b : Bytes} (rest : Bytes)
      → save t v ≡ some b
      → load t (b ++ rest) ≡ some (v, rest)
  pub as_string-string_value : (s : Text) → as_string (string_value s) ≡ some s

pub record Qt (V I : Type 0) : Type 0 where
  pub stream : DataStream
  pub open stream use *
  pub image : ImageClass I
  pub open image use *
  pub meta : MetaTypes V
  pub open meta use *
