-- ===== src/Example/Types.antt =====
-- Concrete images (the null image and one of a single pixel), value types and application objects.
use cute_ipc.Prelude.{
  ℕ, suc, ◌<◌, ◌≡◌, refl, Bool, true, false, List, [], ◌∷◌, ◌++◌, Option, none, some, length,
  is_nil, ◌==◌, ◌&&◌, if◌then◌else◌, arith,
}
use cute_ipc.Prelude.Int.{ℤ, pos, IsInt32}
use cute_ipc.Prelude.Text.{Text, Bytes, text, same}
use cute_ipc.Qt.{ImageClass, MetaTypes, Qt}
use cute_ipc.MetaObjects.{MetaObjects}
use cute_ipc.Message.{GenericArgument, plain}
use cute_ipc.Example.Streams.{example_stream}

-- `true` is the image with a pixel.
abbrev pub Pixel : Type 0
Pixel = Bool

abbrev pub side : Pixel → ℤ
side false = pos 0
side true = pos 1

abbrev pub line : Pixel → ℤ
line false = pos 0
line true = pos 4

abbrev pub pixel_bits : Pixel → Bytes
pixel_bits false = []
pixel_bits true = 9 ∷ 8 ∷ 7 ∷ 6 ∷ []

abbrev pub pixel_of : Bytes → Pixel
pixel_of [] = false
pixel_of (b ∷ bs) = true

pub side-IsInt32 : (i : Pixel) → IsInt32 (side i)
side-IsInt32 false = omega arith
side-IsInt32 true = omega arith

pub line-IsInt32 : (i : Pixel) → IsInt32 (line i)
line-IsInt32 false = omega arith
line-IsInt32 true = omega arith

pub length-pixel_bits : (i : Pixel) → length (pixel_bits i) < 2147483648
length-pixel_bits false = omega arith
length-pixel_bits true = omega arith

pub pixel_rebuilt : (i : Pixel) → pixel_of (pixel_bits i) ≡ i
pixel_rebuilt false = refl
pixel_rebuilt true = refl

abbrev pub example_images : ImageClass Pixel
example_images = record {
  width = side;
  height = side;
  bytes_per_line = line;
  format = line;
  dots_per_meter_x = side;
  dots_per_meter_y = side;
  color_table = λ i. [];
  const_bits = pixel_bits;
  from_bits = λ b w h l f. pixel_of b;
  set_dots_per_meter_x = λ n i. i;
  set_dots_per_meter_y = λ n i. i;
  set_color_table = λ c i. i;
  width-IsInt32 = side-IsInt32;
  height-IsInt32 = side-IsInt32;
  bytes_per_line-IsInt32 = line-IsInt32;
  format-IsInt32 = line-IsInt32;
  dots_per_meter_x-IsInt32 = side-IsInt32;
  dots_per_meter_y-IsInt32 = side-IsInt32;
  length-const_bits = length-pixel_bits;
  rebuilt = pixel_rebuilt;
}

pub data Value : Type 0 where
  number : ℕ → Value
  string : Text → Value

-- int, QString, QImage and QList<QImage> are registered.
abbrev pub type_id : Text → ℕ
type_id s =
    if same s (text "int")
    then 2
    else if same s (text "QString")
    then 10
    else if same s (text "QImage")
    then 70
    else if same s (text "QList<QImage>")
    then 1030
    else 0

pub type_id_pixel : type_id (text "QImage") ≡ 70
unfolding same
type_id_pixel = refl

abbrev pub save : ℕ → Value → Option Bytes
save t (number n) = if t == 2 then some (n ∷ []) else none
save t (string s) = if t == 10 then some (example_stream.put_string s) else none

abbrev pub load_number : Bytes → Option (Value × Bytes)
load_number [] = none
load_number (n ∷ rest) = some (number n, rest)

abbrev pub load_string : List ℕ × Bytes → Option (Value × Bytes)
load_string (s, rest) = some (string s, rest)

abbrev pub load : ℕ → Bytes → Option (Value × Bytes)
load t s =
    if t == 2
    then load_number s
    else if t == 10
    then load_string (example_stream.get_string s)
    else none

pub load-save :
    (t : ℕ) (v : Value) {b : Bytes} (rest : Bytes)
    → save t v ≡ some b
    → load t (b ++ rest) ≡ some (v, rest)
load-save t (number n) {b} rest h = ground arith
load-save t (string s) {b} rest h = ground (arith, example_stream.get_string-put_string s rest)

abbrev pub as_string : Value → Option Text
as_string (number n) = none
as_string (string s) = some s

abbrev pub example_types : MetaTypes Value
example_types = record {
  type_id = type_id;
  image_id = 70;
  to_latin1 = λ s. s;
  save = save;
  load = load;
  string_value = string;
  as_string = as_string;
  image_id-ne-zero = omega arith;
  type_id-image = type_id_pixel;
  to_latin1_latin = λ s h. refl;
  load-save = load-save;
  as_string-string_value = λ s. refl;
}

abbrev pub example_qt : Qt Value Pixel
example_qt = record { stream = example_stream; image = example_images; meta = example_types }

-- An int, and then arguments that are not given.
abbrev one_int : List (GenericArgument Value Pixel) → Bool
one_int (a ∷ (b ∷ args)) = same a.name (text "int") && is_nil b.name
one_int _ = false

-- The state of the application is a counter. Its methods are `tick`, with and without an int, which counts, and `read`, which
-- returns the count as an int; its signal is `changed(int)`, and its slot `tick()`.
abbrev pub example_objects : MetaObjects Value Pixel ℕ
example_objects = record {
  normalized_signature = λ s. s;
  has_signal = λ object s. same s (text "changed(int)");
  has_slot = λ object s. same s (text "tick()");
  parameter_types = λ object s. text "int" ∷ [];
  check_connect_args = λ s m. true;
  can_invoke = λ object m args. same m (text "tick") && one_int args;
  invoke = λ w object m args. if same m (text "tick") then some (suc w) else none;
  invoke_returning = λ w object m t args.
      if same m (text "read") && same t (text "int") then some (w, plain (number w)) else none;
}
