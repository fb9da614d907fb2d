-- ===== src/Marshaller/Read.antt =====
-- The demarshalling half of src/CuteIPCMarshaller.cpp. A QDataStream that is read is the list of the
-- bytes that are left.
use cute_ipc.Prelude.{
  ℕ, zero, suc, Bool, not, ◌&&◌, ◌||◌, List, [], ◌∷◌, Option, none, some, length, take, drop,
  is_nil, ltb, ◌==◌, if◌then◌else◌,
}
use cute_ipc.Prelude.Int.{ℤ, pos, negsuc, pos_part}
use cute_ipc.Prelude.Result.{Result, ok, fail, fault, ◌>>=◌}
use cute_ipc.Prelude.Text.{Text, Bytes, text, same}
use cute_ipc.Qt.{Qt}
use cute_ipc.Message.{
  Datum, GenericArgument, Message, MessageType, Container, image, images, plain, linked_list, list,
  stack, vector, message_type_of, from_arguments,
}

-- `new uchar[byteCount]` and readRawData: fewer bytes than asked for is a failure.
unfoldable pub read_bits : ℤ → Bytes → Result (Bytes × Bytes)
read_bits (negsuc n) s = fault
read_bits (pos n) s = if length (take n s) == n then ok (take n s, drop n s) else fail

module _ {V I : Type 0} (q : Qt V I) where
  unfoldable pub load_image : Bytes → Result (I × Bytes)
  load_image s0 =
      let (width, s1) = q.get_int s0 in
      let (height, s2) = q.get_int s1 in
      let (bytes_per_line, s3) = q.get_int s2 in
      let (format, s4) = q.get_int s3 in
      let (dpm_x, s5) = q.get_int s4 in
      let (dpm_y, s6) = q.get_int s5 in
      let (color_table, s7) = q.get_colors s6 in
      let (byte_count, s8) = q.get_int s7 in
      read_bits byte_count s8 >>= λ (bits, s9). ok (
        q.set_color_table color_table (
            q.set_dots_per_meter_y dpm_y
              (q.set_dots_per_meter_x dpm_x (q.from_bits bits width height bytes_per_line format))),
        s9,
      )

  -- The loop that fills dataContainer, with its early exit at the end of the stream.
  unfoldable pub read_blocks : ℕ → Bytes → List Bytes × Bytes
  read_blocks zero s = ([], s)
  read_blocks (suc n) s =
      let (dt, rest) = q.get_bytes s in
      let more = read_blocks n rest in
      if is_nil rest then (dt ∷ [], rest) else (dt ∷ more.0, more.1)

  unfoldable pub load_block : Bytes → Result I
  load_block dt =
      let (type_name, s) = q.get_string dt in
      if q.type_id (q.to_latin1 type_name) == q.image_id
      then load_image s >>= (λ (i, rest). ok i)
      else fail

  unfoldable pub load_blocks : List Bytes → Result (List I)
  load_blocks [] = ok []
  load_blocks (dt ∷ dts) = do i ← load_block dt; is ← load_blocks dts; ok (i ∷ is)

  unfoldable pub load_container_of_images : Bytes → Result (List I × Bytes)
  load_container_of_images s =
      let (size, s1) = q.get_int s in
      let (blocks, s2) = read_blocks (pos_part size) s1 in load_blocks blocks >>= λ is. ok (is, s2)

  -- QMetaType::load; `none` is its answer false.
  unfoldable pub load_plain : ℕ → Bytes → Result (Datum V I × Bytes)
  load_plain type s = elim (q.load type s) [ none ↦ fail | some (v, rest) ↦ ok (plain v, rest) ]

  unfoldable pub load_images_datum : Container → Bytes → Result (Datum V I × Bytes)
  load_images_datum c s = load_container_of_images s >>= λ (is, rest). ok (images c is, rest)

  unfoldable pub load_image_datum : Bytes → Result (Datum V I × Bytes)
  load_image_datum s = load_image s >>= λ (i, rest). ok (image i, rest)

  -- The ladder of loaders that demarshallArgumentFromStream and demarshallResponse share.
  unfoldable pub load_datum : ℕ → Bytes → Result (Datum V I × Bytes)
  load_datum type s =
      if type == q.image_id
      then load_image_datum s
      else if type == q.type_id (text "QLinkedList<QImage>")
      then load_images_datum linked_list s
      else if type == q.type_id (text "QList<QImage>")
      then load_images_datum list s
      else if type == q.type_id (text "QStack<QImage>")
      then load_images_datum stack s
      else if type == q.type_id (text "QVector<QImage>")
      then load_images_datum vector s
      else load_plain type s

  -- `ok` is set to false by `fail`.
  unfoldable pub demarshall_argument_from_stream : Bytes → Result (GenericArgument V I × Bytes)
  demarshall_argument_from_stream s =
      let (type_name, s1) = q.get_string s in
      let type = q.type_id (q.to_latin1 type_name) in
      let loaded = load_datum type s1 in
      if type == 0
      then fail
      else loaded >>= λ (d, rest).
          ok (record { name = q.to_latin1 type_name; value = some d }, rest)

  -- The loop over the arguments: the first one that fails ends it, and those before it are kept.
  unfoldable pub demarshall_arguments : ℕ → Bytes → Result (List (GenericArgument V I))
  demarshall_arguments zero s = ok []
  demarshall_arguments (suc n) s = elim (demarshall_argument_from_stream s) [
    | ok (a, rest) ↦ demarshall_arguments n rest >>= (λ args. ok (a ∷ args))
    | fail ↦ ok []
    | fault ↦ fault
  ]

  -- Q_ASSERT(argc <= 10) fails on more arguments.
  unfoldable pub demarshall_message : Bytes → Result (Message V I)
  demarshall_message call =
      let (type, s1) = q.get_int call in
      let (method, s2) = q.get_string s1 in
      let (return_type, s3) = q.get_string s2 in
      let (argc, s4) = q.get_int s3 in
      let read = demarshall_arguments (pos_part argc) s4 >>= λ args.
      ok (from_arguments (message_type_of type) method args return_type) in
      if ltb 10 (pos_part argc) then fault else read

  unfoldable pub demarshall_message_type : Bytes → MessageType
  demarshall_message_type message = message_type_of (q.get_int message).0

  -- The C++ types of the containers, as Qt spells them.
  abbrev pub container_name : Container → Text
  container_name linked_list = text "QLinkedList<QImage>"
  container_name list = text "QList<QImage>"
  container_name stack = text "QStack<QImage>"
  container_name vector = text "QVector<QImage>"

  -- Whether a loaded value may be written to a variable of the type that `slot` names: the variable
  -- has the registered type `type`, or it is the very container that the loader writes.
  unfoldable pub fits : Text → ℕ → Datum V I → Bool
  fits slot type (images c is) =
      (q.type_id slot == type) && not (type == 0) || same slot (container_name c)
  fits slot type _ = (q.type_id slot == type) && not (type == 0)

  -- A load into the variable of the caller. A load that fails leaves a warning. A value of another
  -- type than the variable has is written all the same, which is undefined.
  unfoldable pub write_returned :
      Text → ℕ → Result (Datum V I × Bytes) → Result (Option (Datum V I))
  write_returned slot type (ok (d, rest)) = if fits slot type d then ok (some d) else fault
  write_returned slot type fail = ok none
  write_returned slot type fault = fault

  -- The part of demarshallResponse under `if (argc != 0)`; `none` is a null return argument.
  unfoldable pub load_returned : Option Text → Bytes → Result (Option (Datum V I))
  load_returned none s = ok none
  load_returned (some slot) s =
      let (type_name, s1) = q.get_string s in
      let type = q.type_id (q.to_latin1 type_name) in write_returned slot type (load_datum type s1)

  unfoldable pub load_if_any : ℤ → Option Text → Bytes → Result (Option (Datum V I))
  load_if_any (pos zero) slot s = ok none
  load_if_any _ slot s = load_returned slot s

  -- demarshallResponse: the message, without arguments, and the value stored in the variable.
  unfoldable pub demarshall_response :
      Bytes → Option Text → Result (Message V I × Option (Datum V I))
  unfolding load_if_any
  demarshall_response call slot =
      let (type, s1) = q.get_int call in
      let (method, s2) = q.get_string s1 in
      let (return_type, s3) = q.get_string s2 in
      let (argc, s4) = q.get_int s3 in
      load_if_any argc slot s4 >>= λ d.
      ok (from_arguments (message_type_of type) method [] return_type, d)
