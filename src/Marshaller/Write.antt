-- ===== src/Marshaller/Write.antt =====
-- The marshalling half of src/CuteIPCMarshaller.cpp. A QDataStream that is written to is the list of
-- the bytes written, so a function returns the bytes that it appends.
use cute_ipc.Prelude.{ℕ, List, [], ◌∷◌, ◌++◌, Option, none, some, length, ◌==◌, if◌then◌else◌}
use cute_ipc.Prelude.Int.{pos}
use cute_ipc.Prelude.Result.{Result, ok, fail, fault, ◌>>=◌}
use cute_ipc.Prelude.Text.{Text, Bytes, text}
use cute_ipc.Qt.{Qt}
use cute_ipc.Message.{
  Datum, GenericArgument, Message, Container, image, images, plain, linked_list, list, stack,
  vector, code, same_container,
}

module _ {V I : Type 0} (q : Qt V I) where
  -- static_cast<QImage*>, dereferenced: undefined unless the argument holds an image.
  unfoldable pub cast_image : Option (Datum V I) → Result I
  cast_image (some (image i)) = ok i
  cast_image _ = fault

  unfoldable pub cast_images : Container → Option (Datum V I) → Result (List I)
  cast_images c (some (images d is)) = if same_container c d then ok is else fault
  cast_images c _ = fault

  -- The bytes of an image after its type name.
  unfoldable pub image_fields : I → Bytes
  image_fields i =
      q.put_int (q.width i)
      ++ (q.put_int (q.height i)
          ++ (q.put_int (q.bytes_per_line i)
              ++ (q.put_int (q.format i)
                  ++ (q.put_int (q.dots_per_meter_x i)
                      ++ (q.put_int (q.dots_per_meter_y i)
                          ++ (q.put_colors (q.color_table i)
                              ++ (q.put_int (pos (length (q.const_bits i))) ++ q.const_bits i)))))))

  unfoldable pub marshall_image : Text → I → Bytes
  marshall_image name i = q.put_string name ++ image_fields i

  unfoldable pub marshall_image_to_stream : GenericArgument V I → Result Bytes
  marshall_image_to_stream value = do i ← cast_image value.value; ok (marshall_image value.name i)

  unfoldable pub put_all : List Bytes → Bytes
  put_all [] = []
  put_all (dt ∷ dts) = q.put_bytes dt ++ put_all dts

  unfoldable pub image_blocks : List I → List Bytes
  image_blocks [] = []
  image_blocks (i ∷ is) = marshall_image (text "QImage") i ∷ image_blocks is

  unfoldable pub marshall_container_of_images_to_stream :
      Container → GenericArgument V I → Result Bytes
  marshall_container_of_images_to_stream c value = do
    is ← cast_images c value.value
    let blocks = image_blocks is
    ok (q.put_string value.name ++ (q.put_int (pos (length blocks)) ++ put_all blocks))

  -- QMetaType::save, which answers false on a null pointer. A value of an image type never gets here.
  unfoldable pub save_value : ℕ → Option (Datum V I) → Result Bytes
  save_value type (some (plain v)) = elim (q.save type v) [ none ↦ fail | some b ↦ ok b ]
  save_value type none = fail
  save_value type _ = fault

  unfoldable pub marshall_plain_to_stream : ℕ → GenericArgument V I → Result Bytes
  unfolding save_value
  marshall_plain_to_stream type value = do
    b ← save_value type value.value
    ok (q.put_string value.name ++ b)

  unfoldable pub marshall_argument_to_stream : GenericArgument V I → Result Bytes
  marshall_argument_to_stream value =
      let type = q.type_id value.name in
      if type == 0
      then fail
      else if type == q.image_id
      then marshall_image_to_stream value
      else if type == q.type_id (text "QLinkedList<QImage>")
      then marshall_container_of_images_to_stream linked_list value
      else if type == q.type_id (text "QList<QImage>")
      then marshall_container_of_images_to_stream list value
      else if type == q.type_id (text "QStack<QImage>")
      then marshall_container_of_images_to_stream stack value
      else if type == q.type_id (text "QVector<QImage>")
      then marshall_container_of_images_to_stream vector value
      else marshall_plain_to_stream type value

  unfoldable pub marshall_arguments : List (GenericArgument V I) → Result Bytes
  marshall_arguments [] = ok []
  marshall_arguments (a ∷ args) = do
    b ← marshall_argument_to_stream a
    bs ← marshall_arguments args
    ok (b ++ bs)

  unfoldable pub header : Message V I → Bytes
  header m =
      q.put_int (code m.message_type)
      ++ (q.put_string m.method
          ++ (q.put_string m.return_type ++ q.put_int (pos (length m.arguments))))

  -- An argument that fails makes the result the empty QByteArray.
  unfoldable pub or_empty : Bytes → Result Bytes → Result Bytes
  or_empty head (ok bs) = ok (head ++ bs)
  or_empty head fail = ok []
  or_empty head fault = fault

  unfoldable pub marshall_message : Message V I → Result Bytes
  unfolding or_empty header
  marshall_message m = or_empty (header m) (marshall_arguments m.arguments)
