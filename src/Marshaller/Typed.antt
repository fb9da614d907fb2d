-- ===== src/Marshaller/Typed.antt =====
-- The types of arguments that were read from a message (src/CuteIPCMarshaller.cpp).
use cute_ipc.Prelude.{
  ℕ, zero, suc, ◌≤◌, ◌≡◌, refl, ap, ◌∙◌, ltb, subst, inl, inr, List, [], ◌∷◌, ◌++◌, All, some, ◌==◌,
  Bool-cases, Option-cases, arith,
}
use cute_ipc.Prelude.Result.{Result, ok, fail, fault, ◌>>=◌, >>=-eq-ok, Result-cases}
use cute_ipc.Prelude.Int.{pos_part}
use cute_ipc.Prelude.Text.{Text, Bytes, text}
use cute_ipc.Qt.{Qt}
use cute_ipc.Message.{
  Datum, GenericArgument, Message, MessageType, Container, same_container, image, images, plain,
  linked_list, list, stack, vector, from_arguments,
}
use cute_ipc.Marshaller.Write.{
  cast_image, cast_images, save_value, marshall_image_to_stream,
  marshall_container_of_images_to_stream, marshall_plain_to_stream, marshall_argument_to_stream,
  marshall_arguments, header, or_empty, marshall_message,
}
use cute_ipc.Marshaller.Read.{
  load_datum, demarshall_argument_from_stream, demarshall_arguments, demarshall_message,
}
use cute_ipc.Marshaller.Loaded.{
  IsTyped, container_loaded, image_loaded, plain_loaded, arguments-IsTyped,
}

-- The call is defined.
abbrev pub IsDefined : {A : Type 0} → Result A → Type 0
IsDefined fault = ⊥
IsDefined _ = Unit {0}

module _ {V I : Type 0} (q : Qt V I) where
  -- The value is of the C++ type that the functions take for the registered type `type`.
  abbrev pub Holds : ℕ → Datum V I → Type 0
  Holds type d =
      (name : Text)
      → q.type_id name ≡ type
      → IsDefined (marshall_argument_to_stream q (record { name = name; value = some d }))

  plain-IsDefined :
      (type : ℕ) (v : V) (name : Text)
      → IsDefined (marshall_plain_to_stream q type (record { name = name; value = some (plain v) }))
  unfolding marshall_plain_to_stream save_value
  plain-IsDefined type v name = elim (Option-cases (q.save type v)) [
    | inl e ↦ rw (e, IsDefined) tt
    | inr (b, e) ↦ rw (e, IsDefined) tt
  ]

  image-IsDefined :
      (i : I) (name : Text)
      → IsDefined (marshall_image_to_stream q (record { name = name; value = some (image i) }))
  unfolding marshall_image_to_stream cast_image
  image-IsDefined i name = tt

  container-IsDefined :
      (c : Container) (is : List I) (name : Text)
      → IsDefined (
          marshall_container_of_images_to_stream q c
            (record { name = name; value = some (images c is) }))
  unfolding marshall_container_of_images_to_stream cast_images same_container
  container-IsDefined linked_list is name = tt
  container-IsDefined list is name = tt
  container-IsDefined stack is name = tt
  container-IsDefined vector is name = tt

  -- The ladder of tests, in both directions.
  load_datum-Holds :
      (type : ℕ) (s : Bytes) (d : Datum V I) (rest : Bytes)
      → load_datum q type s ≡ ok (d, rest)
      → Holds type d
  unfolding load_datum marshall_argument_to_stream
  load_datum-Holds type s d rest h name named = elim (Bool-cases (type == 0)) [
    | inl z ↦ rw (named, z) tt
    | inr z ↦ elim (Bool-cases (type == q.image_id)) [
      | inl e ↦
          let (i, k) = image_loaded q s (rw e at h) in
          rw (named, z, e) (rw (← k) (image-IsDefined i name))
      | inr e ↦ elim (Bool-cases (type == q.type_id (text "QLinkedList<QImage>"))) [
        | inl f ↦
            let (is, k) = container_loaded q linked_list s (rw (e, f) at h) in
            rw (named, z, e, f) (rw (← k) (container-IsDefined linked_list is name))
        | inr f ↦ elim (Bool-cases (type == q.type_id (text "QList<QImage>"))) [
          | inl g ↦
              let (is, k) = container_loaded q list s (rw (e, f, g) at h) in
              rw (named, z, e, f, g) (rw (← k) (container-IsDefined list is name))
          | inr g ↦ elim (Bool-cases (type == q.type_id (text "QStack<QImage>"))) [
            | inl t ↦
                let (is, k) = container_loaded q stack s (rw (e, f, g, t) at h) in
                rw (named, z, e, f, g, t) (rw (← k) (container-IsDefined stack is name))
            | inr t ↦ elim (Bool-cases (type == q.type_id (text "QVector<QImage>"))) [
              | inl u ↦
                  let (is, k) = container_loaded q vector s (rw (e, f, g, t, u) at h) in
                  rw (named, z, e, f, g, t, u) (rw (← k) (container-IsDefined vector is name))
              | inr u ↦
                  let (v, k, l) = plain_loaded q type s (rw (e, f, g, t, u) at h) in
                  rw (named, z, e, f, g, t, u) (rw (← k) (plain-IsDefined type v name))
            ]
          ]
        ]
      ]
    ]
  ]

  read-IsDefined :
      (s : Bytes) (a : GenericArgument V I) (rest : Bytes)
      → demarshall_argument_from_stream q s ≡ ok (a, rest)
      → IsDefined (marshall_argument_to_stream q a)
  unfolding demarshall_argument_from_stream
  read-IsDefined s a rest h =
      let name = q.to_latin1 (q.get_string s).0 in
      elim (Bool-cases (q.type_id name == 0)) [
        | inl z ↦ absurd (cc (rw z at h))
        | inr z ↦
            let ((d, more), e, e') =
              >>=-eq-ok (load_datum q (q.type_id name) (q.get_string s).1) _ (rw z at h) in
            let same_argument : record { name = name; value = some d } ≡ a = ground arith in
            subst (λ b. IsDefined (marshall_argument_to_stream q b)) same_argument
              (load_datum-Holds (q.type_id name) (q.get_string s).1 d more e name refl)
      ]

  pub both-IsDefined :
      (r : Result Bytes) (rest : Result Bytes)
      → IsDefined r
      → IsDefined rest
      → IsDefined (r >>= λ b. rest >>= λ bs. ok (b ++ bs))
  both-IsDefined (ok b) (ok bs) h k = tt
  both-IsDefined (ok b) fail h k = tt
  both-IsDefined (ok b) fault h k = k
  both-IsDefined fail rest h k = tt
  both-IsDefined fault rest h k = h

  arguments-IsDefined :
      (n : ℕ) (s : Bytes) (args : List (GenericArgument V I))
      → demarshall_arguments q n s ≡ ok args
      → IsDefined (marshall_arguments q args)
  unfolding demarshall_arguments marshall_arguments
  arguments-IsDefined zero s [] h = tt
  arguments-IsDefined zero s (a ∷ args) h = absurd (cc h)
  arguments-IsDefined (suc n) s args h = elim (Result-cases (demarshall_argument_from_stream q s)) [
    | inl ((a, rest), e) ↦
        let (more, e1, e2) =
          >>=-eq-ok (demarshall_arguments q n rest) (λ more. ok (a ∷ more))
            (rw (e, demarshall_arguments) at h) in
        let same_arguments : a ∷ more ≡ args = ground arith in
        subst (λ bs. IsDefined (marshall_arguments q bs)) same_arguments
          (both-IsDefined (marshall_argument_to_stream q a) (marshall_arguments q more)
            (read-IsDefined s a rest e) (arguments-IsDefined n rest more e1))
    | inr (inl e) ↦
        let h' = rw (e, demarshall_arguments) at h in
        let none_read : [] ≡ args = ground arith in
        subst (λ bs. IsDefined (marshall_arguments q bs)) none_read tt
    | inr (inr e) ↦ absurd (cc (rw (e, demarshall_arguments) at h))
  ]

  pub or_empty-IsDefined :
      (head : Bytes) (r : Result Bytes) → IsDefined r → IsDefined (or_empty q head r)
  unfolding or_empty
  or_empty-IsDefined head (ok body) h = tt
  or_empty-IsDefined head fail h = tt
  or_empty-IsDefined head fault h = h

  -- The bytes behind the type and the two texts of a message.
  abbrev pub behind_texts : Bytes → Bytes
  behind_texts call = (q.get_string (q.get_string (q.get_int call).1).1).1

  -- A message has at most ten arguments, which the loop read.
  pub demarshall_message-arguments :
      (call : Bytes) (m : Message V I)
      → demarshall_message q call ≡ ok m
      → (demarshall_arguments q
            (pos_part (q.get_int (behind_texts call)).0)
            (q.get_int (behind_texts call)).1
          ≡ ok m.arguments)
        × (pos_part (q.get_int (behind_texts call)).0 ≤ 10)
  unfolding demarshall_message from_arguments
  demarshall_message-arguments call m h =
      let n = pos_part (q.get_int (behind_texts call)).0 in
      elim (Bool-cases (ltb 10 n)) [
        | inl e ↦ absurd (cc (rw e at h))
        | inr e ↦
            let (args, e1, e2) =
              >>=-eq-ok (demarshall_arguments q n (q.get_int (behind_texts call)).1) _
                (rw e at h) in
            let same_arguments : args ≡ m.arguments = ground arith in
            (e1 ∙ ap ok same_arguments, ground (arith, e))
      ]

  -- The arguments of a message that was read from any bytes hold values of the types that their type
  -- names stand for: QMetaType::load gave each for the type of its name, or it is an image, or a
  -- container of images of the kind that the type is registered for. Marshalling them again, in the
  -- message or in any other one, casts no value to a type that it does not have.
  pub demarshall_message-IsTyped :
      (bytes : Bytes) (m : Message V I) (type : MessageType) (method return_type : Text)
      → demarshall_message q bytes ≡ ok m
      → All (IsTyped q) m.arguments
        × IsDefined (marshall_message q (from_arguments type method m.arguments return_type))
  unfolding marshall_message from_arguments
  demarshall_message-IsTyped bytes m type method return_type h =
      let read = (demarshall_message-arguments bytes m h).0 in
      (
        arguments-IsTyped q _ _ m.arguments read,
        or_empty-IsDefined (header q (from_arguments type method m.arguments return_type))
            (marshall_arguments q m.arguments) (arguments-IsDefined _ _ m.arguments read),
      )
