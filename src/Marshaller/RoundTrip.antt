-- ===== src/Marshaller/RoundTrip.antt =====
-- marshallMessage and then demarshallMessage (src/CuteIPCMarshaller.cpp).
use cute_ipc.Prelude.{
  ℕ, ◌<◌, ◌≤◌, ltb, ◌≡◌, ◌≢◌, refl, sym, false, inl, inr, List, [], ◌∷◌, ◌++◌, append_assoc, Option,
  none, some, length, All, arith, ◌==◌, Bool-cases, Option-cases,
}
use cute_ipc.Prelude.Int.{pos, IsInt32}
use cute_ipc.Prelude.Result.{Result, ok, fail, fault, >>=-eq-ok}
use cute_ipc.Prelude.Text.{Text, Bytes, IsLatin1, text}
use cute_ipc.Qt.{Qt}
use cute_ipc.Message.{
  Datum, GenericArgument, Message, MessageType, Container, same_container, same_container→eq, image,
  images, plain, linked_list, list, stack, vector, code, message_type_of, from_arguments, other,
}
use cute_ipc.Marshaller.Write.{
  cast_image, cast_images, image_fields, marshall_image, marshall_image_to_stream,
  marshall_container_of_images_to_stream, marshall_plain_to_stream, marshall_argument_to_stream,
  marshall_arguments, header, or_empty, marshall_message,
}
use cute_ipc.Marshaller.Read.{
  load_image_datum, load_images_datum, load_plain, load_datum, demarshall_argument_from_stream,
  demarshall_arguments, demarshall_message,
}
use cute_ipc.Marshaller.Images.{
  load_image-image_fields, container_fields, load_container-container_fields,
}

-- A type of the enumeration.
abbrev pub IsListed : MessageType → Type 0
IsListed (other n) = ⊥
IsListed _ = Unit {0}

pub code-IsInt32 : (t : MessageType) → IsListed t → IsInt32 (code t)
unfolding code
code-IsInt32 (other n) h = absurd h
code-IsInt32 _ h = omega arith

pub message_type_of-code : (t : MessageType) → IsListed t → message_type_of (code t) ≡ t
unfolding message_type_of code
message_type_of-code (other n) h = absurd h
message_type_of-code _ h = refl

module _ {V I : Type 0} where
  -- The size of a container is an int.
  abbrev pub IsSmall : Option (Datum V I) → Type 0
  IsSmall (some (images c is)) = length is < 2147483648
  IsSmall _ = Unit {0}

  abbrev pub IsSendable : GenericArgument V I → Type 0
  IsSendable a = IsLatin1 a.name × IsSmall a.value

  abbrev pub IsSendableMessage : Message V I → Type 0
  IsSendableMessage m =
      IsListed m.message_type × All IsSendable m.arguments × (length m.arguments ≤ 10)

module _ {V I : Type 0} (q : Qt V I) where
  -- `bs` is the name and then bytes from which `load` takes the value, whatever follows.
  abbrev pub Splits :
      GenericArgument V I → Bytes → (Bytes → Result (Datum V I × Bytes)) → Bytes → Type 0
  Splits a bs load rest =
      (body : Bytes) × (d : Datum V I) × (bs ≡ q.put_string a.name ++ body)
      × (a.value ≡ some d)
      × (load (body ++ rest) ≡ ok (d, rest))

  image-Splits :
      (name : Text) (v : Option (Datum V I)) (bs rest : Bytes)
      → marshall_image_to_stream q (record { name = name; value = v }) ≡ ok bs
      → Splits (record { name = name; value = v }) bs (load_image_datum q) rest
  unfolding marshall_image_to_stream cast_image marshall_image load_image_datum
  image-Splits name none bs rest h = cc
  image-Splits name (some (image i)) bs rest h =
      (image_fields q i, image i, ground arith, refl, rw (load_image-image_fields q i rest))
  image-Splits name (some (images c is)) bs rest h = cc
  image-Splits name (some (plain v)) bs rest h = cc

  images-Splits :
      (c : Container) (name : Text) (v : Option (Datum V I)) (bs rest : Bytes)
      → marshall_container_of_images_to_stream q c (record { name = name; value = v }) ≡ ok bs
      → IsSmall v
      → Splits (record { name = name; value = v }) bs (load_images_datum q c) rest
  unfolding marshall_container_of_images_to_stream cast_images load_images_datum
  images-Splits c name none bs rest h s = cc
  images-Splits c name (some (image i)) bs rest h s = cc
  images-Splits c name (some (images d is)) bs rest h s = elim (Bool-cases (same_container c d)) [
    | inl e ↦
        let e' : d ≡ c = sym (same_container→eq c d e) in
        (
          container_fields q is,
          images d is,
          ground arith,
          refl,
          rw (load_container-container_fields q is rest s) (cc),
        )
    | inr e ↦ cc
  ]
  images-Splits c name (some (plain v)) bs rest h s = cc

  plain-Splits :
      (t : ℕ) (name : Text) (v : Option (Datum V I)) (bs rest : Bytes)
      → marshall_plain_to_stream q t (record { name = name; value = v }) ≡ ok bs
      → Splits (record { name = name; value = v }) bs (load_plain q t) rest
  unfolding marshall_plain_to_stream load_plain
  plain-Splits t name none bs rest h = cc
  plain-Splits t name (some (image i)) bs rest h = cc
  plain-Splits t name (some (images d is)) bs rest h = cc
  plain-Splits t name (some (plain v)) bs rest h = elim (Option-cases (q.save t v)) [
    | inl e ↦ cc
    | inr (b, e) ↦ (b, plain v, ground arith, refl, rw (q.load-save t v rest e, load_plain))
  ]

  -- The two ladders of type tests agree.
  pub argument-Splits :
      (a : GenericArgument V I) (bs rest : Bytes)
      → marshall_argument_to_stream q a ≡ ok bs
      → IsSmall a.value
      → (q.type_id a.name ≢ 0) × Splits a bs (load_datum q (q.type_id a.name)) rest
  unfolding marshall_argument_to_stream load_datum
  argument-Splits a bs rest h s =
      let t = q.type_id a.name in
      elim (Bool-cases (t == 0)) [
        | inl e ↦ cc
        | inr e0 ↦ (
          ground arith,
          elim (Bool-cases (t == q.image_id)) [
            | inl e ↦ rw e (image-Splits a.name a.value bs rest (rw (e0, e) at h))
            | inr e1 ↦ elim (Bool-cases (t == q.type_id (text "QLinkedList<QImage>"))) [
              | inl e ↦
                  rw (e1, e)
                    (images-Splits linked_list a.name a.value bs rest (rw (e0, e1, e) at h) s)
              | inr e2 ↦ elim (Bool-cases (t == q.type_id (text "QList<QImage>"))) [
                | inl e ↦
                    rw (e1, e2, e)
                      (images-Splits list a.name a.value bs rest (rw (e0, e1, e2, e) at h) s)
                | inr e3 ↦ elim (Bool-cases (t == q.type_id (text "QStack<QImage>"))) [
                  | inl e ↦
                      rw (e1, e2, e3, e)
                        (images-Splits stack a.name a.value bs rest (rw (e0, e1, e2, e3, e) at h) s)
                  | inr e4 ↦ elim (Bool-cases (t == q.type_id (text "QVector<QImage>"))) [
                    | inl e ↦
                        rw (e1, e2, e3, e4, e)
                          (images-Splits vector a.name a.value bs rest
                            (rw (e0, e1, e2, e3, e4, e) at h) s)
                    | inr e5 ↦
                        rw (e1, e2, e3, e4, e5)
                          (plain-Splits t a.name a.value bs rest (rw (e0, e1, e2, e3, e4, e5) at h))
                  ]
                ]
              ]
            ]
          ],
        )
      ]

  pub demarshall_argument-marshall_argument :
      (a : GenericArgument V I) (bs rest : Bytes)
      → marshall_argument_to_stream q a ≡ ok bs
      → IsSendable a
      → demarshall_argument_from_stream q (bs ++ rest) ≡ ok (a, rest)
  unfolding demarshall_argument_from_stream
  demarshall_argument-marshall_argument a bs rest h (latin, small) =
      let (ne, (body, d, e, ev, el)) = argument-Splits a bs rest h small in
      let registered : (q.type_id a.name == 0) ≡ false = ground arith in
      rw
        (
          e,
          append_assoc,
          q.get_string-put_string a.name (body ++ rest),
          q.to_latin1_latin a.name latin,
          registered,
          el,
        )
        (cc)

  pub demarshall_arguments-marshall_arguments :
      (args : List (GenericArgument V I)) (bs : Bytes)
      → marshall_arguments q args ≡ ok bs
      → All IsSendable args
      → demarshall_arguments q (length args) bs ≡ ok args
  unfolding demarshall_arguments marshall_arguments
  demarshall_arguments-marshall_arguments [] bs h s = refl
  demarshall_arguments-marshall_arguments (a ∷ args) bs h (sa, ss) =
      let (b, eb, h') = >>=-eq-ok (marshall_argument_to_stream q a) _ h in
      let (bs', ebs, h'') = >>=-eq-ok (marshall_arguments q args) _ h' in
      let e : bs ≡ b ++ bs' = cc in
      rw (
        e,
        demarshall_argument-marshall_argument a b bs' eb sa,
        demarshall_arguments-marshall_arguments args bs' ebs ss,
        demarshall_arguments,
      )

  pub or_empty-eq-ok :
      (head : Bytes) (r : Result Bytes) (bs : Bytes)
      → or_empty q head r ≡ ok bs
      → bs ≢ []
      → (body : Bytes) × (r ≡ ok body) × (bs ≡ head ++ body)
  unfolding or_empty
  or_empty-eq-ok head (ok body) bs h ne = (body, refl, ground arith)
  or_empty-eq-ok head fail bs h ne = absurd (ne (cc))
  or_empty-eq-ok head fault bs h ne = cc

  demarshall_message-header :
      (m : Message V I) (body : Bytes)
      → marshall_arguments q m.arguments ≡ ok body
      → IsSendableMessage m
      → demarshall_message q (header q m ++ body) ≡ ok m
  unfolding demarshall_message header from_arguments
  demarshall_message-header m body h (listed, args, small) =
      let accepted : ltb 10 (length m.arguments) ≡ false = ground arith in
      simp (
        append_assoc,
        q.get_int-put_int (code m.message_type) _ (code-IsInt32 m.message_type listed),
        q.get_string-put_string m.method,
        q.get_string-put_string m.return_type,
        q.get_int-put_int (pos (length m.arguments)) _ (omega (arith, small)),
        accepted,
        demarshall_arguments-marshall_arguments m.arguments body h args,
        message_type_of-code m.message_type listed,
      )

  -- A message that was marshalled to bytes that are not empty is read back whole, every part of
  -- it, the arguments in order. The conditions: its type is one of the enumeration, it has at
  -- most ten arguments, their type names are Latin-1, and the counts of images in a container
  -- fit an int.
  pub demarshall_message-marshall_message :
      (m : Message V I) (bs : Bytes)
      → marshall_message q m ≡ ok bs
      → bs ≢ []
      → IsSendableMessage m
      → demarshall_message q bs ≡ ok m
  unfolding marshall_message
  demarshall_message-marshall_message m bs h ne (listed, args, small) =
      let (body, e, split) =
        or_empty-eq-ok (header q m) (marshall_arguments q m.arguments) bs h ne in
      rw split (demarshall_message-header m body e (listed, args, small))
