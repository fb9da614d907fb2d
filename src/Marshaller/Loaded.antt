-- ===== src/Marshaller/Loaded.antt =====
-- The values that QMetaType::load gives to the arguments of a message (src/CuteIPCMarshaller.cpp).
use cute_ipc.Prelude.{
  ℕ, zero, suc, ◌≡◌, refl, ap, ◌∙◌, subst, inl, inr, List, [], ◌∷◌, All, some, ◌==◌, Bool-cases,
  Option-cases, arith,
}
use cute_ipc.Prelude.Result.{ok, >>=-eq-ok, Result-cases}
use cute_ipc.Prelude.Text.{Bytes, text}
use cute_ipc.Qt.{Qt}
use cute_ipc.Message.{
  Datum, GenericArgument, Container, image, images, plain, linked_list, list, stack, vector,
}
use cute_ipc.Marshaller.Read.{
  container_name, load_container_of_images, load_image, load_plain, load_images_datum,
  load_image_datum, load_datum, demarshall_argument_from_stream, demarshall_arguments,
}

module _ {V I : Type 0} (q : Qt V I) where
  -- The value is one that was read as of the registered type `type`: QMetaType::load gave it for the
  -- type, or it is an image or a container of the kind that the type is registered for.
  abbrev pub IsValueOf : ℕ → Datum V I → Type 0
  IsValueOf type (plain v) = (s rest : Bytes) × (q.load type s ≡ some (v, rest))
  IsValueOf type (image i) = type ≡ q.image_id
  IsValueOf type (images c is) = type ≡ q.type_id (container_name q c)

  abbrev pub IsTyped : GenericArgument V I → Type 0
  IsTyped a = (d : Datum V I) × (a.value ≡ some d) × IsValueOf (q.type_id a.name) d

  pub container_loaded :
      (c : Container) (s : Bytes) {r : Datum V I × Bytes}
      → load_images_datum q c s ≡ ok r
      → (is : List I) × (images c is ≡ r.0)
  unfolding load_images_datum
  container_loaded c s h =
      let ((is, rest), e, e') = >>=-eq-ok (load_container_of_images q s) _ h in (is, ground arith)

  pub image_loaded :
      (s : Bytes) {r : Datum V I × Bytes} → load_image_datum q s ≡ ok r → (i : I) × (image i ≡ r.0)
  unfolding load_image_datum
  image_loaded s h = let ((i, rest), e, e') = >>=-eq-ok (load_image q s) _ h in (i, ground arith)

  pub plain_loaded :
      (type : ℕ) (s : Bytes) {r : Datum V I × Bytes}
      → load_plain q type s ≡ ok r
      → (v : V) × (plain v ≡ r.0) × (q.load type s ≡ some (v, r.1))
  unfolding load_plain
  plain_loaded type s {r} h = elim (Option-cases (q.load type s)) [
    | inl e ↦ absurd (cc (rw (e, load_plain) at h))
    | inr ((v, rest), e) ↦
        let h' = rw (e, load_plain) at h in
        let same_rest : rest ≡ r.1 = ground arith in
        (v, ground arith, e ∙ ap (λ t. some (v, t)) same_rest)
  ]

  load_datum-IsValueOf :
      (type : ℕ) (s : Bytes) (d : Datum V I) (rest : Bytes)
      → load_datum q type s ≡ ok (d, rest)
      → IsValueOf type d
  unfolding load_datum
  load_datum-IsValueOf type s d rest h = elim (Bool-cases (type == q.image_id)) [
    | inl e ↦
        let (i, k) = image_loaded s (rw e at h) in subst (IsValueOf type) k (ground (arith, e))
    | inr e ↦ elim (Bool-cases (type == q.type_id (text "QLinkedList<QImage>"))) [
      | inl f ↦
          let (is, k) = container_loaded linked_list s (rw (e, f) at h) in
          subst (IsValueOf type) k (ground (arith, f))
      | inr f ↦ elim (Bool-cases (type == q.type_id (text "QList<QImage>"))) [
        | inl g ↦
            let (is, k) = container_loaded list s (rw (e, f, g) at h) in
            subst (IsValueOf type) k (ground (arith, g))
        | inr g ↦ elim (Bool-cases (type == q.type_id (text "QStack<QImage>"))) [
          | inl t ↦
              let (is, k) = container_loaded stack s (rw (e, f, g, t) at h) in
              subst (IsValueOf type) k (ground (arith, t))
          | inr t ↦ elim (Bool-cases (type == q.type_id (text "QVector<QImage>"))) [
            | inl u ↦
                let (is, k) = container_loaded vector s (rw (e, f, g, t, u) at h) in
                subst (IsValueOf type) k (ground (arith, u))
            | inr u ↦
                let (v, k, l) = plain_loaded type s (rw (e, f, g, t, u) at h) in
                subst (IsValueOf type) k (s, rest, l)
          ]
        ]
      ]
    ]
  ]

  read-IsTyped :
      (s : Bytes) (a : GenericArgument V I) (rest : Bytes)
      → demarshall_argument_from_stream q s ≡ ok (a, rest)
      → IsTyped a
  unfolding demarshall_argument_from_stream
  read-IsTyped s a rest h =
      let name = q.to_latin1 (q.get_string s).0 in
      elim (Bool-cases (q.type_id name == 0)) [
        | inl z ↦ absurd (cc (rw z at h))
        | inr z ↦
            let ((d, more), e, e') =
              >>=-eq-ok (load_datum q (q.type_id name) (q.get_string s).1) _ (rw z at h) in
            let same_argument : record { name = name; value = some d } ≡ a = ground arith in
            subst IsTyped same_argument
              (d, refl, load_datum-IsValueOf (q.type_id name) (q.get_string s).1 d more e)
      ]

  pub arguments-IsTyped :
      (n : ℕ) (s : Bytes) (args : List (GenericArgument V I))
      → demarshall_arguments q n s ≡ ok args
      → All IsTyped args
  unfolding demarshall_arguments
  arguments-IsTyped zero s [] h = tt
  arguments-IsTyped zero s (a ∷ args) h = absurd (cc h)
  arguments-IsTyped (suc n) s args h = elim (Result-cases (demarshall_argument_from_stream q s)) [
    | inl ((a, rest), e) ↦
        let (more, e1, e2) =
          >>=-eq-ok (demarshall_arguments q n rest) (λ more. ok (a ∷ more))
            (rw (e, demarshall_arguments) at h) in
        let same_arguments : a ∷ more ≡ args = ground arith in
        subst (All IsTyped) same_arguments
          (read-IsTyped s a rest e, arguments-IsTyped n rest more e1)
    | inr (inl e) ↦
        let h' = rw (e, demarshall_arguments) at h in
        let none_read : [] ≡ args = ground arith in subst (All IsTyped) none_read tt
    | inr (inr e) ↦ absurd (cc (rw (e, demarshall_arguments) at h))
  ]
