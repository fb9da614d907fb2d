-- ===== src/Memory/Arguments.antt =====
-- The arguments of a message that is read are freed, each once and as what it was allocated as
-- (src/CuteIPCMarshaller.cpp).
use cute_ipc.Prelude.{
  ℕ, zero, suc, false, ltb, ◌+◌, ◌≤◌, ◌≡◌, refl, ap, ◌∙◌, inl, inr, List, [], ◌∷◌, ◌++◌, Option,
  none, some, length, map, All, ◌==◌, Bool-cases, Option-cases, arith,
}
use cute_ipc.Prelude.Result.{Result, ok, fail, fault, Result-cases, >>=-eq-ok}
use cute_ipc.Prelude.Text.{Text, Bytes}
use cute_ipc.Qt.{Qt}
use cute_ipc.Message.{GenericArgument, Message, from_arguments}
use cute_ipc.Marshaller.Read.{
  load_datum, demarshall_argument_from_stream, demarshall_arguments, demarshall_message,
}
use cute_ipc.Marshaller.Typed.{IsDefined, demarshall_message-arguments}
use cute_ipc.Memory.{
  name_cell, value_cell, Cell, Heap, allocate, Owned, keep_or_destroy, argument_memory,
  arguments_memory, announced_arguments, message_memory, free_argument, free_arguments,
}
use cute_ipc.Memory.Cells.{
  Balance, Balance-refl, Balance-trans, allocate-Balance, release-Balance, count, count-append,
}
use cute_ipc.Memory.Loading.{IsBits, datum_memory-Loads}

module _ {V I : Type 0} (q : Qt V I) where
  -- The cells of an argument that was read, and of all of them.
  abbrev pub data_cells : Text → Option ℕ → List Cell
  data_cells type none = []
  data_cells type (some address) =
      record { address = address; kind = value_cell (q.type_id type) } ∷ []

  abbrev pub cells_of : Owned → List Cell
  cells_of a =
      data_cells a.name a.data_address ++ record { address = a.name_address; kind = name_cell } ∷ []

  abbrev pub all_cells : List Owned → List Cell
  all_cells [] = []
  all_cells (a ∷ owned) = cells_of a ++ all_cells owned

  -- The memory of one argument: it is the argument's if there is one, and freed otherwise.
  abbrev pub Reads :
      Result (GenericArgument V I × Bytes) → Result (Heap × Option (Owned × Bytes)) → Heap → Type 0
  Reads (ok (a, rest)) m h =
      (h' : Heap) × (owned : Owned) × (m ≡ ok (h', some (owned, rest)))
      × (owned.name ≡ a.name)
      × Balance h h' (cells_of owned)
  Reads fail m h =
      (h' : Heap) × (lost : List Cell) × (m ≡ ok (h', none))
      × All IsBits lost
      × (length lost ≤ 1)
      × Balance h h' lost
  Reads fault m h = ⊥

  argument_memory-Reads :
      (s : Bytes) (h : Heap)
      → IsDefined (demarshall_argument_from_stream q s)
      → Reads (demarshall_argument_from_stream q s) (argument_memory q s h) h
  unfolding demarshall_argument_from_stream argument_memory keep_or_destroy
  argument_memory-Reads s h d =
      let type_name = q.to_latin1 (q.get_string s).0 in
      let s1 = (q.get_string s).1 in
      let type = q.type_id type_name in
      let c = (allocate (value_cell type) h).0 in
      let h1 = (allocate (value_cell type) h).1 in
      let b1 = allocate-Balance (value_cell type) h in
      elim (Bool-cases (type == 0)) [
        | inl z ↦ rw (z, Reads) (h, [], refl, tt, omega arith, Balance-refl h)
        | inr z ↦ elim (Result-cases (load_datum q type s1)) [
          | inl ((x, rest), e) ↦
              let (h2, lost, em, l, b2) = datum_memory-Loads q type s1 h1 (rw (e, IsDefined) tt) in
              let lost_none : lost ≡ [] = rw e at l in
              let c3 = (allocate name_cell h2).0 in
              rw (z, e, em, keep_or_destroy, Reads)
                (
                  (allocate name_cell h2).1,
                  record {
                    name = type_name;
                    name_address = c3.address;
                    data_address = some c.address;
                  },
                  refl,
                  refl,
                  record {
                    counts = λ y. omega (arith, b1.counts y, b2.counts y, ap (count y) lost_none);
                  },
                )
          | inr (inl e) ↦
              let (h2, lost, em, l, b2) = datum_memory-Loads q type s1 h1 (rw (e, IsDefined) tt) in
              let (bits_only, few) = rw e at l in
              let (h3, freed, b3) =
                release-Balance c h h2 [] lost (Balance-trans h h1 h2 (c ∷ []) lost b1 b2) in
              rw (z, e, em, keep_or_destroy, freed, Reads) (h3, lost, refl, bits_only, few, b3)
          | inr (inr e) ↦ absurd (rw (z, e) at d)
        ]
      ]

  arguments_memory-Reads :
      (n : ℕ) (s : Bytes) (h : Heap) (args : List (GenericArgument V I))
      → demarshall_arguments q n s ≡ ok args
      → (h' : Heap) × (owned : List Owned) × (lost : List Cell) × (arguments_memory q n s h
          ≡ ok (h', owned))
        × (map (λ a. a.name) owned ≡ map (λ a. a.name) args)
        × All IsBits lost
        × (length lost ≤ 1)
        × (length lost + length args ≤ n)
        × Balance h h' (all_cells owned ++ lost)
  unfolding demarshall_arguments arguments_memory
  arguments_memory-Reads zero s h args e =
      let nothing : [] ≡ args = ground arith in
      (
        h,
        [],
        [],
        refl,
        ap (map (λ a. a.name)) nothing,
        tt,
        omega arith,
        omega (arith, ap length nothing),
        Balance-refl h,
      )
  arguments_memory-Reads (suc n) s h args e =
      let r = demarshall_argument_from_stream q s in
      elim (Result-cases r) [
        | inl ((a, rest), e1) ↦
            let (h1, owned, em, named, b1) =
              rw e1 at (argument_memory-Reads s h (rw (e1, IsDefined) tt)) in
            let (more, e2, e3) =
              >>=-eq-ok (demarshall_arguments q n rest) _ (rw (e1, demarshall_arguments) at e) in
            let whole : a ∷ more ≡ args = ground arith in
            let (h2, others, lost, em', names, bits_only, few, room, b2) =
              arguments_memory-Reads n rest h1 more e2 in
            (
              h2,
              owned ∷ others,
              lost,
              rw (em, arguments_memory, em') refl,
              (λ i. named i ∷ names i) ∙ ap (map (λ a. a.name)) whole,
              bits_only,
              few,
              omega (arith, room, ap length whole),
              record {
                counts = λ x. omega (
                  arith,
                  b1.counts x,
                  b2.counts x,
                  count-append x (cells_of owned) (all_cells others ++ lost),
                  count-append x (cells_of owned) (all_cells others),
                  count-append x (cells_of owned ++ all_cells others) lost,
                  count-append x (all_cells others) lost,
                );
              },
            )
        | inr (inl e1) ↦
            let (h1, lost, em, bits_only, few, b1) =
              rw e1 at (argument_memory-Reads s h (rw (e1, IsDefined) tt)) in
            let nothing : [] ≡ args = ground (arith, rw (e1, demarshall_arguments) at e) in
            (
              h1,
              [],
              lost,
              rw (em, arguments_memory) refl,
              ap (map (λ a. a.name)) nothing,
              bits_only,
              few,
              omega (arith, few, ap length nothing),
              b1,
            )
        | inr (inr e1) ↦ absurd (cc (rw (e1, demarshall_arguments) at e))
      ]

  -- Arguments among the cells that were added can be freed.
  pub free_arguments-Balance :
      (owned : List Owned) (h h1 : Heap) (lost : List Cell)
      → Balance h h1 (all_cells owned ++ lost)
      → (h2 : Heap) × (free_arguments q owned h1 ≡ ok h2) × Balance h h2 lost
  unfolding free_arguments free_argument
  free_arguments-Balance [] h h1 lost b = (h1, refl, b)
  free_arguments-Balance (a ∷ owned) h h1 lost b =
      let c : Cell = record { address = a.name_address; kind = name_cell } in
      elim (Option-cases a.data_address) [
        | inl e ↦
            let (h2, freed, b2) = release-Balance c h h1 [] (all_cells owned ++ lost) (rw e at b) in
            let (h3, e3, b3) = free_arguments-Balance owned h h2 lost b2 in
            (h3, rw (e, free_arguments, freed) e3, b3)
        | inr (address, e) ↦
            let d : Cell = record { address = address; kind = value_cell (q.type_id a.name) } in
            let (h', destroyed, b') =
              release-Balance d h h1 [] (c ∷ (all_cells owned ++ lost)) (rw e at b) in
            let (h2, freed, b2) = release-Balance c h h' [] (all_cells owned ++ lost) b' in
            let (h3, e3, b3) = free_arguments-Balance owned h h2 lost b2 in
            (h3, rw (e, free_arguments, destroyed, freed) e3, b3)
      ]

  -- The memory of a whole message.
  pub message_memory-Reads :
      (call : Bytes) (h : Heap) (m : Message V I)
      → demarshall_message q call ≡ ok m
      → (h' : Heap) × (owned : List Owned) × (lost : List Cell) × (message_memory q call h
          ≡ ok (h', owned))
        × (map (λ a. a.name) owned ≡ map (λ a. a.name) m.arguments)
        × All IsBits lost
        × (length lost ≤ 1)
        × (length lost + length m.arguments ≤ (announced_arguments q call).0)
        × Balance h h' (all_cells owned ++ lost)
  unfolding demarshall_message message_memory announced_arguments from_arguments
  message_memory-Reads call h m e =
      let (read, few) = demarshall_message-arguments q call m e in
      let accepted : ltb 10 (announced_arguments q call).0 ≡ false = ground (arith, few) in
      rw accepted (arguments_memory-Reads _ _ h m.arguments read)
