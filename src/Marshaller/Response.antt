-- ===== src/Marshaller/Response.antt =====
-- A response as demarshallResponse reads it.
use cute_ipc.Prelude.{
  ℕ, ◌<◌, ◌≡◌, ◌≢◌, ◌∙◌, true, false, [], ◌∷◌, ◌++◌, append_assoc, append-nil, Option, some, length,
  if◌then◌else◌, arith,
}
use cute_ipc.Prelude.Int.{pos}
use cute_ipc.Prelude.Result.{Result, ok, fail, fault, ◌>>=◌}
use cute_ipc.Prelude.Text.{Text, Bytes}
use cute_ipc.Qt.{Qt}
use cute_ipc.Message.{
  Datum, GenericArgument, Message, message_response, code, from_arguments, images, plain,
}
use cute_ipc.Marshaller.Write.{
  marshall_argument_to_stream, marshall_arguments, header, marshall_message,
}
use cute_ipc.Marshaller.Read.{fits, write_returned, load_returned, load_if_any, demarshall_response}
use cute_ipc.Marshaller.RoundTrip.{
  IsSendable, argument-Splits, or_empty-eq-ok, IsListed, code-IsInt32, message_type_of-code,
}

module _ {V I : Type 0} (q : Qt V I) where
  -- The header, and then an argument or none.
  pub demarshall_response-header :
      (m : Message V I) (body : Bytes) (slot : Option Text)
      → IsListed m.message_type
      → length m.arguments < 2147483648
      → demarshall_response q (header q m ++ body) slot ≡ (
          load_if_any q (pos (length m.arguments)) slot body >>= λ d.
          ok (from_arguments m.message_type m.method [] m.return_type, d))
  unfolding demarshall_response header
  demarshall_response-header m body slot listed small = simp (
    append_assoc,
    q.get_int-put_int (code m.message_type) _ (code-IsInt32 m.message_type listed),
    q.get_string-put_string m.method,
    q.get_string-put_string m.return_type,
    q.get_int-put_int (pos (length m.arguments)) _ small,
    message_type_of-code m.message_type listed,
  )

  -- What is done with the value of a marshalled argument.
  load_returned-marshall_argument :
      (a : GenericArgument V I) (bs : Bytes) (slot : Text)
      → marshall_argument_to_stream q a ≡ ok bs
      → IsSendable a
      → (d : Datum V I) × (a.value ≡ some d)
        × (q.type_id a.name ≢ 0)
        × (load_returned q (some slot) bs
            ≡ (if fits q slot (q.type_id a.name) d then ok (some d) else fault))
  unfolding load_returned write_returned
  load_returned-marshall_argument a bs slot h (latin, small) =
      let (ne, (body, d, e, ev, el)) = argument-Splits q a bs [] h small in
      (
        d,
        ev,
        ne,
        rw (
          e,
          q.get_string-put_string a.name body,
          q.to_latin1_latin a.name latin,
          rw append-nil at el,
        ),
      )

  single_result :
      (r : Result Bytes) (bs : Bytes)
      → (r >>= λ b. ok [] >>= λ rest. ok (b ++ rest)) ≡ ok bs
      → r ≡ ok bs
  single_result (ok b) bs h = ground (arith, append-nil b)
  single_result fail bs h = cc
  single_result fault bs h = cc

  single_argument :
      (a : GenericArgument V I) (bs : Bytes)
      → marshall_arguments q (a ∷ []) ≡ ok bs
      → marshall_argument_to_stream q a ≡ ok bs
  unfolding marshall_arguments
  single_argument a bs h = single_result (marshall_argument_to_stream q a) bs h

  -- A response without a value.
  abbrev pub bare_response : Text → Message V I
  bare_response method = record {
    method = method;
    arguments = [];
    message_type = message_response;
    return_type = [];
  }

  -- A response with the value `a`.
  abbrev pub value_response : Text → GenericArgument V I → Message V I
  value_response method a = record {
    method = method;
    arguments = a ∷ [];
    message_type = message_response;
    return_type = [];
  }

  response_value :
      (method : Text) (a : GenericArgument V I) (bs : Bytes) (slot : Text)
      → marshall_message q (value_response method a) ≡ ok bs
      → bs ≢ []
      → IsSendable a
      → (d : Datum V I) × (a.value ≡ some d)
        × (q.type_id a.name ≢ 0)
        × (demarshall_response q bs (some slot) ≡ (
            (if fits q slot (q.type_id a.name) d then ok (some d) else fault) >>= λ d'.
            ok (bare_response method, d')))
  unfolding marshall_message load_if_any from_arguments
  response_value method a bs slot h ne sendable =
      let m = value_response method a in
      let (body, e, split) =
        or_empty-eq-ok q (header q m) (marshall_arguments q (a ∷ [])) bs h ne in
      let (d, ev, registered, el) =
        load_returned-marshall_argument a body slot (single_argument a body e) sendable in
      (
        d,
        ev,
        registered,
        rw (split, demarshall_response-header m body (some slot) tt (omega arith), el),
      )

  abbrev written : Text → Text → ℕ → Datum V I → Result (Message V I × Option (Datum V I))
  written method slot type d =
      (if fits q slot type d then ok (some d) else fault) >>= λ d'. ok (bare_response method, d')

  fits_registered :
      (slot : Text) (type : ℕ) (d : Datum V I)
      → q.type_id slot ≡ type
      → type ≢ 0
      → fits q slot type d ≡ true
  unfolding fits
  fits_registered slot type (images c is) e ne = ground arith
  fits_registered slot type _ e ne = ground arith

  stored_if_fits :
      (method slot : Text) (type : ℕ) (d : Datum V I) (value : Option (Datum V I))
      → value ≡ some d
      → fits q slot type d ≡ true
      → written method slot type d ≡ ok (bare_response method, value)
  stored_if_fits method slot type d value e f = rw (f, e)

  fits_plain :
      (slot : Text) (type : ℕ) (v : V) → q.type_id slot ≢ type → fits q slot type (plain v) ≡ false
  unfolding fits
  fits_plain slot type v ne = ground arith

  undefined_if_plain :
      (method slot : Text) (type : ℕ) (d : Datum V I) (v : V)
      → d ≡ plain v
      → q.type_id slot ≢ type
      → written method slot type d ≡ fault
  undefined_if_plain method slot type d v e ne = rw (e, fits_plain slot type v ne)

  -- The value that the service returned is stored in a variable of the same registered type, and the
  -- message that comes with it has the method of the call and no arguments.
  pub demarshall_response-marshall_message :
      (method : Text) (a : GenericArgument V I) (bs : Bytes) (slot : Text)
      → marshall_message q (value_response method a) ≡ ok bs
      → bs ≢ []
      → IsSendable a
      → q.type_id slot ≡ q.type_id a.name
      → demarshall_response q bs (some slot) ≡ ok (bare_response method, a.value)
  demarshall_response-marshall_message method a bs slot h ne sendable same_type =
      let (d, ev, registered, e) = response_value method a bs slot h ne sendable in
      e
      ∙ stored_if_fits method slot (q.type_id a.name) d a.value ev
          (fits_registered slot (q.type_id a.name) d same_type registered)

  -- The types are only compared for a warning: a value that is no image, of another registered type
  -- than the variable has, is written to the variable through a pointer of the wrong type.
  pub demarshall_response_mismatch :
      (method : Text) (a : GenericArgument V I) (v : V) (bs : Bytes) (slot : Text)
      → marshall_message q (value_response method a) ≡ ok bs
      → bs ≢ []
      → IsSendable a
      → a.value ≡ some (plain v)
      → q.type_id slot ≢ q.type_id a.name
      → demarshall_response q bs (some slot) ≡ fault
  demarshall_response_mismatch method a v bs slot h ne sendable ev' differs =
      let (d, ev, registered, e) = response_value method a bs slot h ne sendable in
      e ∙ undefined_if_plain method slot (q.type_id a.name) d v (cc) differs
