-- ===== src/Example/Values.antt =====
-- A call that expects a value, at a concrete service.
use cute_ipc.Prelude.{ℕ, ◌≡◌, refl, sym, subst, inl, inr, true, [], ◌∷◌, some, Bool-cases, arith}
use cute_ipc.Prelude.Result.{ok}
use cute_ipc.Prelude.Text.{Text, text, same, same→eq}
use cute_ipc.Message.{Message, plain, message_call_with_return}
use cute_ipc.Marshaller.Write.{marshall_argument_to_stream, marshall_plain_to_stream, save_value}
use cute_ipc.Marshaller.Typed.{IsDefined}
use cute_ipc.ServiceConnection.{State, process_call}
use cute_ipc.ServiceConnection.Answers.{Answered}
use cute_ipc.ServiceConnection.Values.{FillsIn, calls-Answered}
use cute_ipc.Example.Types.{Pixel, Value, number, example_qt, example_objects}
use cute_ipc.Example.Calls.{connection, state, int_argument}

number-IsDefined :
    (n : ℕ) (type : Text)
    → same type (text "int") ≡ true
    → IsDefined (
        marshall_argument_to_stream example_qt
          (record { name = type; value = some (plain (number n)) }))
unfolding marshall_argument_to_stream marshall_plain_to_stream save_value same
number-IsDefined n type e =
    subst
      (λ t. IsDefined (
        marshall_argument_to_stream example_qt
          (record { name = t; value = some (plain (number n)) })))
      (sym (same→eq type (text "int") e)) tt

int_filled_in : FillsIn example_qt example_objects
int_filled_in w w' object method type args d h = elim (Bool-cases (same type (text "int"))) [
  | inr e ↦ ground arith
  | inl e ↦
      let same_value : plain (number w) ≡ d = ground arith in
      subst
        (λ x.
          IsDefined
            (marshall_argument_to_stream example_qt (record { name = type; value = some x })))
        same_value (number-IsDefined w type e)
]

abbrev read_message : Message Value Pixel
read_message = record {
  method = text "read";
  arguments = int_argument 4 ∷ [];
  message_type = message_call_with_return;
  return_type = text "int";
}

calls-Answered_example :
    (s' : State ℕ) × (process_call example_qt example_objects connection read_message state ≡ ok s')
    × Answered example_qt example_objects 5 state.service s'.service
calls-Answered_example =
    calls-Answered example_qt example_objects connection read_message state int_filled_in refl
