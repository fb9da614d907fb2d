-- ===== src/Message.antt =====
-- src/CuteIPCMessage_p.h and src/CuteIPCMessage.cpp: the messages, and the arguments that they carry.

use cute_ipc.Prelude.{
  Bool, true, false, ◌≡◌, arith, zero, suc, List, [], ◌∷◌, ◌++◌, Option, none, some,
}
use cute_ipc.Prelude.Int.{ℤ, pos}
use cute_ipc.Prelude.Text.{Text, text}

-- `other` stands for a value outside the enumeration, which the cast of an int may yield.
pub data MessageType : Type 0 where
  message_call_with_return : MessageType
  message_call_without_return : MessageType
  message_response : MessageType
  message_error : MessageType
  signal_connection_request : MessageType
  slot_connection_request : MessageType
  message_signal : MessageType
  about_to_close_socket : MessageType
  connection_initialize : MessageType
  other : ℤ → MessageType

-- The value of the enumeration as an int.
unfoldable pub code : MessageType → ℤ
code message_call_with_return = pos 0
code message_call_without_return = pos 1
code message_response = pos 2
code message_error = pos 3
code signal_connection_request = pos 4
code slot_connection_request = pos 5
code message_signal = pos 6
code about_to_close_socket = pos 7
code connection_initialize = pos 8
code (other n) = n

-- The cast MessageType(n).
unfoldable pub message_type_of : ℤ → MessageType
message_type_of (pos zero) = message_call_with_return
message_type_of (pos (suc zero)) = message_call_without_return
message_type_of (pos (suc (suc zero))) = message_response
message_type_of (pos (suc (suc (suc zero)))) = message_error
message_type_of (pos (suc (suc (suc (suc zero))))) = signal_connection_request
message_type_of (pos (suc (suc (suc (suc (suc zero)))))) = slot_connection_request
message_type_of (pos (suc (suc (suc (suc (suc (suc zero))))))) = message_signal
message_type_of (pos (suc (suc (suc (suc (suc (suc (suc zero)))))))) = about_to_close_socket
message_type_of (pos (suc (suc (suc (suc (suc (suc (suc (suc zero))))))))) = connection_initialize
message_type_of n = other n

-- The Qt containers of images that the marshaller knows.
pub data Container : Type 0 where
  linked_list list stack vector : Container

unfoldable pub same_container : Container → Container → Bool
same_container linked_list linked_list = true
same_container list list = true
same_container stack stack = true
same_container vector vector = true
same_container _ _ = false

pub same_container→eq : (c d : Container) → same_container c d ≡ true → c ≡ d
unfolding same_container
same_container→eq c d h = ground arith

-- What `data()` of an argument points to.
pub data Datum (V I : Type 0) : Type 0 where
  image : I → Datum V I
  images : Container → List I → Datum V I
  plain : V → Datum V I

-- QGenericArgument: the name of a type, and a pointer that may be null.
pub record GenericArgument (V I : Type 0) : Type 0 where
  pub name : Text
  pub value : Option (Datum V I)

pub record Message (V I : Type 0) : Type 0 where
  pub method : Text
  pub arguments : List (GenericArgument V I)
  pub message_type : MessageType
  pub return_type : Text

module _ {V I : Type 0} where
  -- if (val.data()) m_arguments.append(val)
  append_value : List (GenericArgument V I) → GenericArgument V I → List (GenericArgument V I)
  append_value args a = elim a.value [ none ↦ args | some d ↦ args ++ a ∷ [] ]

  append_values :
      List (GenericArgument V I) → List (GenericArgument V I) → List (GenericArgument V I)
  append_values args [] = args
  append_values args (a ∷ vals) = append_values (append_value args a) vals

  -- The first constructor. `vals` are val0 to val9; an argument left out is one with a null pointer.
  unfoldable pub from_values : MessageType → Text → List (GenericArgument V I) → Text → Message V I
  unfolding append_values append_value
  from_values type method vals return_type = record {
    message_type = type;
    method = method;
    arguments = append_values [] vals;
    return_type = return_type;
  }

  -- The second constructor.
  unfoldable pub from_arguments :
      MessageType → Text → List (GenericArgument V I) → Text → Message V I
  from_arguments type method arguments return_type = record {
    method = method;
    arguments = arguments;
    message_type = type;
    return_type = return_type;
  }

-- The name of a type in the debug output of a message.
unfoldable type_name : MessageType → Text
type_name message_call_with_return = text "CallWithReturn"
type_name message_call_without_return = text "CallWithoutReturn"
type_name message_response = text "Response"
type_name message_error = text "Error"
type_name signal_connection_request = text "SignalConnectionRequest"
type_name message_signal = text "Signal"
type_name slot_connection_request = text "SlotConnectionRequest"
type_name about_to_close_socket = text "AboutToCloseSocket"
type_name connection_initialize = text "ConnectionInitialize"
type_name (other n) = []
