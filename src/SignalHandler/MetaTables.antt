-- ===== src/SignalHandler/MetaTables.antt =====
-- The meta object of CuteIPCSignalHandler, which is edited by hand (src/CuteIPCSignalHandler.cpp): the
-- tables for Qt 5 and for Qt 4, with the columns that their comments name, and qt_metacall.
use cute_ipc.Prelude.{
  ℕ, zero, suc, ◌+◌, ◌*◌, ◌-◌, List, [], ◌∷◌, ◌++◌, Option, none, some, take, drop, ltb, ◌==◌,
  if◌then◌else◌,
}
use cute_ipc.Prelude.Text.{Text, Bytes, text, same}

-- The methods of the class.
pub data Method : Type 0 where
  method_signal_captured : Method
  method_destroyed : Method
  method_relay_slot : Method
  method_add_listener : Method
  method_remove_listener : Method
  method_listener_destroyed : Method

-- The declarations of the methods as normalised signatures, by which QMetaObject finds them.
unfoldable pub signature_of : Method → Text
signature_of method_signal_captured = text "signalCaptured(QByteArray)"
signature_of method_destroyed = text "destroyed(QString)"
signature_of method_relay_slot = text "relaySlot()"
signature_of method_add_listener = text "addListener(CuteIPCServiceConnection*)"
signature_of method_remove_listener = text "removeListener(CuteIPCServiceConnection*)"
signature_of method_listener_destroyed = text "listenerDestroyed(QObject*)"

-- An entry of a table of numbers.
unfoldable pub entry : List ℕ → ℕ → ℕ
entry [] n = 0
entry (x ∷ xs) zero = x
entry (x ∷ xs) (suc n) = entry xs n

-- A string up to its zero.
unfoldable pub c_string : Bytes → Text
c_string [] = []
c_string (c ∷ cs) = let rest = c_string cs in if c == 0 then [] else c ∷ rest

-- The literals of Qt 5: each with the offset and the length of QT_MOC_LITERAL.
abbrev pub literals : List (ℕ × ℕ)
literals =
    (0, 20)
    ∷ (21, 14)
    ∷ (36, 0)
    ∷ (37, 4)
    ∷ (42, 9)
    ∷ (52, 9)
    ∷ (62, 9)
    ∷ (72, 11)
    ∷ (84, 25)
    ∷ (110, 8)
    ∷ (119, 14)
    ∷ (134, 17)
    ∷ []

-- Strings one after the other, each with a zero behind it.
abbrev pub ended : List Text → Bytes
ended [] = []
ended (t ∷ ts) = t ++ 0 ∷ ended ts

abbrev pub stringdata : Bytes
stringdata = ended (
    text "CuteIPCSignalHandler"
    ∷ text "signalCaptured"
    ∷ []
    ∷ text "data"
    ∷ text "destroyed"
    ∷ text "signature"
    ∷ text "relaySlot"
    ∷ text "addListener"
    ∷ text "CuteIPCServiceConnection*"
    ∷ text "listener"
    ∷ text "removeListener"
    ∷ text "listenerDestroyed"
    ∷ [])

abbrev pub slice : ℕ × ℕ → Text
slice (offset, size) = take size (drop offset stringdata)

unfoldable pub literal_in : List (ℕ × ℕ) → ℕ → Text
literal_in [] n = []
literal_in (l ∷ ls) zero = slice l
literal_in (l ∷ ls) (suc n) = literal_in ls n

abbrev pub literal : ℕ → Text
literal n = literal_in literals n

-- QMetaType: the numbers of the types that the tables use, and the names of types. A number is less
-- than the flag of a type that is known by its name only.
pub record BuiltinTypes : Type 0 where
  pub void : ℕ
  pub byte_array : ℕ
  pub string : ℕ
  pub object_star : ℕ
  pub type_name : ℕ → Text

abbrev pub by_name : ℕ → ℕ
by_name n = 2147483648 + n

-- The content of a table before its methods: revision, class name, class info, methods, properties,
-- enums, constructors, flags and the number of signals.
abbrev pub content : ℕ → List ℕ → List ℕ
content revision rows = revision ∷ 0 ∷ 0 ∷ 0 ∷ 6 ∷ 14 ∷ 0 ∷ 0 ∷ 0 ∷ 0 ∷ 0 ∷ 0 ∷ 0 ∷ 2 ∷ rows

-- The row of a method.
abbrev pub row : ℕ → ℕ → ℕ → ℕ → ℕ → List ℕ → List ℕ
row a b c tag flags rows = a ∷ b ∷ c ∷ tag ∷ flags ∷ rows

-- The parameters of a method with one of them: the type that is returned, its type and its name.
abbrev pub one_parameter : ℕ → ℕ → ℕ → List ℕ → List ℕ
one_parameter returned type name rest = returned ∷ type ∷ name ∷ rest

-- qt_meta_data_CuteIPCSignalHandler of Qt 5
unfoldable pub meta_data : BuiltinTypes → List ℕ
meta_data t =
    let connection = by_name 8 in
    let parameters = one_parameter t.void t.byte_array 3 (
      one_parameter t.void t.string 5 (
        t.void
        ∷ one_parameter t.void connection 9
            (one_parameter t.void connection 9 (one_parameter t.void t.object_star 9 (0 ∷ []))))) in
    let slots =
      row 6 0 50 2 10 (row 7 1 51 2 10 (row 10 1 54 2 10 (row 11 1 57 2 10 parameters))) in
    content 7 (row 1 1 44 2 6 (row 4 1 47 2 6 slots))

-- qt_meta_data_CuteIPCSignalHandler of Qt 4
abbrev pub meta_data_4 : List ℕ
meta_data_4 =
    let slots =
      row 83 21 21 21 10
        (row 104 95 21 21 10 (row 143 95 21 21 10 (row 185 95 21 21 10 (0 ∷ [])))) in
    content 6 (row 27 22 21 21 5 (row 64 54 21 21 5 slots))

abbrev pub stringdata_4 : Bytes
stringdata_4 = ended (
    text "CuteIPCSignalHandler"
    ∷ []
    ∷ text "data"
    ∷ text "signalCaptured(QByteArray)"
    ∷ text "signature"
    ∷ text "destroyed(QString)"
    ∷ text "relaySlot()"
    ∷ text "listener"
    ∷ text "addListener(CuteIPCServiceConnection*)"
    ∷ text "removeListener(CuteIPCServiceConnection*)"
    ∷ text "listenerDestroyed(QObject*)"
    ∷ []
    ∷ [])

-- A parameter's type: a number, or the literal of its name.
unfoldable pub parameter_type : BuiltinTypes → ℕ → Text
parameter_type t n = if ltb n 2147483648 then t.type_name n else literal (n - 2147483648)

-- `count` types from an index on, with commas between them.
unfoldable pub parameter_list : BuiltinTypes → ℕ → ℕ → Text
unfolding meta_data parameter_type
parameter_list t zero at = []
parameter_list t (suc zero) at = parameter_type t (entry (meta_data t) at)
parameter_list t (suc (suc count)) at =
    parameter_type t (entry (meta_data t) at) ++ text "," ++ parameter_list t (suc count) (at + 1)

-- The row of a method in Qt 5: name, argc, parameters, tag, flags. The parameters begin with the type
-- that is returned.
unfoldable pub signature : BuiltinTypes → ℕ → Text
unfolding parameter_list meta_data
signature t id =
    let row = entry (meta_data t) 5 + id * 5 in
    literal (entry (meta_data t) row)
    ++ text "("
    ++ parameter_list t (entry (meta_data t) (row + 1)) (entry (meta_data t) (row + 2) + 1)
    ++ text ")"

-- The row of a method in Qt 4: signature, parameters, type, tag, flags.
unfoldable pub signature_4 : ℕ → Text
signature_4 id = c_string (drop (entry meta_data_4 (entry meta_data_4 5 + id * 5)) stringdata_4)

-- The first method of a signature, among `count` ones from an id on.
unfoldable pub index_of : (ℕ → Text) → Text → ℕ → ℕ → Option ℕ
index_of table wanted zero id = none
index_of table wanted (suc count) id =
    let rest = index_of table wanted count (id + 1) in
    if same (table id) wanted then some id else rest

abbrev pub index_of_method : BuiltinTypes → Text → Option ℕ
index_of_method t wanted = index_of (signature t) wanted (entry (meta_data t) 4) 0

abbrev pub index_of_method_4 : Text → Option ℕ
index_of_method_4 wanted = index_of signature_4 wanted (entry meta_data_4 4) 0
