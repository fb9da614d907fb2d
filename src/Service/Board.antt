-- ===== src/Service/Board.antt =====
-- What a service promises about signals: who gets which signal. A board gives the receivers of each
-- signal, in the order of their subscriptions; src/CuteIPCService.cpp and
-- src/CuteIPCSignalHandler.cpp keep handlers instead.
use cute_ipc.Prelude.{
  ℕ, ◌≤◌, ◌≡◌, refl, sym, ap, ◌∙◌, subst, inl, inr, true, false, List, [], ◌∷◌, ◌++◌, Option, none,
  some, is_nil, ◌==◌, if◌then◌else◌, Bool-cases, Option-cases, arith,
}
use cute_ipc.Prelude.Text.{same_iff, Text, same, same→eq}
use cute_ipc.Prelude.Hash.{insert, lookup-insert, Hash, lookup}
use cute_ipc.SignalHandler.{SignalHandler, remove_one, or_destroyed, listener_destroyed}
use cute_ipc.Service.{Service, without, notify_destroyed, drop_connection}
use cute_ipc.Service.Counts.{count, without_absent, count-remove_one_same}

abbrev pub Board : Type 0
Board = Text → List ℕ

-- A subscription is entered last; a connection that is lost is struck out everywhere.
abbrev pub subscribe : Text → ℕ → Board → Board
subscribe signature c b other = if same signature other then b other ++ c ∷ [] else b other

abbrev pub strike_out : ℕ → Board → Board
strike_out c b other = without c (b other)

-- The receivers that a service's handlers are connected to.
abbrev pub receivers_of : Option SignalHandler → List ℕ
receivers_of none = []
receivers_of (some h) = h.wired

abbrev pub board_of : Service → Board
board_of s signature = receivers_of (lookup signature s.handlers)

-- A handler that is connected to its listeners, once for each entry, and stands for its signal.
abbrev pub IsEntry : Text → SignalHandler → Type 0
IsEntry k h = (h.listeners ≡ h.wired) × (is_nil h.wired ≡ false) × (h.signature ≡ k)

-- The handlers of a service none of whose connections asked to be disconnected from a signal. No
-- signal has two handlers.
abbrev pub IsBoard : Hash SignalHandler → Type 0
IsBoard [] = Unit {0}
IsBoard ((k, h) ∷ m) = IsEntry k h × (lookup k m ≡ none) × IsBoard m

without-remove_one : (c : ℕ) (xs : List ℕ) → without c (remove_one c xs) ≡ without c xs
unfolding without remove_one
without-remove_one c [] = refl
without-remove_one c (x ∷ xs) = ground (arith, without-remove_one c xs)

last_one :
    (c : ℕ) (xs : List ℕ)
    → is_nil (remove_one c xs) ≡ true
    → is_nil xs ≡ false
    → is_nil (without c xs) ≡ true
unfolding without remove_one
last_one c [] h n = cc
last_one c (x ∷ []) h n = ground arith
last_one c (x ∷ (y ∷ xs)) h n = elim (Bool-cases (x == c)) [
  | inl e ↦ absurd (cc (rw e at h))
  | inr e ↦ absurd (cc (rw e at h))
]

-- `destroyed` strikes an object out, once it has reached the handler for each of its entries.
notify_destroyed-without :
    (c : ℕ) (ws : List ℕ) (h : SignalHandler)
    → count c h.listeners ≤ count c ws
    → is_nil h.listeners ≡ false
    → notify_destroyed c ws h ≡ or_destroyed (record h { listeners = without c h.listeners })
unfolding notify_destroyed or_destroyed listener_destroyed
notify_destroyed-without c [] h le n =
    let e = without_absent c h.listeners (omega (arith, le)) in rw (e, n) refl
notify_destroyed-without c (w ∷ ws) h le n = elim (Bool-cases (w == c)) [
  | inr e ↦ rw e (notify_destroyed-without c ws h (rw e at le) n)
  | inl e ↦ elim (Bool-cases (is_nil (remove_one c h.listeners))) [
    | inl empty ↦ rw (e, empty, last_one c h.listeners empty n) refl
    | inr left ↦
        let h1 : SignalHandler = record h { listeners = remove_one c h.listeners } in
        let le' : count c (remove_one c h.listeners) ≤ count c ws =
          omega (arith, rw e at le, count-remove_one_same c h.listeners) in
        rw (e, left)
          (notify_destroyed-without c ws h1 le' left
            ∙ ap (λ l. or_destroyed (record h { listeners = l }))
                (without-remove_one c h.listeners))
  ]
]

no_items : (xs : List ℕ) → is_nil xs ≡ true → xs ≡ []
no_items [] h = refl
no_items (x ∷ xs) h = cc

-- The entry of a handler, for each result of `destroyed`.
struck :
    (c : ℕ) (h : SignalHandler)
    → h.listeners ≡ h.wired
    → is_nil h.wired ≡ false
    → notify_destroyed c h.wired h ≡ (
        if is_nil (without c h.wired)
        then none
        else some (record h { listeners = without c h.wired }))
unfolding or_destroyed
struck c h e n =
    notify_destroyed-without c h.wired h (omega (arith, ap (count c) e)) (rw e n)
    ∙ ap (λ l. or_destroyed (record h { listeners = without c l })) e

pub lookup-drop_connection :
    (c : ℕ) (k : Text) (m : Hash SignalHandler)
    → IsBoard m
    → receivers_of (lookup k (drop_connection c m)) ≡ without c (receivers_of (lookup k m))
unfolding drop_connection lookup without
lookup-drop_connection c k [] b = refl
lookup-drop_connection c k ((j, h) ∷ m) ((e, n, named), fresh, b) =
    let rest = lookup-drop_connection c k m b in
    elim (Bool-cases (is_nil (without c h.wired))) [
      | inl gone ↦ elim (Bool-cases (same j k)) [
        | inl t ↦
            let unique : lookup k m ≡ none = subst (λ i. lookup i m ≡ none) (same→eq j k t) fresh in
            rw (struck c h e n, gone, drop_connection, t)
              (rest ∙ rw unique (sym (no_items (without c h.wired) gone)))
        | inr t ↦ rw (struck c h e n, gone, drop_connection, t) rest
      ]
      | inr left ↦ elim (Bool-cases (same j k)) [
        | inl t ↦ rw (struck c h e n, left, drop_connection, t) refl
        | inr t ↦ rw (struck c h e n, left, drop_connection, t) rest
      ]
    ]

absent-drop_connection :
    (c : ℕ) (k : Text) (m : Hash SignalHandler)
    → lookup k m ≡ none
    → lookup k (drop_connection c m) ≡ none
unfolding drop_connection lookup
absent-drop_connection c k [] h = refl
absent-drop_connection c k ((j, h) ∷ m) none_there = elim (Bool-cases (same j k)) [
  | inl t ↦ absurd (cc (rw t at none_there))
  | inr t ↦
      let rest = absent-drop_connection c k m (rw t at none_there) in
      elim (Option-cases (notify_destroyed c h.wired h)) [
        | inl e ↦ rw (e, drop_connection) rest
        | inr (h', e) ↦ rw (e, drop_connection, t) rest
      ]
]

pub drop_connection-IsBoard :
    (c : ℕ) (m : Hash SignalHandler) → IsBoard m → IsBoard (drop_connection c m)
unfolding drop_connection
drop_connection-IsBoard c [] b = tt
drop_connection-IsBoard c ((j, h) ∷ m) ((e, n, named), fresh, b) =
    let rest = drop_connection-IsBoard c m b in
    elim (Bool-cases (is_nil (without c h.wired))) [
      | inl gone ↦ rw (struck c h e n, gone, IsBoard) rest
      | inr left ↦
          rw (struck c h e n, left, IsBoard)
            ((refl, left, named), absent-drop_connection c j m fresh, rest)
    ]

-- One entry more, or another one for its key.
pub insert-IsBoard :
    (k : Text) (h : SignalHandler) (m : Hash SignalHandler)
    → IsEntry k h
    → IsBoard m
    → IsBoard (insert k h m)
unfolding insert lookup
insert-IsBoard k h [] p b = (p, refl, tt)
insert-IsBoard k h ((j, g) ∷ m) p (p', fresh, b) = elim (Bool-cases (same j k)) [
  | inl t ↦ rw t (p, subst (λ i. lookup i m ≡ none) (same→eq j k t) fresh, b)
  | inr t ↦
      let apart : same k j ≡ false = ground (arith, same_iff j k, same_iff k j) in
      rw t (p', lookup-insert k j h m ∙ rw apart fresh, insert-IsBoard k h m p b)
]

-- The handler that a board has for a signal.
pub IsBoard-lookup :
    (k : Text) (m : Hash SignalHandler) {h : SignalHandler}
    → lookup k m ≡ some h
    → IsBoard m
    → IsEntry k h
unfolding lookup
IsBoard-lookup k [] e b = cc
IsBoard-lookup k ((j, g) ∷ m) {h} e (p, fresh, b) = elim (Bool-cases (same j k)) [
  | inl t ↦
      let key : j ≡ k = same→eq j k t in
      let handler : g ≡ h = ground arith in
      subst (λ (x : Text × SignalHandler). IsEntry x.0 x.1) (λ i. (key i, handler i)) p
  | inr t ↦ IsBoard-lookup k m (rw t at e) b
]
