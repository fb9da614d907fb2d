-- ===== src/Service/Registry.antt =====
-- A well-formed registry of src/CuteIPCService.cpp, and the destruction of a connection.
use cute_ipc.Prelude.{
  ℕ, ◌-◌, ◌≤◌, ◌<◌, ◌≡◌, ◌≢◌, refl, sym, ap, ◌∙◌, subst, inl, inr, false, List, [], ◌∷◌, some,
  is_nil, All, ◌==◌, if◌then◌else◌, Bool-cases, Option-cases, arith,
}
use cute_ipc.Prelude.Hash.{Hash}
use cute_ipc.SignalHandler.{SignalHandler, remove_one, or_destroyed, listener_destroyed}
use cute_ipc.Service.{
  Service, without, remove_value, notify_destroyed, drop_connection, connection_destroyed,
}
use cute_ipc.Service.Counts.{count, count-remove_one_same, count-remove_one_other}

-- A handler whose signal is connected, for each entry of its list, to an object that exists.
abbrev pub IsHandler : List ℕ → SignalHandler → Type 0
IsHandler cs h =
    ((x : ℕ) → count x h.listeners ≤ count x h.wired)
    × ((x : ℕ) → 0 < count x h.wired → 0 < count x cs)
    × (is_nil h.listeners ≡ false)

abbrev pub IsRegistry : Service → Type 0
IsRegistry s =
    All (λ e. IsHandler s.connections e.1) s.handlers
    × All (λ e. 0 < count e.1 s.connections) s.long_lived

pub or_destroyed-some :
    (h : SignalHandler) {h' : SignalHandler}
    → or_destroyed h ≡ some h'
    → (h ≡ h') × (is_nil h.listeners ≡ false)
unfolding or_destroyed
or_destroyed-some h e = elim (Bool-cases (is_nil h.listeners)) [
  | inl n ↦ absurd (cc (rw n at e))
  | inr n ↦ (cc (rw n at e), n)
]

count-without :
    (x c : ℕ) (ys : List ℕ) → count x (without c ys) ≡ (if x == c then 0 else count x ys)
unfolding without
count-without x c [] = ground arith
count-without x c (y ∷ ys) = ground (arith, count-without x c ys)

listener_destroyed-some :
    (c : ℕ) (h : SignalHandler) {h' : SignalHandler}
    → listener_destroyed c h ≡ some h'
    → (remove_one c h.listeners ≡ h'.listeners)
      × (h.wired ≡ h'.wired)
      × (is_nil h'.listeners ≡ false)
unfolding listener_destroyed
listener_destroyed-some c h e =
    let (same_handler, n) =
      or_destroyed-some (record h { listeners = remove_one c h.listeners }) e in
    (
      ap (λ g. g.listeners) same_handler,
      ap (λ g. g.wired) same_handler,
      subst (λ g. is_nil g.listeners ≡ false) same_handler n,
    )

-- `destroyed` takes the object out of the listeners, once for each of its connections.
record Told (c : ℕ) (ws : List ℕ) (h h' : SignalHandler) : Type 0 where
  less : count c h'.listeners ≡ count c h.listeners - count c ws
  others : (x : ℕ) → x ≢ c → count x h'.listeners ≡ count x h.listeners
  wired : h.wired ≡ h'.wired
  kept : is_nil h'.listeners ≡ false

notify_destroyed-Told :
    (c : ℕ) (ws : List ℕ) (h : SignalHandler) {h' : SignalHandler}
    → notify_destroyed c ws h ≡ some h'
    → is_nil h.listeners ≡ false
    → Told c ws h h'
unfolding notify_destroyed
notify_destroyed-Told c [] h {h'} e n =
    let s : h ≡ h' = cc in
    subst (λ g. Told c [] h g) s
      (record { less = omega arith; others = λ x d. refl; wired = refl; kept = n })
notify_destroyed-Told c (w ∷ ws) h {h'} e n = elim (Bool-cases (w == c)) [
  | inr other ↦
      let t = notify_destroyed-Told c ws h (rw other at e) n in
      record { less = rw other t.less; others = t.others; wired = t.wired; kept = t.kept }
  | inl mine ↦ elim (Option-cases (listener_destroyed c h)) [
    | inl gone ↦ absurd (cc (rw (mine, gone) at e))
    | inr (h1, there) ↦
        let (listeners, wired, kept) = listener_destroyed-some c h there in
        let t = notify_destroyed-Told c ws h1 (rw (mine, there) at e) kept in
        let first = ap (count c) listeners in
        record {
          less = rw mine (omega (arith, t.less, first, count-remove_one_same c h.listeners));
          others = λ x d.
              t.others x d
              ∙ sym (ap (count x) listeners)
              ∙ count-remove_one_other x c h.listeners d;
          wired = wired ∙ t.wired;
          kept = t.kept;
        }
  ]
]

dropped-IsHandler :
    (cs : List ℕ) (c : ℕ) (h h' : SignalHandler)
    → IsHandler cs h
    → Told c h.wired h h'
    → IsHandler (without c cs) (record h' { wired = without c h'.wired })
dropped-IsHandler cs c h h' (listed, exist, some_left) told = (
  λ x. elim (Bool-cases (x == c)) [
    | inl e ↦
        let same_object : x ≡ c = ground arith in
        rw same_object (omega (arith, told.less, listed c))
    | inr e ↦
        let d : x ≢ c = ground arith in
        let w : count x (without c h'.wired) ≡ count x h'.wired =
          count-without x c h'.wired ∙ rw e refl in
        omega (arith, told.others x d, listed x, w, ap (count x) told.wired)
  ],
  λ x p. elim (Bool-cases (x == c)) [
    | inl e ↦
        let none_left : count x (without c h'.wired) ≡ 0 = count-without x c h'.wired ∙ rw e refl in
        absurd (omega (arith, none_left, p))
    | inr e ↦
        let w : count x (without c h'.wired) ≡ count x h'.wired =
          count-without x c h'.wired ∙ rw e refl in
        let k : count x (without c cs) ≡ count x cs = count-without x c cs ∙ rw e refl in
        omega (arith, exist x (omega (arith, p, w, ap (count x) told.wired)), k)
  ],
  told.kept,
)

drop_connection-IsHandler :
    (cs : List ℕ) (c : ℕ) (m : Hash SignalHandler)
    → All (λ e. IsHandler cs e.1) m
    → All (λ e. IsHandler (without c cs) e.1) (drop_connection c m)
unfolding drop_connection
drop_connection-IsHandler cs c [] p = tt
drop_connection-IsHandler cs c ((k, h) ∷ m) (p, ps) =
    elim (Option-cases (notify_destroyed c h.wired h)) [
      | inl gone ↦ rw (gone, All) (drop_connection-IsHandler cs c m ps)
      | inr (h', there) ↦
          rw (there, All)
            (
              dropped-IsHandler cs c h h' p (notify_destroyed-Told c h.wired h there p.2),
              drop_connection-IsHandler cs c m ps,
            )
    ]

remove_value-exist :
    (cs : List ℕ) (c : ℕ) (m : Hash ℕ)
    → All (λ e. 0 < count e.1 cs) m
    → All (λ e. 0 < count e.1 (without c cs)) (remove_value c m)
unfolding remove_value
remove_value-exist cs c [] p = tt
remove_value-exist cs c ((k, v) ∷ m) (p, ps) = elim (Bool-cases (v == c)) [
  | inl e ↦ rw e (remove_value-exist cs c m ps)
  | inr e ↦
      let w : count v (without c cs) ≡ count v cs = count-without v c cs ∙ rw e refl in
      rw e (omega (arith, p, w), remove_value-exist cs c m ps)
]

pub connection_destroyed-IsRegistry :
    (c : ℕ) (s : Service) → IsRegistry s → IsRegistry (connection_destroyed c s)
unfolding connection_destroyed
connection_destroyed-IsRegistry c s (hs, ls) = (
  drop_connection-IsHandler s.connections c s.handlers hs,
  remove_value-exist s.connections c s.long_lived ls,
)
