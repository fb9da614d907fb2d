-- ===== src/Servers/Accepted.antt =====
-- Connections that a service takes and loses (src/CuteIPCService.cpp,
-- src/CuteIPCServiceConnection.cpp).
use cute_ipc.Prelude.{
  ℕ, ◌<◌, ◌≡◌, refl, ap, inl, inr, true, false, List, [], ◌∷◌, some, All, ◌==◌, Bool-cases, arith,
}
use cute_ipc.Prelude.Hash.{Hash}
use cute_ipc.SignalHandler.{SignalHandler}
use cute_ipc.Service.{
  Service, without, remove_value, notify_destroyed, drop_connection, connection_destroyed,
  new_connection,
}
use cute_ipc.Service.Counts.{count, without_absent}
use cute_ipc.Service.Registry.{IsHandler, IsRegistry}
use cute_ipc.Servers.{accept, accepted_connection, socket_failed}

notify_absent :
    (c : ℕ) (ws : List ℕ) (h : SignalHandler) → count c ws ≡ 0 → notify_destroyed c ws h ≡ some h
unfolding notify_destroyed
notify_absent c [] h e = refl
notify_absent c (w ∷ ws) h e = elim (Bool-cases (w == c)) [
  | inl t ↦ absurd (omega (arith, rw t at e))
  | inr t ↦ rw t (notify_absent c ws h (rw t at e))
]

module _ (cs : List ℕ) (c : ℕ) (fresh : count c cs ≡ 0) where
  not_wired : (h : SignalHandler) → IsHandler cs h → count c h.wired ≡ 0
  not_wired h (listed, exist, left) = elim (Bool-cases (count c h.wired == 0)) [
    | inl e ↦ ground arith
    | inr e ↦
        let positive : 0 < count c h.wired = ground arith in
        absurd (omega (arith, exist c positive, fresh))
  ]

  drop_absent : (m : Hash SignalHandler) → All (λ e. IsHandler cs e.1) m → drop_connection c m ≡ m
  unfolding drop_connection
  drop_absent [] p = refl
  drop_absent ((k, h) ∷ m) (p, ps) =
      let none_wired = not_wired h p in
      rw (notify_absent c h.wired h none_wired, drop_connection)
        (λ i. (k, record h { wired = without_absent c h.wired none_wired i }) ∷ drop_absent m ps i)

  values_absent : (m : Hash ℕ) → All (λ e. 0 < count e.1 cs) m → remove_value c m ≡ m
  unfolding remove_value
  values_absent [] p = refl
  values_absent ((k, v) ∷ m) (p, ps) = elim (Bool-cases (v == c)) [
    | inl e ↦
        let same_object : v ≡ c = ground arith in
        absurd (omega (arith, p, ap (λ x. count x cs) same_object, fresh))
    | inr e ↦ rw e (λ i. (k, v) ∷ values_absent m ps i)
  ]

-- A service whose registry is well formed takes a new connection. If the socket is open, the
-- connection exists and has the subject of the service; if its socket fails, or it was not open in the
-- first place, the service is as it was before.
pub accepted_cases :
    (c : ℕ) (s : Service)
    → IsRegistry s
    → count c s.connections ≡ 0
    → (0 < count c (accept c true s).connections)
      × ((accepted_connection c (accept c true s)).subject ≡ s.subject)
      × (socket_failed c (accept c true s) ≡ s)
      × (accept c false s ≡ s)
unfolding accept accepted_connection socket_failed new_connection connection_destroyed without
accepted_cases c s (hs, ls) fresh =
    let here : (c == c) ≡ true = ground arith in
    let gone : connection_destroyed c (new_connection c s) ≡ s = rw here (λ i. record s {
      handlers = drop_absent s.connections c fresh s.handlers hs i;
      long_lived = values_absent s.connections c fresh s.long_lived ls i;
      connections = without_absent c s.connections fresh i;
    }) in
    (ground arith, refl, gone, gone)
