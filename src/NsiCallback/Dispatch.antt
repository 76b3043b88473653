-- ===== src/NsiCallback/Dispatch.antt =====
-- Whom a callback reaches, and what it leaves alone.
use nsi_aggregator_proxy.Common.Dict
use nsi_aggregator_proxy.Common.{ℕ, String, ◌≡◌, refl, ◌∙◌, Option, none, some, [], ◌∷◌}
use nsi_aggregator_proxy.NsiCallback.{
  dispatch, acknowledge, handle_parsed, handle_root, nsi_callback,
}
use nsi_aggregator_proxy.Runtime.{Settings, Content, Parsed, value, value_error}
use nsi_aggregator_proxy.Soap.Messages.{DataPlaneStateChange, NsiMessage}
use nsi_aggregator_proxy.Store.{
  waiting, resolved, ReservationStore, future_at, resolve_pending, resolve_pending_by_connection,
}
use nsi_aggregator_proxy.Store.Delivery.{Waits, settle_ne, settle_waiting, resolve_pending-Waits}
use nsi_aggregator_proxy.Store.Futures.{
  resolve, resolve_connection, perform, run, IsSound, run-IsSound, run-done,
}

-- A message whose correlation id a task waits for is given to that task's future, and stays there.
dispatch-Waits :
    (k : String) (a : ℕ) (m : NsiMessage) (s : ReservationStore)
    → Waits k a s
    → future_at a (dispatch k m s).1 ≡ some (resolved m)
unfolding dispatch run perform
dispatch-Waits k a (NsiMessage.data_plane_state_change change) s w =
    let m = NsiMessage.data_plane_state_change change in
    let (_, stored, _) = resolve_pending-Waits k m a s w in
    run-done (resolve_connection change.connection_id m ∷ []) (resolve_pending k m s).1 a
      (resolved m) stored refl
dispatch-Waits k a (NsiMessage.error_event event) s w =
    let m = NsiMessage.error_event event in
    let (_, stored, _) = resolve_pending-Waits k m a s w in
    run-done (resolve_connection event.connection_id m ∷ []) (resolve_pending k m s).1 a
      (resolved m) stored refl
dispatch-Waits k a m s w = (resolve_pending-Waits k m a s w).1

-- A notification for a connection that a task waits for.
resolve_both-waiting :
    (k connection_id : String) (a : ℕ) (m : NsiMessage) (s : ReservationStore)
    → IsSound s
    → Dict.lookup connection_id s.pending_by_connection ≡ some a
    → future_at a s ≡ some waiting
    → future_at a (resolve_pending_by_connection connection_id m (resolve_pending k m s).1).1
      ≡ some (resolved m)
unfolding resolve_pending resolve_pending_by_connection
resolve_both-waiting k connection_id a m s sound named unresolved = rw named (
    (settle_waiting a (resolved m) _ (
      settle_ne (Dict.lookup k s.pending) (resolved m) s.futures a
        (λ q. sound.not_both k connection_id a q named)
      ∙ unresolved)).1)

dispatch-IsSound :
    (k : String) (m : NsiMessage) (s : ReservationStore) → IsSound s → IsSound (dispatch k m s).1
unfolding dispatch run perform
dispatch-IsSound k (NsiMessage.data_plane_state_change change) s h =
    let m = NsiMessage.data_plane_state_change change in
    run-IsSound (resolve k m ∷ resolve_connection change.connection_id m ∷ []) s h
dispatch-IsSound k (NsiMessage.error_event event) s h =
    let m = NsiMessage.error_event event in
    run-IsSound (resolve k m ∷ resolve_connection event.connection_id m ∷ []) s h
dispatch-IsSound k m s h = run-IsSound (resolve k m ∷ []) s h

module _ (settings : Settings) {Element : Type 0} (fromstring : Content → Option Element)
    (parse_correlation_id : Element → Parsed String) (parse : Element → Parsed NsiMessage) where
  -- If a task waits for the correlation id of a callback that parses, the callback is acknowledged
  -- with that id and the task's future is resolved with the message.
  pub nsi_callback-Waits :
      (body : Content) (root : Element) (k : String) (m : NsiMessage) (a : ℕ) (s : ReservationStore)
      → fromstring body ≡ some root
      → parse_correlation_id root ≡ value k
      → parse root ≡ value m
      → Waits k a s
      → let r = nsi_callback settings fromstring parse_correlation_id parse body s in
        (r.0 ≡ acknowledge settings fromstring parse_correlation_id parse k)
        × (future_at a r.1 ≡ some (resolved m))
  unfolding nsi_callback
  nsi_callback-Waits body root k m a s p q t w = rw p (rw q (rw t (refl, dispatch-Waits k a m s w)))

  -- A change of the data plane reaches the task that waits for its connection, whatever correlation
  -- id it carries, if the store is sound and the task's future is waiting.
  pub nsi_callback-dataplane_lem :
      (body : Content) (root : Element) (k : String) (change : DataPlaneStateChange) (a : ℕ)
      (s : ReservationStore)
      → fromstring body ≡ some root
      → parse_correlation_id root ≡ value k
      → parse root ≡ value (NsiMessage.data_plane_state_change change)
      → IsSound s
      → Dict.lookup change.connection_id s.pending_by_connection ≡ some a
      → future_at a s ≡ some waiting
      → future_at a (nsi_callback settings fromstring parse_correlation_id parse body s).1
        ≡ some (resolved (NsiMessage.data_plane_state_change change))
  unfolding nsi_callback dispatch
  nsi_callback-dataplane_lem body root k change a s p q t sound named unresolved = rw p (
      rw q (
        rw t (
          resolve_both-waiting k change.connection_id a (NsiMessage.data_plane_state_change change)
            s sound named unresolved)))

  -- Whatever the body of a callback is, the store stays sound: no address is shared between keys.
  pub nsi_callback-IsSound :
      (body : Content) (s : ReservationStore)
      → IsSound s
      → IsSound (nsi_callback settings fromstring parse_correlation_id parse body s).1
  unfolding nsi_callback
  nsi_callback-IsSound body s h = handled (fromstring body)
    where
      parsed :
          (id : Parsed String) (message : Parsed NsiMessage)
          → IsSound (handle_parsed settings fromstring parse_correlation_id parse id message s).1
      parsed (value_error text) message = h
      parsed (value k) (value_error text) = h
      parsed (value k) (value m) = dispatch-IsSound k m s h

      handled :
          (o : Option Element)
          → IsSound (handle_root settings fromstring parse_correlation_id parse o s).1
      handled none = h
      handled (some root) = parsed (parse_correlation_id root) (parse root)
