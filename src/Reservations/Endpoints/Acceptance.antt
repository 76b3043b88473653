-- ===== src/Reservations/Endpoints/Acceptance.antt =====
-- From an accepted reserve to its result.
use nsi_aggregator_proxy.Reservations.Tasks
use nsi_aggregator_proxy.Common.Dict.{lookup-insert, contains-add}
use nsi_aggregator_proxy.Common.{
  ◌<>◌, get_elem?-append_last, ℕ, suc, String, ◌≡◌, refl, inl, true, some, List, ◌∷◌, eq_refl,
}
use nsi_aggregator_proxy.Mapping.{before}
use nsi_aggregator_proxy.Models.{reserved, ReservationRequest, AcceptedResponse}
use nsi_aggregator_proxy.NsiCallback.Answers.{answer}
use nsi_aggregator_proxy.Reservations.Endpoints.{
  new_reservation, reserve_request, accept_reserve, reserve_answered, send_reserve_with,
  send_reserve,
}
use nsi_aggregator_proxy.Reservations.Queries.{send_registered}
use nsi_aggregator_proxy.Reservations.Tasks.Outcomes.{IsOutcome, Delivers}
use nsi_aggregator_proxy.Reservations.Tasks.Reserving.{complete_reserve-Delivers}
use nsi_aggregator_proxy.Reservations.Tasks.Waiting.{IsLive, IsFair, IsLive-IsStable}
use nsi_aggregator_proxy.Runtime.{
  complete_reserve, Event, spawned, World, Env, from_parser, write_store, register, record_event,
  draw_urn, post_checked, ok, pure, raise, lift, ◌>>=◌,
}
use nsi_aggregator_proxy.Runtime.Laws.{KeepsTame-post_checked, IfOk, IfOk-bind, IfOk-attempt}
use nsi_aggregator_proxy.Soap.Messages.{NsiMessage}
use nsi_aggregator_proxy.Store.{
  waiting, create, get, reserve_started, is_reserve_in_flight, register_pending,
}

module _ (e : Env) (fair : (connection_id : String) → IsFair e connection_id)
    (body : ReservationRequest) where
  -- The newest event is the start of the reserve task of a reservation that is stored, RESERVING
  -- and in flight.
  abbrev pub StartsReserve : World → Type 0
  StartsReserve w =
      (connection_id : String) × (a : ℕ) × (before : List Event) × (w.trace
        ≡ spawned (complete_reserve connection_id a) ∷ before)
      × (get connection_id w.store ≡ some (new_reservation e connection_id body))
      × (is_reserve_in_flight connection_id w.store ≡ true)
      × IsLive a w

  accept_reserve-IfOk :
      (correlation_id : String) (a : ℕ) (message : NsiMessage)
      → IfOk (IsLive a) (accept_reserve e body correlation_id a message) (λ answer. StartsReserve)
  unfolding ◌>>=◌ write_store record_event pure raise create reserve_started get
      is_reserve_in_flight
  accept_reserve-IfOk correlation_id a (NsiMessage.reserve_response msg) w i answer p = (
    msg.connection_id,
    a,
    w.trace,
    refl,
    rw lookup-insert (rw (eq_refl msg.connection_id) refl),
    rw contains-add (rw (eq_refl msg.connection_id) refl),
    i,
  )
  accept_reserve-IfOk correlation_id a _ w i answer p = cc p

  send_reserve_with-IfOk :
      (correlation_id : String) (a : ℕ) (period : String × String)
      → IfOk (IsLive a) (send_reserve_with e body correlation_id a period) (λ answer. StartsReserve)
  unfolding ◌>>=◌ write_store raise lift
  send_reserve_with-IfOk correlation_id a period =
      IfOk-bind (IsLive a) (λ response. IsLive a)
        (send_registered e correlation_id (reserve_request e body correlation_id period))
        (reserve_answered e body correlation_id a) (λ answer. StartsReserve)
        (IfOk-attempt (IsLive a) (post_checked e _) _ (λ response. IsLive a)
          (λ w i response q.
            (KeepsTame-post_checked (IsLive a) e (IsLive-IsStable e "" (fair "") a) _ w i).1)
          (λ x w response q. cc q))
        (λ response.
          IfOk-bind (IsLive a) (λ message. IsLive a)
            (lift (from_parser (e.soap.parse response.content)))
            (accept_reserve e body correlation_id a) (λ answer. StartsReserve) (λ w i message q. i)
            (accept_reserve-IfOk correlation_id a))

  send_reserve-IfOk : IfOk (λ w. Unit {0}) (send_reserve e body) (λ answer. StartsReserve)
  unfolding send_reserve ◌>>=◌ draw_urn register register_pending
  send_reserve-IfOk w i answer p =
      let id = "urn:uuid:" <> e.uuid4 w.drawn in
      let (a, s) = register_pending id w.store in
      let w' = record w { drawn = suc w.drawn; store = s; held = a ∷ w.held } in
      send_reserve_with-IfOk id a (e.reserve_period w') w'
        (inl refl, inl (get_elem?-append_last w.store.futures waiting)) answer p

  -- If the other tasks are fair (`IsFair`) to every connection and a reserve is accepted, the newest event is the start of the reserve task of a reservation
  -- that is stored as RESERVING and marked in flight, and this task, run from there, ends with a
  -- callback that is RESERVED without an error or FAILED with one.
  pub send_reserve-Delivers :
      (w : World) (answer : AcceptedResponse)
      → (send_reserve e body w).0 ≡ ok answer
      → let w' = (send_reserve e body w).1 in
        (connection_id : String) × (a : ℕ) × (before : List Event) × (w'.trace
          ≡ spawned (complete_reserve connection_id a) ∷ before)
        × (get connection_id w'.store ≡ some (new_reservation e connection_id body))
        × (is_reserve_in_flight connection_id w'.store ≡ true)
        × Delivers (IsOutcome reserved) (Tasks.complete_reserve e connection_id a w')
  send_reserve-Delivers w answer p =
      let (connection_id, a, before, started, stored, in_flight, live) =
        send_reserve-IfOk w tt answer p in
      (
        connection_id,
        a,
        before,
        started,
        stored,
        in_flight,
        complete_reserve-Delivers e connection_id (fair connection_id) a _ live (rw stored refl),
      )
