-- ===== src/Reservations/Tasks/Outcomes.antt =====
-- How the background tasks end: with one callback, whose status is a final one of the task.
use nsi_aggregator_proxy.Common.Dict
use nsi_aggregator_proxy.Common.Dict.{lookup-insert}
use nsi_aggregator_proxy.Common.{is_some, String, ◌≡◌, refl, ◌⊎◌, true, Option, none, some, eq_refl}
use nsi_aggregator_proxy.Models.{ReservationStatus, failed, ReservationDetail}
use nsi_aggregator_proxy.Reservations.Queries.{send_callback}
use nsi_aggregator_proxy.Reservations.Queries.Callbacks.{newest, deliver_rounds_lem}
use nsi_aggregator_proxy.Reservations.Refresh.{build_reservation_detail}
use nsi_aggregator_proxy.Reservations.Tasks.{announce_to, announce}
use nsi_aggregator_proxy.Runtime.{World, Env, read_store, change_store, Result, ok, ◌>>=◌}
use nsi_aggregator_proxy.Store.{Reservation, ReservationStore, get, modify, update_status}

-- The payload that a task ends with: the goal without an error, or FAILED with one.
abbrev pub IsOutcome : ReservationStatus → ReservationDetail → Type 0
IsOutcome goal p =
    ((p.status ≡ goal) × (p.last_error ≡ none))
    ⊎ ((p.status ≡ failed) × (is_some p.last_error ≡ true))

-- The task returned, and the newest event is the delivery of such a payload.
abbrev pub Delivers : (ReservationDetail → Type 0) → Result (Unit {0}) × World → Type 0
Delivers P out = (out.0 ≡ ok tt) × ((p : ReservationDetail) × (newest out.1.trace ≡ some p) × P p)

module _ (connection_id : String) (f : Reservation → Reservation) (s : ReservationStore) where
  abbrev pub Modified : Reservation → ReservationStore
  Modified r = record s { reservations = Dict.insert connection_id (f r) s.reservations }

  pub modify-get :
      (r : Reservation)
      → get connection_id s ≡ some r
      → modify connection_id f s ≡ some (Modified r)
  unfolding modify
  modify-get r h = rw h refl

  pub get-modify : (r : Reservation) → get connection_id (Modified r) ≡ some (f r)
  unfolding get
  get-modify r = rw lookup-insert (rw (eq_refl connection_id) refl)

module _ (e : Env) where
  pub send_callback-Delivers :
      (url : String) (r : Reservation) (w : World)
      → Delivers (λ p. p ≡ build_reservation_detail r none) (send_callback e url r w)
  unfolding send_callback
  send_callback-Delivers url r w =
      let (done, k, _, sent) = deliver_rounds_lem e url (build_reservation_detail r none) 11 w in
      (done, (_, rw sent refl, refl))

  module _ (connection_id : String) where
    announce_to_stored :
        (last_error : Option String) (w : World) (r : Reservation)
        → get connection_id w.store ≡ some r
        → Delivers
            (λ p. (p.status ≡ r.status) × (p.last_error ≡ last_error))
            (announce_to e connection_id last_error (some r) w)
    unfolding ◌>>=◌ change_store build_reservation_detail
    announce_to_stored last_error w r h =
        let f : Reservation → Reservation = λ x. record x { last_error = last_error } in
        let (done, (p, sent, same)) =
          send_callback-Delivers r.callback_url (f r)
            (record w { store = Modified connection_id f w.store r }) in
        rw (modify-get connection_id f w.store r h) (done, (p, sent, rw same (refl, refl)))

    pub announce_stored :
        (status : ReservationStatus) (last_error : Option String) (w : World) (r : Reservation)
        → get connection_id w.store ≡ some r
        → Delivers
            (λ p. (p.status ≡ status) × (p.last_error ≡ last_error))
            (announce e connection_id status last_error w)
    unfolding announce update_status ◌>>=◌ change_store read_store
    announce_stored status last_error w r h =
        let f : Reservation → Reservation = λ x. record x { status = status } in
        let stored = get-modify connection_id f w.store r in
        rw (modify-get connection_id f w.store r h) (
          rw stored (
            announce_to_stored last_error (record w { store = Modified connection_id f w.store r })
              (f r) stored))
