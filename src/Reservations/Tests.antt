-- ===== src/Reservations/Tests.antt =====
-- The theorems on the reservations router, in the sample world.
use nsi_aggregator_proxy.Common.Dict
use nsi_aggregator_proxy.Common.{
  ℕ, suc, ◌≤◌, String, ◌≡◌, refl, inl, inr, true, none, some, List, [], ◌∷◌, arith,
}
use nsi_aggregator_proxy.Mapping.{DerivedStatus}
use nsi_aggregator_proxy.Models.{
  reserved, activated, failed, terminated, ReservationRequest, CallbackRequest, ReservationDetail,
}
use nsi_aggregator_proxy.Reservations.Endpoints.{
  accepted, send_operation, start_provision, provision_reservation, start_release,
  release_reservation, start_terminate, terminate_reservation, new_reservation, send_reserve,
  create_reservation,
}
use nsi_aggregator_proxy.Reservations.Endpoints.Acceptance.{send_reserve-Delivers}
use nsi_aggregator_proxy.Reservations.Endpoints.Creation.{
  MayReserve, ReservesOnce, create_reservation-ReservesOnce,
}
use nsi_aggregator_proxy.Reservations.Endpoints.Guards.{IsGuarded}
use nsi_aggregator_proxy.Reservations.Endpoints.Lifecycle.{
  start_provision-Delivers, start_release-Delivers, start_terminate-Delivers,
}
use nsi_aggregator_proxy.Reservations.Endpoints.Operations.{
  provision_reservation-IsGuarded, release_reservation-IsGuarded,
}
use nsi_aggregator_proxy.Reservations.Endpoints.Termination.{
  TerminateAllows, terminate_reservation-IsGuarded,
}
use nsi_aggregator_proxy.Reservations.Queries.{deliver_rounds, refresh_reservation}
use nsi_aggregator_proxy.Reservations.Queries.Callbacks.{repeat, deliver_rounds_lem}
use nsi_aggregator_proxy.Reservations.Refresh.{build_reservation_detail}
use nsi_aggregator_proxy.Reservations.Tasks.Waiting.{await_dataplane_change-Keeps}
use nsi_aggregator_proxy.Runtime.Laws.{Keeps}
use nsi_aggregator_proxy.Store.Steps.{Has}
use nsi_aggregator_proxy.Reservations.Tasks.{
  await_dataplane_change, complete_reserve, complete_provision, complete_release,
  complete_terminate,
}
use nsi_aggregator_proxy.Reservations.Tasks.Endings.{complete_provision-Delivers}
use nsi_aggregator_proxy.Reservations.Tasks.Outcomes.{IsOutcome, Delivers}
use nsi_aggregator_proxy.Reservations.Tasks.Reserving.{complete_reserve-Delivers}
use nsi_aggregator_proxy.Reservations.Tasks.Waiting.{IsLive, IsFair, Reach-IsFair}
use nsi_aggregator_proxy.Runtime.{
  provision, release, terminate, Task, Event, delivered, spawned, write_store, change_store,
  register, record_event, draw_urn, post, post_checked, ok, pure, raise, lift, ◌>>=◌, attempt,
}
use nsi_aggregator_proxy.Samples.{
  sample_reservation, sample_env, sample_confirmed, sample_world, sample_turn, sample_env-IsFair,
  sample_reserving, sample_reserving-IsFair,
}
use nsi_aggregator_proxy.Soap.Messages.{
  ServiceException, exception, absent, present, nil, cons, Notifications,
}
use nsi_aggregator_proxy.Store.{
  ReservationStore, create, get, modify, update_status, reserve_started, is_reserve_in_flight,
  register_pending, settle, resolve_pending_by_connection,
}
use nsi_aggregator_proxy.Store.Steps.{Has}

abbrev leaf : ServiceException
leaf = exception "urn:nsa:upa" (some "c9") "00800" "no capacity" none absent

abbrev tree : ServiceException
tree = exception "urn:nsa:aggregator" none "00500" "reserve failed" none (present (cons leaf nil))

abbrev store : ReservationStore
store = sample_world.store

abbrev fails : DerivedStatus
fails = record { status = failed; reason = some "late" }

stored : get "c1" store ≡ some sample_reservation
unfolding get Dict.lookup
stored = refl

Has-c1 : Has "c1" store
unfolding get Dict.lookup
Has-c1 = refl

abbrev quiet : Notifications
quiet = record { error_events = []; data_plane_changes = [] }

abbrev payload : ReservationDetail
payload = build_reservation_detail sample_reservation none

deliver_rounds_lem_example :
    ((deliver_rounds sample_env 12 "http://client" payload sample_world).0 ≡ ok tt)
    × (k : ℕ) × (k ≤ 11)
    × ((deliver_rounds sample_env 12 "http://client" payload sample_world).1.trace
        ≡ repeat (suc k) (delivered "http://client" payload) [])
deliver_rounds_lem_example = deliver_rounds_lem sample_env "http://client" payload 11 sample_world

Reach-IsFair_example : IsFair sample_env "c1"
Reach-IsFair_example = Reach-IsFair sample_env "c1" sample_turn (λ w. omega arith)

resolved_future : IsLive 0 sample_world
resolved_future = (inl refl, inr (sample_confirmed, refl))

await_dataplane_change-Keeps_example :
    Keeps (λ w. Has "c1" w.store) (await_dataplane_change sample_env "c1" true)
await_dataplane_change-Keeps_example =
    await_dataplane_change-Keeps sample_env "c1" (sample_env-IsFair "c1") true

complete_provision-Delivers_example :
    Delivers (IsOutcome activated) (complete_provision sample_env "c1" 0 sample_world)
complete_provision-Delivers_example =
    complete_provision-Delivers sample_env "c1" (sample_env-IsFair "c1") 0 sample_world
      resolved_future Has-c1

complete_reserve-Delivers_example :
    Delivers (IsOutcome reserved) (complete_reserve sample_env "c1" 0 sample_world)
complete_reserve-Delivers_example =
    complete_reserve-Delivers sample_env "c1" (sample_env-IsFair "c1") 0 sample_world
      resolved_future Has-c1

abbrev callback : CallbackRequest
callback = record { callback_url = "http://client" }

provision_reservation-IsGuarded_example :
    IsGuarded sample_env
      (λ found qr. found.status ≡ reserved)
      (λ header. provision header "c1")
      (refresh_reservation sample_env "c1" sample_world).0
      sample_world
      (provision_reservation sample_env "c1" callback sample_world).1
provision_reservation-IsGuarded_example =
    provision_reservation-IsGuarded sample_env "c1" callback sample_world

release_reservation-IsGuarded_example :
    IsGuarded sample_env
      (λ found qr. found.status ≡ activated)
      (λ header. release header "c1")
      (refresh_reservation sample_env "c1" sample_world).0
      sample_world
      (release_reservation sample_env "c1" callback sample_world).1
release_reservation-IsGuarded_example =
    release_reservation-IsGuarded sample_env "c1" callback sample_world

terminate_reservation-IsGuarded_example :
    let found = refresh_reservation sample_env "c1" sample_world in
    IsGuarded sample_env
      (TerminateAllows sample_env (is_reserve_in_flight "c1" found.1.store))
      (λ header. terminate header "c1")
      found.0
      sample_world
      (terminate_reservation sample_env "c1" callback sample_world).1
terminate_reservation-IsGuarded_example =
    terminate_reservation-IsGuarded sample_env "c1" callback sample_world

abbrev order : ReservationRequest
order = record {
  global_reservation_id = some "g2";
  description = "another link";
  criteria = record {
    service_type = none;
    p2ps = record {
      capacity = 10;
      source_stp = "urn:ogf:network:a.net:2024:a";
      dest_stp = "urn:ogf:network:b.net:2024:b";
      ero = none;
    };
  };
  requester_nsa = "urn:nsa:ultimate";
  provider_nsa = "urn:nsa:aggregator";
  callback_url = "http://client";
}

create_reservation-ReservesOnce_example :
    ReservesOnce sample_env order
      (MayReserve sample_env order sample_world)
      sample_world
      (create_reservation sample_env order sample_world).1
create_reservation-ReservesOnce_example =
    create_reservation-ReservesOnce sample_env order sample_world

accepted_provision :
    (start_provision sample_env "c1" "urn:nsa:ultimate" sample_world).0 ≡ ok (accepted "c1")
unfolding send_operation ◌>>=◌ draw_urn register register_pending post_checked post attempt
    change_store modify update_status get Dict.lookup Dict.insert record_event pure lift raise
    resolve_pending_by_connection settle
accepted_provision = refl

start_provision-Delivers_example :
    let w' = (start_provision sample_env "c1" "urn:nsa:ultimate" sample_world).1 in
    (a : ℕ) × (before : List Event) × (w'.trace ≡ spawned (Task.complete_provision "c1" a) ∷ before)
    × Delivers (IsOutcome activated) (complete_provision sample_env "c1" a w')
start_provision-Delivers_example =
    start_provision-Delivers sample_env "c1" (sample_env-IsFair "c1") "urn:nsa:ultimate"
      sample_world Has-c1 (accepted "c1") accepted_provision

accepted_release :
    (start_release sample_env "c1" "urn:nsa:ultimate" sample_world).0 ≡ ok (accepted "c1")
unfolding send_operation ◌>>=◌ draw_urn register register_pending post_checked post attempt
    change_store modify update_status get Dict.lookup Dict.insert record_event pure lift raise
    resolve_pending_by_connection settle
accepted_release = refl

start_release-Delivers_example :
    let w' = (start_release sample_env "c1" "urn:nsa:ultimate" sample_world).1 in
    (a : ℕ) × (before : List Event) × (w'.trace ≡ spawned (Task.complete_release "c1" a) ∷ before)
    × Delivers (IsOutcome reserved) (complete_release sample_env "c1" a w')
start_release-Delivers_example =
    start_release-Delivers sample_env "c1" (sample_env-IsFair "c1") "urn:nsa:ultimate" sample_world
      Has-c1 (accepted "c1") accepted_release

accepted_terminate :
    (start_terminate sample_env sample_reservation "c1" "http://client" sample_world).0
    ≡ ok (accepted "c1")
unfolding send_operation ◌>>=◌ draw_urn register register_pending post_checked post attempt
    change_store modify update_status get Dict.lookup Dict.insert record_event pure lift raise
    resolve_pending_by_connection settle
accepted_terminate = refl

start_terminate-Delivers_example :
    let w' = (start_terminate sample_env sample_reservation "c1" "http://client" sample_world).1 in
    (a : ℕ) × (before : List Event) × (w'.trace ≡ spawned (Task.complete_terminate "c1" a) ∷ before)
    × Delivers (λ p. p.status ≡ terminated) (complete_terminate sample_env "c1" a w')
start_terminate-Delivers_example =
    start_terminate-Delivers sample_env "c1" (sample_env-IsFair "c1") sample_reservation
      "http://client" sample_world Has-c1 (accepted "c1") accepted_terminate

accepted_reserve : (send_reserve sample_reserving order sample_world).0 ≡ ok (accepted "c2")
unfolding send_operation ◌>>=◌ draw_urn register register_pending post_checked post attempt
    change_store modify update_status get Dict.lookup Dict.insert record_event pure lift raise
    resolve_pending_by_connection settle send_reserve write_store create reserve_started
accepted_reserve = refl

send_reserve-Delivers_example :
    let w' = (send_reserve sample_reserving order sample_world).1 in
    (connection_id : String) × (a : ℕ) × (before : List Event) × (w'.trace
      ≡ spawned (Task.complete_reserve connection_id a) ∷ before)
    × (get connection_id w'.store ≡ some (new_reservation sample_reserving connection_id order))
    × (is_reserve_in_flight connection_id w'.store ≡ true)
    × Delivers (IsOutcome reserved) (complete_reserve sample_reserving connection_id a w')
send_reserve-Delivers_example =
    send_reserve-Delivers sample_reserving sample_reserving-IsFair order sample_world
      (accepted "c2") accepted_reserve
