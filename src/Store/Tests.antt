-- ===== src/Store/Tests.antt =====
-- The theorems on the pending futures, at concrete stores and operations.
use nsi_aggregator_proxy.Common.Dict
use nsi_aggregator_proxy.Common.{
  ◌==◌, All, Member, String, ◌≡◌, refl, ◌≢◌, ◌↔◌, true, false, none, some, List, [], ◌∷◌, arith,
  eq_iff,
}
use nsi_aggregator_proxy.Models.{reserving, reserved, failed}
use nsi_aggregator_proxy.Soap.Messages.{NsiMessage}
use nsi_aggregator_proxy.Store.{
  Reservation, waiting, resolved, ReservationStore, empty, create, get, get_all, modify,
  update_status, future_at, register_pending, resolve_pending,
}
use nsi_aggregator_proxy.Store.Delivery.{Spares, resolve_pending-register_pending}
use nsi_aggregator_proxy.Store.Futures.{
  register, register_connection, Op, resolve, cancel, time_out, run, IsSound,
}
use nsi_aggregator_proxy.Store.Refinement.{
  Command, create_one, set_status, execute, execute_all, specify_all, execute_all_lem,
}

empty-IsSound : IsSound empty
unfolding empty Dict.lookup
empty-IsSound = record {
  known = λ k a h. cc (h);
  known_other = λ k a h. cc (h);
  one_key = λ j k a h h'. cc (h);
  one_key_other = λ j k a h h'. cc (h);
  not_both = λ j k a h. cc (h);
}

abbrev message : NsiMessage
message = NsiMessage.provision_confirmed "c1"

abbrev others : List Op
others =
    register "id2"
    ∷ register_connection "c1"
    ∷ resolve "id3" message
    ∷ time_out 1
    ∷ cancel "id2"
    ∷ []

abbrev answered : ReservationStore
answered = record empty { futures = resolved message ∷ [] }

differ : (a b : String) → (a == b) ≡ false → a ≢ b
differ a b h = ground (arith, eq_iff a b)

-- None of them uses "id1", and the wait that ends is another.
spared : All (Spares "id1" (register_pending "id1" empty).0) others
unfolding register_pending empty
spared = (
  differ "id2" "id1" refl,
  (tt, (differ "id3" "id1" refl, (omega arith, (differ "id2" "id1" refl, tt)))),
)

resolve_pending-register_pending_example :
    let a = (register_pending "id1" empty).0 in
    let r = resolve_pending "id1" message (run others (register_pending "id1" empty).1) in
    (r.0 ≡ true)
    × (future_at a r.1 ≡ some (resolved message))
    × (Dict.lookup "id1" r.1.pending ≡ none)
resolve_pending-register_pending_example =
    resolve_pending-register_pending "id1" message empty others empty-IsSound spared

abbrev waiting_store : ReservationStore
waiting_store = record empty { pending = ("id1", 0) ∷ []; futures = waiting ∷ [] }

named : Dict.lookup "id1" waiting_store.pending ≡ some 0
unfolding Dict.lookup
named = refl

abbrev first_reservation : Reservation
first_reservation = record {
  connection_id = "c1";
  status = reserving;
  global_reservation_id = none;
  description = "a link";
  criteria = none;
  requester_nsa = "urn:nsa:proxy";
  callback_url = "http://client";
  last_error = none;
  seen_error_notification_ids = none;
}

abbrev commands : List Command
commands = create_one first_reservation ∷ set_status "c1" reserved ∷ set_status "c2" failed ∷ []

execute_all_lem_example :
    let s = execute_all commands empty in
    let m = specify_all commands (λ id. none) in
    ((id : String) → get id s ≡ m id)
    × ((r : Reservation) → Member r (get_all s) ↔ (m r.connection_id ≡ some r))
execute_all_lem_example = execute_all_lem commands

executed :
    get_all (execute_all commands empty) ≡ record first_reservation { status = reserved } ∷ []
unfolding execute_all execute create update_status modify get get_all empty Dict.insert Dict.lookup
    Dict.values
executed = refl
