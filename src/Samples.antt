-- ===== src/Samples.antt =====
-- A small concrete world: one reservation, an aggregator that answers, and a peer that reports the
-- data plane up.
use nsi_aggregator_proxy.Common.{
  if◌then◌else◌, ◌==◌, str, String, true, false, none, some, [], ◌∷◌, arith,
}
use nsi_aggregator_proxy.Mapping.{Datetime, Iso8601, utc}
use nsi_aggregator_proxy.Models.{reserved}
use nsi_aggregator_proxy.Reservations.Tasks.Waiting.{IsFair, Reach-IsFair}
use nsi_aggregator_proxy.Runtime.{Settings, World, Response, value, Soap, Env}
use nsi_aggregator_proxy.Soap.Messages.{ErrorEvent, ConnectionStates, QueryReservation, NsiMessage}
use nsi_aggregator_proxy.Store.{Reservation, resolved, resolve_pending_by_connection}
use nsi_aggregator_proxy.Store.Futures.{resolve_connection, perform}
use nsi_aggregator_proxy.Store.Steps.{operated, Reach, here, next}

abbrev pub sample_states : ConnectionStates
sample_states = record {
  reservation_state = "ReserveStart";
  provision_state = "Provisioned";
  lifecycle_state = "Created";
  data_plane_active = false;
}

abbrev pub sample_qr : QueryReservation
sample_qr = record {
  connection_id = "c1";
  global_reservation_id = some "g1";
  description = "link";
  requester_nsa = "urn:nsa:ultimate";
  connection_states = sample_states;
  criteria_version = some 1;
  service_type = none;
  capacity = some 100;
  source_stp = some "urn:ogf:network:a.net:2024:a";
  dest_stp = some "urn:ogf:network:b.net:2024:b";
  start_time = none;
  children = none;
}

abbrev pub sample_reservation : Reservation
sample_reservation = record {
  connection_id = "c1";
  status = reserved;
  global_reservation_id = some "g1";
  description = "link";
  criteria = none;
  requester_nsa = "urn:nsa:ultimate";
  callback_url = "http://client/callback";
  last_error = none;
  seen_error_notification_ids = some (3 ∷ []);
}

abbrev pub sample_event : ErrorEvent
sample_event = record {
  connection_id = "c1";
  notification_id = 7;
  timestamp = "2024-05-01T10:00:00Z";
  event = "activateFailed";
  originating_connection_id = "c9";
  originating_nsa = "urn:nsa:upa";
  service_exception = none;
}

abbrev pub sample_ten : Datetime
sample_ten = record { wall = 36000000000; tzinfo = utc }

abbrev pub sample_eleven : Datetime
sample_eleven = record { wall = 39600000000; tzinfo = utc }

-- A reader that knows one timestamp.
abbrev pub sample_iso : Iso8601
sample_iso = record {
  fromisoformat = λ text.
      if text == "2024-05-01T10:00:00+00:00"
      then some (record { wall = 36000000000; tzinfo = some utc })
      else none;
  isoformat = λ t. "2024-05-01T10:00:00+00:00";
}

abbrev pub sample_up : NsiMessage
sample_up = NsiMessage.data_plane_state_change (record {
  connection_id = "c1";
  notification_id = 8;
  timestamp = "2024-05-01T10:00:00Z";
  active = true;
  version = 1;
  version_consistent = true;
})

abbrev pub sample_response : Response
sample_response = record { status_code = 200; content = [] }

abbrev pub sample_settings : Settings
sample_settings = record {
  requester_nsa = "urn:nsa:proxy";
  provider_nsa = "urn:nsa:aggregator";
  base_url = "https://proxy";
  nsi_timeout = 180;
  dataplane_timeout = 300;
}

abbrev pub sample_soap : Soap
sample_soap = record {
  parse = λ content. value NsiMessage.acknowledgment;
  parse_query_summary_sync = λ content. value (sample_qr ∷ []);
  parse_query_notification_sync =
      λ content. value (record { error_events = []; data_plane_changes = [] });
  parse_query_result_sync = λ content. value [];
}

abbrev pub sample_env : Env
sample_env = record {
  settings = sample_settings;
  soap = sample_soap;
  iso = sample_iso;
  repr = λ text. text;
  uuid4 = str;
  now = λ w. sample_eleven;
  reserve_period = λ w. ("2024-05-01T11:00:00Z", "2044-05-01T11:00:00Z");
  answer = λ w request. some sample_response;
  deliver_answer = λ w url. some sample_response;
  others = λ w. (resolve_pending_by_connection "c1" sample_up w.store).1;
  elapsed = λ w. 1000000;
}

abbrev pub sample_confirmed : NsiMessage
sample_confirmed = NsiMessage.provision_confirmed "c1"

-- The reservation, and a future that its callback has resolved.
abbrev pub sample_world : World
sample_world = record {
  store = record {
    reservations = ("c1", sample_reservation) ∷ [];
    pending = [];
    pending_by_connection = [];
    reserves_in_flight = "c1" ∷ [];
    futures = resolved sample_confirmed ∷ [];
  };
  drawn = 0;
  trace = [];
  held = 0 ∷ [];
}

pub sample_turn : (w : World) → Reach w.held w.store (sample_env.others w)
unfolding perform
sample_turn w = next here (operated (resolve_connection "c1" sample_up) w.store tt)

pub sample_env-IsFair : (connection_id : String) → IsFair sample_env connection_id
sample_env-IsFair connection_id =
    Reach-IsFair sample_env connection_id sample_turn (λ w. omega arith)

-- An aggregator that accepts a reserve.
abbrev pub sample_reserving : Env
sample_reserving = record sample_env {
  soap = record sample_soap {
    parse = λ content. value (NsiMessage.reserve_response (record { connection_id = "c2" }));
  };
}

pub sample_reserving-IsFair : (connection_id : String) → IsFair sample_reserving connection_id
sample_reserving-IsFair connection_id =
    let fair = sample_env-IsFair connection_id in
    record { keeps = fair.keeps; spares = fair.spares; time_passes = fair.time_passes }
