-- ===== src/Runtime.antt =====
-- What the endpoints and tasks of the proxy run on: asyncio, httpx and FastAPI as the source uses
-- them. A coroutine is an action on a `World`: the store, the ids drawn, the trace of what the
-- coroutine did, newest first, and the addresses of the futures that it registered. Code that is not in the repository is the parameter `Env`:
-- what the aggregator and the callers answer, the clock, the uuids, and, at every `await`, what the
-- other tasks make of the store (`others`). The SOAP texts stand behind the interface `Soap`.
pub mod Laws
pub mod Views
mod Monad
unfoldable pub use Monad.*
use nsi_aggregator_proxy.Common.{
  ltb, leb, if◌then◌else◌, ◌<>◌, ℕ, suc, String, Bool, ◌&&◌, Option, none, some, List, ◌∷◌,
}
use nsi_aggregator_proxy.Mapping.{Datetime, Iso8601}
use nsi_aggregator_proxy.Models.{ReservationDetail}
use nsi_aggregator_proxy.Runtime.Monad.{
  error, cancelled_error, Result, ok, err, Act, lift, ◌>>=◌, ◌>>◌,
}
use nsi_aggregator_proxy.Soap.Messages.{
  QueryReservation, NsiMessage, Notifications, OperationResult, NsiHeader,
}
use nsi_aggregator_proxy.Store.{
  Future, waiting, resolved, ReservationStore, future_at, register_pending,
  register_pending_by_connection, abandon,
}

pub record Settings : Type 0 where
  pub requester_nsa : String
  pub provider_nsa : String
  pub base_url : String
  pub nsi_timeout : ℕ
  pub dataplane_timeout : ℕ

-- The arguments of the builder functions of nsi_soap/builder.py, one constructor for each.
pub data Request : Type 0 where
  reserve :
      (header : NsiHeader) (global_reservation_id : Option String) (description : String)
      (capacity : ℕ) (source_stp dest_stp start_time end_time service_type : String)
      (ero : Option (List String))
      → Request
  reserve_commit : (header : NsiHeader) (connection_id : String) → Request
  provision : (header : NsiHeader) (connection_id : String) → Request
  release : (header : NsiHeader) (connection_id : String) → Request
  terminate : (header : NsiHeader) (connection_id : String) → Request
  query_summary_sync :
      (header : NsiHeader) (connection_id global_reservation_id : Option String) → Request
  query_recursive : (header : NsiHeader) (connection_id : Option String) → Request
  query_notification_sync : (header : NsiHeader) (connection_id : String) → Request
  query_result_sync : (header : NsiHeader) (connection_id : Option String) → Request

-- The coroutines that are started with `asyncio.create_task`. A reservation object that is handed
-- to a task is named by its connectionId.
pub data Task : Type 0 where
  deliver : (callback_url connection_id : String) → Task
  complete_reserve : (connection_id : String) (future : ℕ) → Task
  complete_provision : (connection_id : String) (future : ℕ) → Task
  complete_release : (connection_id : String) (future : ℕ) → Task
  complete_terminate : (connection_id : String) (future : ℕ) → Task

pub data Event : Type 0 where
  posted : Request → Event
  delivered : (callback_url : String) (payload : ReservationDetail) → Event
  spawned : Task → Event

pub record World : Type 0 where
  pub store : ReservationStore
  pub drawn : ℕ
  pub trace : List Event
  pub held : List ℕ

-- The body of a response, in bytes.
abbrev pub Content : Type 0
Content = List ℕ

pub record Response : Type 0 where
  pub status_code : ℕ
  pub content : Content

-- `response.is_success` of httpx.
abbrev pub is_success : ℕ → Bool
is_success code = leb 200 code && ltb code 300

-- The parsers of nsi_soap/parser.py, by what they make of a body. They raise ValueError.
pub data Parsed (A : Type 0) : Type 0 where
  value : A → Parsed A
  value_error : (message : String) → Parsed A

pub record Soap : Type 0 where
  pub parse : Content → Parsed NsiMessage
  pub parse_query_summary_sync : Content → Parsed (List QueryReservation)
  pub parse_query_notification_sync : Content → Parsed Notifications
  pub parse_query_result_sync : Content → Parsed (List OperationResult)

pub record Env : Type 0 where
  pub settings : Settings
  pub soap : Soap
  pub iso : Iso8601
  pub repr : String → String
  pub uuid4 : ℕ → String
  -- `strftime` of the moment of a reserve, and of that moment plus twenty years.
  pub now : World → Datetime
  pub reserve_period : World → String × String
  -- `none` where httpx raises an exception of its own.
  pub answer : World → Request → Option Response
  pub deliver_answer : World → String → Option Response
  pub others : World → ReservationStore
  -- What a wait of the data-plane loop takes off its remaining time, in microseconds.
  pub elapsed : World → ℕ

abbrev pub M : Type 0 → Type 0
M A = Act World A

module _ {A : Type 0} where
  unfoldable pub read_store : (ReservationStore → A) → M A
  read_store f w = (ok (f w.store), w)

-- What a library call returns, or its exception.
abbrev pub from_library : {A : Type 0} → String → Option A → Result A
from_library name none = err (error name)
from_library name (some a) = ok a

abbrev pub from_parser : {A : Type 0} → Parsed A → Result A
from_parser (value a) = ok a
from_parser (value_error message) = err (error message)

-- A call of a store method that returns nothing.
unfoldable pub write_store : (ReservationStore → ReservationStore) → M (Unit {0})
write_store f w = (ok tt, record w { store = f w.store })

-- A call that may leave by a KeyError.
abbrev pub keyed : Option ReservationStore → World → Result (Unit {0}) × World
keyed none w = (err (error "KeyError or ValidationError"), w)
keyed (some s) w = (ok tt, record w { store = s })

unfoldable pub change_store : (ReservationStore → Option ReservationStore) → M (Unit {0})
change_store f w = keyed (f w.store) w

unfoldable pub register : String → M ℕ
register correlation_id w =
    let (address, s) = register_pending correlation_id w.store in
    (ok address, record w { store = s; held = address ∷ w.held })

unfoldable pub register_connection : String → M ℕ
register_connection connection_id w =
    let (address, s) = register_pending_by_connection connection_id w.store in
    (ok address, record w { store = s; held = address ∷ w.held })

unfoldable pub record_event : Event → M (Unit {0})
record_event event w = (ok tt, record w { trace = event ∷ w.trace })

-- `asyncio.create_task`
abbrev pub create_task : Task → M (Unit {0})
create_task task = record_event (spawned task)

module _ (e : Env) where
  -- The other tasks run.
  unfoldable pub pause : M (Unit {0})
  pause w = (ok tt, record w { store = e.others w })

  -- `f"urn:uuid:{uuid4()}"`
  unfoldable pub draw_urn : M String
  draw_urn w = (ok ("urn:uuid:" <> e.uuid4 w.drawn), record w { drawn = suc w.drawn })

  unfoldable pub current_time : M Datetime
  current_time w = (ok (e.now w), w)

  -- `await nsi_client.post(settings.provider_url, …)`
  unfoldable pub post : Request → M Response
  post request w =
      let sent = record w { trace = posted request ∷ w.trace } in
      (from_library "httpx" (e.answer sent request), record sent { store = e.others sent })

  -- `raise_for_status(response, …)`: an answer that is no success raises HTTPStatusError.
  abbrev pub raise_for_status : Response → Result Response
  raise_for_status response =
      if is_success response.status_code then ok response else err (error "HTTPStatusError")

  unfoldable pub post_checked : Request → M Response
  unfolding post
  post_checked request = do response ← post request; lift (raise_for_status response)

  -- `await callback_client.post(callback_url, json=payload)`
  unfoldable pub post_callback : String → ReservationDetail → M Response
  post_callback url payload w =
      let sent = record w { trace = delivered url payload ∷ w.trace } in
      (from_library "httpx" (e.deliver_answer sent url), record sent { store = e.others sent })

  -- What `wait_for` finds once the other tasks have run: a message, or `none` for a TimeoutError,
  -- by which the future is cancelled. A future that someone cancelled raises in the waiter.
  abbrev pub waited : Option Future → ℕ → World → Result (Option NsiMessage) × World
  waited (some (resolved message)) address w = (ok (some message), w)
  waited (some waiting) address w = (ok none, record w { store = abandon address w.store })
  waited _ address w = (err cancelled_error, w)

  unfoldable pub wait_for : ℕ → M (Option NsiMessage)
  wait_for address w =
      let w' = record w { store = e.others w } in waited (future_at address w'.store) address w'
