-- ===== src/Reservations/Endpoints/Requests.antt =====
-- Which requests of an operation the endpoints send to the aggregator. A query is no operation.
use nsi_aggregator_proxy.Common.{if◌then◌else◌, String, ◌≡◌, refl, List, [], ◌∷◌}
use nsi_aggregator_proxy.Reservations.Queries.{refresh_reservation, find_reservation_by_global_id}
use nsi_aggregator_proxy.Reservations.Queries.Reading.{
  is_query, HidesQueries, shown, Hidden-draw_urn, Hidden-refresh_reservation,
  Hidden-find_reservation_by_global_id,
}
use nsi_aggregator_proxy.Runtime.{
  Request, Event, posted, World, Env, M, draw_urn, Exception, Result, pure, raise, lift, ◌>>=◌,
  attempt,
}
use nsi_aggregator_proxy.Runtime.Views.{
  Same-bind, view-bind, view-attempt, Same-attempt, Same-pure, Same-raise, Same-lift,
}

-- The requests of operations in a trace, newest first.
abbrev pub operations : List Event → List Request
operations [] = []
operations (posted request ∷ trace) =
    let rest = operations trace in if is_query request then rest else request ∷ rest
operations (_ ∷ trace) = operations trace

-- The action sends no operation.
abbrev pub Quiet : {A : Type 0} → M A → Type 0
Quiet m = (w : World) → operations (m w).1.trace ≡ operations w.trace

pub operations-HidesQueries : HidesQueries operations
operations-HidesQueries = record { hides = λ request trace q. rw q refl }

pub Quiet-bind :
    {A B : Type 0} (m : M A) (f : A → M B) → Quiet m → ((a : A) → Quiet (f a)) → Quiet (m >>= f)
Quiet-bind = Same-bind (shown operations)

pub operations-bind :
    {A B : Type 0} (m : M A) (f : A → M B)
    → ((a : A) → Quiet (f a))
    → (w : World) → operations ((m >>= f) w).1.trace ≡ operations (m w).1.trace
operations-bind = view-bind (shown operations)

pub operations-attempt :
    {A : Type 0} (m : M A) (h : Exception → M A)
    → ((x : Exception) → Quiet (h x))
    → (w : World) → operations (attempt m h w).1.trace ≡ operations (m w).1.trace
operations-attempt = view-attempt (shown operations)

pub Quiet-attempt :
    {A : Type 0} (m : M A) (h : Exception → M A)
    → Quiet m
    → ((x : Exception) → Quiet (h x))
    → Quiet (attempt m h)
Quiet-attempt = Same-attempt (shown operations)

pub Quiet-pure : {A : Type 0} (a : A) → Quiet (pure a)
Quiet-pure = Same-pure (shown operations)

pub Quiet-raise : (A : Type 0) (x : Exception) → Quiet (raise {A = A} x)
Quiet-raise = Same-raise (shown operations)

pub Quiet-lift : {A : Type 0} (r : Result A) → Quiet (lift r)
Quiet-lift = Same-lift (shown operations)

module _ (e : Env) where
  pub Quiet-draw_urn : Quiet (draw_urn e)
  Quiet-draw_urn = Hidden-draw_urn operations operations-HidesQueries e

  -- A refresh sends queries only.
  pub Quiet-refresh_reservation :
      (connection_id : String) → Quiet (refresh_reservation e connection_id)
  Quiet-refresh_reservation = Hidden-refresh_reservation operations operations-HidesQueries e

  -- The search for a reservation with a global id sends queries only.
  pub Quiet-find_reservation_by_global_id :
      (id : String) → Quiet (find_reservation_by_global_id e id)
  Quiet-find_reservation_by_global_id =
      Hidden-find_reservation_by_global_id operations operations-HidesQueries e
