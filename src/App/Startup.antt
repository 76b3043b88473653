-- ===== src/App/Startup.antt =====
-- The startup ends whatever the aggregator answers, and fills the store if it answers.
use nsi_aggregator_proxy.App.{lifespan_start}
use nsi_aggregator_proxy.Common.{All, String, ◌≡◌, refl, ap, inl, inr, none, List}
use nsi_aggregator_proxy.Models.Formats.{one}
use nsi_aggregator_proxy.Reservations.Queries.{query_summary, refresh_all_reservations}
use nsi_aggregator_proxy.Reservations.Queries.Population.{refresh_all_reservations-Has}
use nsi_aggregator_proxy.Reservations.Queries.Failing.{refresh_all_reservations-Tame}
use nsi_aggregator_proxy.Reservations.Queries.Stored.{IsAccepted, AllHas, plain-IsKept}
use nsi_aggregator_proxy.Runtime.{
  World, Env, M, write_store, Exception, Result, ok, pure, ◌>>=◌, ◌>>◌, attempt,
}
use nsi_aggregator_proxy.Runtime.Laws.{Tame}
use nsi_aggregator_proxy.Soap.Messages.{QueryReservation}
use nsi_aggregator_proxy.Store.{empty}
use nsi_aggregator_proxy.Store.Steps.{Has}

attempt-ok :
    {A : Type 0} (Q : Result A × World → Type 0) (m : M A) (h : Exception → M A) (w : World) (a : A)
    → (m w).0 ≡ ok a
    → Q (ok a, (m w).1)
    → Q (attempt m h w)
unfolding attempt
attempt-ok Q m h w a e q = rw e q

attempt-caught :
    {A : Type 0} (m : M A) (a : A) (w : World)
    → Tame (m w).0
    → ((b : A) → b ≡ a)
    → (attempt m (λ x. pure a) w).0 ≡ ok a
unfolding attempt pure
attempt-caught m a w (inl (b, p)) one = rw p (ap ok (one b))
attempt-caught m a w (inr (x, p, caught)) one = rw p (rw caught refl)

module _ (e : Env) (keeps : (id : String) (w : World) → Has id w.store → Has id (e.others w)) where
  body-Tame : (w : World) → Tame ((do refresh_all_reservations e; pure tt) w).0
  unfolding ◌>>=◌ pure
  body-Tame w = elim (refresh_all_reservations-Tame e w) [
    | inl (qrs, p) ↦ rw p (inl (tt, refl))
    | inr (x, p, caught) ↦ rw p (inr (x, refl, caught))
  ]

  -- If no reservation is removed meanwhile, the startup always ends without an exception. If the
  -- query for all reservations is answered, the answer parses, and none of its reservations has a
  -- capacity of 0 or a malformed STP, which P2PS rejects, then every reservation of the answer is
  -- in the store, whatever was in it before.
  pub lifespan_start_lem :
      (w : World)
      → let w0 = record w { store = empty } in
        let out = lifespan_start e w in
        (out.0 ≡ ok tt)
        × ((qrs : List QueryReservation)
            → (query_summary e none none w0).0 ≡ ok qrs
            → All IsAccepted qrs
            → AllHas qrs out.1.store)
  unfolding lifespan_start ◌>>=◌ write_store pure
  lifespan_start_lem w =
      let w0 : World = record w { store = empty } in
      let body : M (Unit {0}) = (do refresh_all_reservations e; pure tt) in
      (
        attempt-caught body tt w0 (body-Tame w0) (λ b. refl),
        λ qrs answered valid.
            let (p, all, _) =
              refresh_all_reservations-Has e _ (plain-IsKept e) keeps qrs w0 valid tt answered in
            attempt-ok (λ out. AllHas qrs out.1.store) body _ w0 tt (rw p refl) (rw p all),
      )
