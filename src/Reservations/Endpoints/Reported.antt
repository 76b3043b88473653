-- ===== src/Reservations/Endpoints/Reported.antt =====
-- GET /reservations, from the XML of the aggregator's answer to the entries of the list.
use mathlib.Core.Path.{subst}
use nsi_aggregator_proxy.Common.{All, Member, ◌≡◌, ◌≢◌, refl, sym, true, some, none, List, [], ◌∷◌}
use nsi_aggregator_proxy.Models.{DetailLevel, recursive, ReservationDetail}
use nsi_aggregator_proxy.Reservations.Endpoints.{listed_detail, list_reservations}
use nsi_aggregator_proxy.Reservations.Endpoints.Listing.{IsListed, list_reservations-IsComplete}
use nsi_aggregator_proxy.Reservations.Queries.{query_header, post_or_502, query_summary}
use nsi_aggregator_proxy.Reservations.Queries.Stored.{IsAccepted}
use nsi_aggregator_proxy.Runtime.{
  query_summary_sync, World, Env, Response, is_success, value, post, post_checked, draw_urn, ok,
  ◌>>=◌, attempt,
}
use nsi_aggregator_proxy.Soap.Etree.{plain, Etree}
use nsi_aggregator_proxy.Soap.Etree.Laws.{Pairwise}
use nsi_aggregator_proxy.Soap.Messages.{NsiHeader, QueryReservation}
use nsi_aggregator_proxy.Soap.Parser.{expected, parse_query_summary_sync, soap}
use nsi_aggregator_proxy.Soap.Parser.Answers.{
  Says, IsReservation, parse_query_summary_sync-IsReservation,
}
use nsi_aggregator_proxy.Store.{Reservation, ReservationStore, get}
use nsi_aggregator_proxy.Store.Naming.{IsNamed}
use nsi_aggregator_proxy.Store.Steps.{Reach}

All-Pairwise :
    {A B : Type 0} (R : A → B → Type 0) (P : B → Type 0) (Q : A → Type 0)
    → ((a : A) (b : B) → R a b → P b → Q a)
    → (xs : List A) (ys : List B) → Pairwise R xs ys
    → All P ys
    → All Q xs
All-Pairwise R P Q f [] [] r p = tt
All-Pairwise R P Q f (a ∷ xs) (b ∷ ys) (r, rs) (p, ps) =
    (f a b r p, All-Pairwise R P Q f xs ys rs ps)
All-Pairwise R P Q f [] (b ∷ ys) r p = elim r [ ]
All-Pairwise R P Q f (a ∷ xs) [] r p = elim r [ ]

-- The aggregator answers the query for all reservations, in whatever world, with this response.
abbrev pub Answers : Env → Response → Type 0
Answers e response =
    (w : World) (header : NsiHeader)
    → e.answer w (query_summary_sync header none none) ≡ some response

query_summary-ok :
    (e : Env) (response : Response) (qrs : List QueryReservation) (w : World)
    → Answers e response
    → is_success response.status_code ≡ true
    → e.soap.parse_query_summary_sync response.content ≡ value qrs
    → (query_summary e none none w).0 ≡ ok qrs
unfolding query_summary query_header post_or_502 post_checked post draw_urn attempt ◌>>=◌
query_summary-ok e response qrs w answers success parsed =
    rw (answers _ _) (rw success (rw parsed refl))

-- The proxy with the parsers of parser.py.
abbrev pub parsing : {Element : Type 0} → Etree Element → Env → Env
parsing etree e = record e { soap = soap etree }

module _ {Element : Type 0} (etree : Etree Element) (e : Env) where
  -- The list has an entry for the element: the details of the reservation that is stored under the
  -- element's connectionId.
  abbrev pub IsReported :
      DetailLevel
      → List QueryReservation
      → ReservationStore
      → List ReservationDetail
      → Element
      → Type 0
  IsReported detail qrs s entries element =
      (r : Reservation) × Says etree (some element) "connectionId" r.connection_id
      × (get r.connection_id s ≡ some r)
      × Member (listed_detail e detail qrs r) entries

  IsReported-IsListed :
      (detail : DetailLevel) (qrs : List QueryReservation) (s : ReservationStore)
      (entries : List ReservationDetail) (element : Element) (qr : QueryReservation)
      → IsReservation etree element qr
      → IsListed e detail qrs s entries qr
      → IsReported detail qrs s entries element
  IsReported-IsListed detail qrs s entries element qr read (r, found, name, entry) = (
    r,
    subst (λ id. Says etree (some element) "connectionId" id) (sym name) read.connection_id,
    subst (λ id. get id s ≡ some r) (sym name) found,
    entry,
  )

  -- The aggregator answers the query for all reservations with a document that parses as
  -- reservations, none with a capacity of 0 or a malformed STP, which P2PS rejects. If in each of
  -- their turns the other tasks do nothing to the store but call its methods, and if each
  -- reservation is stored under its own id: GET /reservations without recursive details returns a
  -- list, in which every <reservation> of the document has an entry, the details of the
  -- reservation that is now stored under the element's connectionId.
  pub list_reservations-IsReported :
      (turn : (w : World) → Reach w.held w.store (e.others w)) (detail : DetailLevel)
      (response : Response) (confirmed : Element) (qrs : List QueryReservation) (w : World)
      → detail ≢ recursive
      → IsNamed w.store
      → Answers e response
      → is_success response.status_code ≡ true
      → expected etree "querySummarySyncConfirmed" response.content ≡ value confirmed
      → parse_query_summary_sync etree response.content ≡ value qrs
      → All IsAccepted qrs
      → let out = list_reservations (parsing etree e) detail w in
        (entries : List ReservationDetail) × (out.0 ≡ ok entries)
        × All
            (IsReported detail qrs out.1.store entries)
            (etree.findall confirmed (plain "reservation"))
  unfolding soap
  list_reservations-IsReported turn detail response confirmed qrs w ne named answers success found
        parsed valid =
      let read =
        parse_query_summary_sync-IsReservation etree response.content confirmed qrs found parsed in
      let (entries, p, listed) =
        list_reservations-IsComplete (parsing etree e) turn detail qrs w ne named valid
          (query_summary-ok (parsing etree e) response qrs w answers success parsed) in
      (entries, p, All-Pairwise _ _ _ (IsReported-IsListed detail qrs _ entries) _ qrs read listed)
