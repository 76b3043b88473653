-- ===== src/Store/Refinement.antt =====
-- The reservations of the store as a finite map from connection ids: what the methods that write
-- reservations promise, and what `get` and `get_all` show.
use nsi_aggregator_proxy.Common.Dict
use nsi_aggregator_proxy.Common.Dict.{Dict, lookup-insert}
use mathlib.Core.Path.{fun_ext}
use mathlib.Core.Option.{some-injective}
use nsi_aggregator_proxy.Common.{
  leb, Bool, ◌&&◌, if◌then◌else◌, Bool-cases, Option-cases, ◌==◌, Member, String, ◌≡◌, refl, sym,
  ap, ◌∙◌, ◌↔◌, inl, inr, Option, none, some, List, [], ◌∷◌, arith, eq_iff, eq_refl,
}
use nsi_aggregator_proxy.Models.{ReservationStatus, CriteriaResponse}
use nsi_aggregator_proxy.Models.Formats.{matches_stp, accepts_link}
use nsi_aggregator_proxy.Soap.Messages.{ReserveConfirmed}
use nsi_aggregator_proxy.Store.{
  Reservation, ReservationStore, empty, create, get, get_all, modify, update_status,
  confirmed_criteria, replace_criteria, update_criteria,
}

abbrev pub FiniteMap : Type 0
FiniteMap = String → Option Reservation

pub data Command : Type 0 where
  create_one : Reservation → Command
  set_status : (connection_id : String) → ReservationStatus → Command
  set_criteria : (connection_id : String) → ReserveConfirmed → Command

-- A KeyError or a ValidationError leaves the method before it writes.
abbrev pub unless_missing : Option ReservationStore → ReservationStore → ReservationStore
unless_missing none s = s
unless_missing (some t) s = t

unfoldable pub execute : Command → ReservationStore → ReservationStore
execute (create_one r) s = create r s
execute (set_status id status) s = unless_missing (update_status id status s) s
execute (set_criteria id msg) s = unless_missing (update_criteria id msg s) s

unfoldable pub execute_all : List Command → ReservationStore → ReservationStore
execute_all [] s = s
execute_all (c ∷ cs) s = execute_all cs (execute c s)

-- The specification: a map that changes at one id.
abbrev assign : String → Option Reservation → FiniteMap → FiniteMap
assign id o m j = if id == j then o else m j

abbrev change_status : ReservationStatus → Reservation → Reservation
change_status status r = record r { status = status }

abbrev change_criteria : CriteriaResponse → Reservation → Reservation
change_criteria criteria r = record r { criteria = some criteria }

abbrev if_there : (Reservation → Reservation) → Option Reservation → Option Reservation
if_there f none = none
if_there f (some r) = some (f r)

-- The criteria of a link: with a positive capacity, between two Network URNs.
abbrev is_link : ReserveConfirmed → Bool
is_link msg = leb 1 msg.capacity && matches_stp msg.source_stp && matches_stp msg.dest_stp

abbrev agreed : ReserveConfirmed → CriteriaResponse
agreed msg = record {
  version = msg.criteria_version;
  service_type = some msg.service_type;
  p2ps = record { capacity = msg.capacity; source_stp = msg.source_stp; dest_stp = msg.dest_stp };
}

unfoldable pub specify : Command → FiniteMap → FiniteMap
specify (create_one r) m = assign r.connection_id (some r) m
specify (set_status id status) m = assign id (if_there (change_status status) (m id)) m
specify (set_criteria id msg) m =
    if is_link msg then assign id (if_there (change_criteria (agreed msg)) (m id)) m else m

unfoldable pub specify_all : List Command → FiniteMap → FiniteMap
specify_all [] m = m
specify_all (c ∷ cs) m = specify_all cs (specify c m)

abbrev view : ReservationStore → FiniteMap
view s id = get id s

modify-view :
    (id : String) (f : Reservation → Reservation) (s : ReservationStore) (j : String)
    → get j (unless_missing (modify id f s) s) ≡ assign id (if_there f (get id s)) (view s) j
unfolding modify get
modify-view id f s j = elim (Option-cases (get id s)) [
  | inl missing ↦ rw missing (ground (arith, eq_iff id j))
  | inr (r, h) ↦ rw h (lookup-insert id j (f r) s.reservations)
]

execute-view :
    (c : Command) (s : ReservationStore) (j : String) → get j (execute c s) ≡ specify c (view s) j
unfolding execute specify create get update_status update_criteria accepts_link
execute-view (create_one r) s j = lookup-insert r.connection_id j r s.reservations
execute-view (set_status id status) s j = modify-view id (change_status status) s j
execute-view (set_criteria id msg) s j = elim (Bool-cases (is_link msg)) [
  | inl valid ↦ rw valid (modify-view id (change_criteria (agreed msg)) s j)
  | inr invalid ↦ rw invalid refl
]

execute_all-view :
    (cs : List Command) (s : ReservationStore) (m : FiniteMap)
    → ((j : String) → get j s ≡ m j)
    → (j : String) → get j (execute_all cs s) ≡ specify_all cs m j
unfolding execute_all specify_all
execute_all-view [] s m h j = h j
execute_all-view (c ∷ cs) s m h j =
    let same : view s ≡ m = fun_ext h in
    execute_all-view cs (execute c s) (specify c m)
      (λ i. execute-view c s i ∙ ap (λ f. specify c f i) same) j

-- A stored reservation stands under its own connection id, and no id stands twice.
abbrev pub IsKeyed : Dict Reservation → Type 0
IsKeyed [] = Unit
IsKeyed ((k, r) ∷ d) = (r.connection_id ≡ k) × (Dict.lookup k d ≡ none) × IsKeyed d

pub insert-IsKeyed :
    (k : String) (r : Reservation) (d : Dict Reservation)
    → r.connection_id ≡ k
    → IsKeyed d
    → IsKeyed (Dict.insert k r d)
unfolding Dict.insert Dict.lookup
insert-IsKeyed k r [] own h = (own, refl, tt)
insert-IsKeyed k r ((j, w) ∷ d) own (named, fresh, rest) = elim (Bool-cases (j == k)) [
  | inl same ↦ rw same (own ∙ sym ((eq_iff j k).0 same), fresh, rest)
  | inr other ↦ rw other (
    named,
    rw lookup-insert (ground (arith, eq_iff k j, eq_iff j k, fresh)),
    insert-IsKeyed k r d own rest,
  )
]

pub values_iff :
    (d : Dict Reservation) (r : Reservation)
    → IsKeyed d
    → Member r (Dict.values d) ↔ (Dict.lookup r.connection_id d ≡ some r)
unfolding Dict.values Dict.lookup
values_iff [] r h = (λ m. elim m [ ], λ e. cc (e))
values_iff ((k, w) ∷ d) r (named, fresh, rest) =
    let ih : Member r (Dict.values d) ↔ (Dict.lookup r.connection_id d ≡ some r) =
      values_iff d r rest in
    (
      λ m. elim m [
        | inl same ↦ rw same (rw named (rw (eq_refl k) refl))
        | inr later ↦
            let found = ih.0 later in ground (arith, eq_iff k r.connection_id, found, fresh)
      ],
      λ e. elim (Bool-cases (k == r.connection_id)) [
        | inl here ↦ inl (sym (some-injective _ _ (rw here at e)))
        | inr other ↦ inr (ih.1 (rw other at e))
      ],
    )

pub lookup-named :
    (k : String) (r : Reservation) (d : Dict Reservation)
    → IsKeyed d
    → Dict.lookup k d ≡ some r
    → r.connection_id ≡ k
unfolding Dict.lookup
lookup-named k r [] h e = cc (e)
lookup-named k r ((j, w) ∷ d) (named, fresh, rest) e = elim (Bool-cases (j == k)) [
  | inl same ↦
      let found : w ≡ r = some-injective _ _ (rw same at e) in
      rw (← found) (named ∙ (eq_iff j k).0 same)
  | inr other ↦ lookup-named k r d rest (rw other at e)
]

modify-IsKeyed :
    (id : String) (f : Reservation → Reservation) (s : ReservationStore)
    → ((r : Reservation) → (f r).connection_id ≡ r.connection_id)
    → IsKeyed s.reservations
    → IsKeyed (unless_missing (modify id f s) s).reservations
unfolding modify get
modify-IsKeyed id f s same h = elim (Option-cases (get id s)) [
  | inl missing ↦ rw missing h
  | inr (r, found) ↦
      rw found (
        insert-IsKeyed id (f r) s.reservations (same r ∙ lookup-named id r s.reservations h found)
          h)
]

replace-IsKeyed :
    (id : String) (criteria : Option CriteriaResponse) (s : ReservationStore)
    → IsKeyed s.reservations
    → IsKeyed (unless_missing (replace_criteria id criteria s) s).reservations
replace-IsKeyed id none s h = h
replace-IsKeyed id (some criteria) s h =
    modify-IsKeyed id (change_criteria criteria) s (λ r. refl) h

execute-IsKeyed :
    (c : Command) (s : ReservationStore)
    → IsKeyed s.reservations
    → IsKeyed (execute c s).reservations
unfolding execute create update_status update_criteria
execute-IsKeyed (create_one r) s h = insert-IsKeyed r.connection_id r s.reservations refl h
execute-IsKeyed (set_status id status) s h =
    modify-IsKeyed id (change_status status) s (λ r. refl) h
execute-IsKeyed (set_criteria id msg) s h = replace-IsKeyed id (confirmed_criteria msg) s h

execute_all-IsKeyed :
    (cs : List Command) (s : ReservationStore)
    → IsKeyed s.reservations
    → IsKeyed (execute_all cs s).reservations
unfolding execute_all
execute_all-IsKeyed [] s h = h
execute_all-IsKeyed (c ∷ cs) s h = execute_all-IsKeyed cs (execute c s) (execute-IsKeyed c s h)

-- After any calls of create, update_status and update_criteria from an empty store, without effect
-- for an unknown id and, for update_criteria, for a capacity of 0 or an STP that is no Network
-- URN: get is the specified finite map, and get_all lists exactly the reservations of that map.
pub execute_all_lem :
    (cs : List Command)
    → let s = execute_all cs empty in
      let m = specify_all cs (λ id. none) in
      ((id : String) → get id s ≡ m id)
      × ((r : Reservation) → Member r (get_all s) ↔ (m r.connection_id ≡ some r))
unfolding get_all get empty Dict.lookup
execute_all_lem cs =
    let s = execute_all cs empty in
    let same = execute_all-view cs empty (λ id. none) empty-view in
    (
      same,
      λ r.
          let listed = values_iff s.reservations r (execute_all-IsKeyed cs empty empty-IsKeyed) in
          (λ m. sym (same r.connection_id) ∙ listed.0 m, λ e. listed.1 (same r.connection_id ∙ e)),
    )
  where
    empty-view : (id : String) → get id empty ≡ none
    empty-view id = refl

    empty-IsKeyed : IsKeyed empty.reservations
    empty-IsKeyed = tt
