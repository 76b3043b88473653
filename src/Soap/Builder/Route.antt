-- ===== src/Soap/Builder/Route.antt =====
-- What the envelope of a reserve asks for: the link, its period, and the STPs of its route in order.
use nsi_aggregator_proxy.Common.Dict
use nsi_aggregator_proxy.Common.{
  str, ℕ, suc, String, ◌≡◌, refl, ap, ◌∙◌, Option, none, some, List, [], ◌∷◌, map,
}
use nsi_aggregator_proxy.Soap.Builder.{ordered_stps, build_reserve}
use nsi_aggregator_proxy.Soap.Builder.Addressing.{descend, text_at}
use nsi_aggregator_proxy.Soap.Etree.{plain, in_soapenv, in_ctypes, in_p2p}
use nsi_aggregator_proxy.Soap.Messages.{NsiHeader}
use nsi_aggregator_proxy.Soap.Tree.{children_of, Tree, forest, trees, attributes_of, child_text}

abbrev pub reserve_text : String → Tree → Option String
reserve_text name = text_at (in_soapenv "Body" ∷ in_ctypes "reserve" ∷ plain name ∷ [])

abbrev pub schedule_text : String → Tree → Option String
schedule_text name = text_at (
    in_soapenv "Body" ∷ in_ctypes "reserve" ∷ plain "criteria" ∷ plain "schedule" ∷ plain name ∷ [])

abbrev pub p2ps_text : String → Tree → Option String
p2ps_text name =
    text_at
      (in_soapenv "Body" ∷ in_ctypes "reserve" ∷ plain "criteria" ∷ in_p2p "p2ps" ∷ plain name ∷ [])

-- Each `<orderedSTP>` by its order and its STP.
abbrev pub stp_entry : Tree → Option String × Option String
stp_entry t = (Dict.lookup "order" (attributes_of t), child_text (plain "stp") t)

abbrev pub entries : Option Tree → Option (List (Option String × Option String))
entries none = none
entries (some ero) = some (map stp_entry (children_of ero))

abbrev pub route : Tree → Option (List (Option String × Option String))
route t = entries (
    descend
      (in_soapenv "Body"
        ∷ in_ctypes "reserve"
        ∷ plain "criteria"
        ∷ in_p2p "p2ps"
        ∷ plain "ero"
        ∷ [])
      (some t))

-- The STPs of a route, numbered from an order on.
abbrev pub numbered : ℕ → List String → List (Option String × Option String)
numbered order [] = []
numbered order (stp ∷ stps) = (some (str order), some stp) ∷ numbered (suc order) stps

-- A route is asked for if it has an STP.
abbrev pub asked_route : Option (List String) → Option (List (Option String × Option String))
asked_route none = none
asked_route (some []) = none
asked_route (some (stp ∷ stps)) = some (numbered 0 (stp ∷ stps))

trees-forest : (ts : List Tree) → trees (forest ts) ≡ ts
trees-forest [] = refl
trees-forest (t ∷ ts) = ap (◌∷◌ t) (trees-forest ts)

map-ordered_stps :
    (order : ℕ) (stps : List String) → map stp_entry (ordered_stps order stps) ≡ numbered order stps
unfolding ordered_stps Dict.lookup
map-ordered_stps order [] = refl
map-ordered_stps order (stp ∷ stps) =
    ap (◌∷◌ (some (str order), some stp)) (map-ordered_stps (suc order) stps)

entries_lem :
    (stp : String) (stps : List String)
    → map stp_entry (trees (forest (ordered_stps 0 (stp ∷ stps)))) ≡ numbered 0 (stp ∷ stps)
entries_lem stp stps =
    ap (map stp_entry) (trees-forest (ordered_stps 0 (stp ∷ stps)))
    ∙ map-ordered_stps 0 (stp ∷ stps)

module _ (header : NsiHeader) (description : String) (capacity : ℕ)
    (source_stp dest_stp start_time end_time service_type : String) where
  abbrev pub built : Option String → Option (List String) → Tree
  built global_reservation_id ero =
      build_reserve header global_reservation_id description capacity source_stp dest_stp start_time
        end_time service_type ero

  route-build_reserve :
      (global_reservation_id : Option String) (ero : Option (List String))
      → route (built global_reservation_id ero) ≡ asked_route ero
  unfolding build_reserve
  route-build_reserve none none = refl
  route-build_reserve none (some []) = refl
  route-build_reserve none (some (stp ∷ stps)) = ap some (entries_lem stp stps)
  route-build_reserve (some id) none = refl
  route-build_reserve (some id) (some []) = refl
  route-build_reserve (some id) (some (stp ∷ stps)) = ap some (entries_lem stp stps)

  -- The link and its period.
  pub record IsLink (envelope : Tree) : Type 0 where
    pub description_text : reserve_text "description" envelope ≡ some description
    pub start_text : schedule_text "startTime" envelope ≡ some start_time
    pub end_text : schedule_text "endTime" envelope ≡ some end_time
    pub capacity_text : p2ps_text "capacity" envelope ≡ some (str capacity)
    pub source_text : p2ps_text "sourceSTP" envelope ≡ some source_stp
    pub dest_text : p2ps_text "destSTP" envelope ≡ some dest_stp

  build_reserve-IsLink :
      (global_reservation_id : Option String) (ero : Option (List String))
      → IsLink (built global_reservation_id ero)
  unfolding build_reserve
  build_reserve-IsLink none ero = record {
    description_text = refl;
    start_text = refl;
    end_text = refl;
    capacity_text = refl;
    source_text = refl;
    dest_text = refl;
  }
  build_reserve-IsLink (some id) ero = record {
    description_text = refl;
    start_text = refl;
    end_text = refl;
    capacity_text = refl;
    source_text = refl;
    dest_text = refl;
  }

  -- The envelope of a reserve asks for the link of its arguments: the description, the start and end
  -- time, the capacity in decimal, and the two end points. It has a route exactly if the list of STPs
  -- is given and not empty: then its orderedSTPs are those STPs in their order, numbered from 0.
  pub build_reserve_lem :
      (global_reservation_id : Option String) (ero : Option (List String))
      → IsLink (built global_reservation_id ero)
        × (reserve_text "globalReservationId" (built global_reservation_id ero)
            ≡ global_reservation_id)
        × (route (built global_reservation_id ero) ≡ asked_route ero)
  unfolding build_reserve
  build_reserve_lem none ero = (build_reserve-IsLink none ero, refl, route-build_reserve none ero)
  build_reserve_lem (some id) ero =
      (build_reserve-IsLink (some id) ero, refl, route-build_reserve (some id) ero)
