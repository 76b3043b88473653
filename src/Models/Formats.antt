-- ===== src/Models/Formats.antt =====
-- aggregator_proxy/models.py: the validators of STPs, global reservation ids, capacities and routes.
-- A part of a regular expression takes what it matches off a text. Each repetition is followed by a
-- character that it does not match, so taking as much as there is finds the match if there is one.
use Prim.Native.Char.{code}
use nsi_aggregator_proxy.Common.{
  ℕ, zero, suc, ◌+◌, String, Bool, true, false, ◌&&◌, ◌||◌, Option, none, some, List, [], ◌∷◌,
  length, is_empty, leb, eqb, if◌then◌else◌,
}
use nsi_aggregator_proxy.Models.{P2PsRequest}

-- Characters are compared by their codes, in the order of ASCII.
abbrev pub is_digit : ℕ → Bool
is_digit c = leb 48 c && leb c 57

abbrev pub is_letter : ℕ → Bool
is_letter c = leb 65 c && leb c 90 || leb 97 c && leb c 122

-- `[A-Za-z0-9.\-]` and `[A-Za-z0-9_.:\-]`
abbrev pub is_fqdn : ℕ → Bool
is_fqdn c = is_letter c || is_digit c || eqb c 46 || eqb c 45

abbrev pub is_opaque : ℕ → Bool
is_opaque c = is_fqdn c || eqb c 95 || eqb c 58

-- `re.IGNORECASE` on a lower-case letter: the capital, and for `i` also U+0130 and U+0131.
abbrev pub same_letter : ℕ → ℕ → Bool
same_letter p c =
    eqb p c || leb 65 c && leb c 90 && eqb p (c + 32) || eqb p 105 && (eqb c 304 || eqb c 305)

-- A hexadecimal digit in either case.
abbrev pub is_hex : ℕ → Bool
is_hex c = is_digit c || leb 97 c && leb c 102 || leb 65 c && leb c 70

-- What is left of a text after a part, if it matches.
abbrev pub Part : Type 0
Part = String → Option String

abbrev pub after : Option String → Part → Option String
after none q = none
after (some s) q = q s

-- One character of a class.
abbrev pub one : (ℕ → Bool) → Part
one test String.[] = none
one test (String.◌∷◌ c s) = if test (code c) then some s else none

-- As many as there are.
unfoldable pub many : (ℕ → Bool) → String → String
many test String.[] = String.[]
many test (String.◌∷◌ c s) =
    let rest = many test s in if test (code c) then rest else String.◌∷◌ c s

-- One or more.
abbrev pub several : (ℕ → Bool) → Part
several test s = after (one test s) (λ t. some (many test t))

-- Exactly so many.
unfoldable pub exactly : ℕ → (ℕ → Bool) → Part
exactly zero test s = some s
exactly (suc n) test s = after (one test s) (exactly n test)

-- A literal text, and one whose case is ignored.
unfoldable pub literal : String → Part
literal String.[] s = some s
literal (String.◌∷◌ p ps) s = after (one (eqb (code p)) s) (literal ps)

unfoldable pub literal_ignoring_case : String → Part
literal_ignoring_case String.[] s = some s
literal_ignoring_case (String.◌∷◌ p ps) s =
    after (one (same_letter (code p)) s) (literal_ignoring_case ps)

-- `(?:part)?`: the part, or nothing.
abbrev pub possibly : Part → String → Option String
possibly part s = some (elim (part s) [ none ↦ s | some t ↦ t ])

-- `$`: the end, or a newline at the end.
abbrev pub at_end : String → Bool
at_end String.[] = true
at_end (String.◌∷◌ c s) = eqb (code c) 10 && is_empty s

abbrev pub is_match : Option String → Bool
is_match none = false
is_match (some s) = at_end s

-- `_UUID_URN_RE`
unfoldable pub matches_uuid_urn : String → Bool
unfolding exactly literal literal_ignoring_case
matches_uuid_urn v = is_match (
    after
      (after
        (after
          (after
            (after
              (after
                (after
                  (after (after (literal_ignoring_case "urn:uuid:" v) (exactly 8 is_hex))
                    (literal "-"))
                  (exactly 4 is_hex))
                (literal "-"))
              (exactly 4 is_hex))
            (literal "-"))
          (exactly 4 is_hex))
        (literal "-"))
      (exactly 12 is_hex))

-- `[0-9]{4}(?:[0-9]{2}(?:[0-9]{2})?)?`
unfoldable pub date : Part
unfolding exactly
date s =
    after (exactly 4 is_digit s)
      (possibly (λ t. after (exactly 2 is_digit t) (possibly (exactly 2 is_digit))))

-- `[0-9]+(?:-[0-9]+)?`
abbrev pub vlans : Part
vlans s = after (several is_digit s) (possibly (λ t. after (literal "-" t) (several is_digit)))

abbrev text_length : String → ℕ
text_length String.[] = 0
text_length (String.◌∷◌ c s) = suc (text_length s)

-- `(?:,[0-9]+(?:-[0-9]+)?)*`, at most as many times as the first argument says: each takes a comma.
unfoldable pub more_vlans : ℕ → String → String
unfolding literal many
more_vlans zero s = s
more_vlans (suc n) s = elim (after (literal "," s) vlans) [ none ↦ s | some t ↦ more_vlans n t ]

-- `_VLAN_RANGE`
unfoldable pub vlan_range : Part
vlan_range s = after (vlans s) (λ t. some (more_vlans (text_length t) t))

-- `_STP_RE`
unfoldable pub matches_stp : String → Bool
unfolding literal many date vlan_range
matches_stp v = is_match (
    after
      (after
        (after
          (after
            (after (after (after (literal "urn:ogf:network:" v) (several is_fqdn)) (literal ":"))
              date)
            (literal ":"))
          (several is_opaque))
        (possibly (λ t. after (literal "?vlan=" t) vlan_range)))
      (possibly (λ t. after (literal "#" t) (several is_opaque))))

-- `_check_stp`, the validator of `Stp`: nothing where it raises.
unfoldable pub _check_stp : String → Option String
unfolding matches_stp
_check_stp v = if matches_stp v then some v else none

unfoldable pub validate_global_reservation_id : Option String → Option (Option String)
unfolding matches_uuid_urn
validate_global_reservation_id none = some none
validate_global_reservation_id (some v) = if matches_uuid_urn v then some (some v) else none

-- What `P2PSBase` asks of its fields: a positive capacity and two STPs.
unfoldable pub accepts_link : ℕ → String → String → Bool
unfolding matches_stp
accepts_link capacity source_stp dest_stp =
    leb 1 capacity && matches_stp source_stp && matches_stp dest_stp

-- What `P2PSRequest` asks of a parsed request: a positive capacity, STPs, and a route of STPs.
abbrev pub most_hops : ℕ
most_hops = 32

unfoldable pub all_stps : List String → Bool
all_stps [] = true
all_stps (x ∷ xs) = matches_stp x && all_stps xs

unfoldable pub accepts_route : Option (List String) → Bool
accepts_route none = true
accepts_route (some xs) = leb (length xs) most_hops && all_stps xs

unfoldable pub accepts_p2ps : P2PsRequest → Bool
accepts_p2ps q =
    leb 1 q.capacity && matches_stp q.source_stp && matches_stp q.dest_stp && accepts_route q.ero
