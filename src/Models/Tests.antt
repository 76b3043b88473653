-- ===== src/Models/Tests.antt =====
-- The formats of models.py at concrete texts.
use nsi_aggregator_proxy.Common.{◌≡◌, refl, true, false, none, some, []}
use nsi_aggregator_proxy.Models.{P2PsRequest}
use nsi_aggregator_proxy.Models.Formats.{
  many, exactly, literal, literal_ignoring_case, date, more_vlans, vlan_range, matches_stp,
  matches_uuid_urn, _check_stp, all_stps, accepts_route, accepts_p2ps,
}

abbrev plain_stp : P2PsRequest
plain_stp = record {
  capacity = 1000;
  source_stp = "urn:ogf:network:surf.nl:2020:prod:port-1?vlan=100,200-300#x";
  dest_stp = "urn:ogf:network:es.net:20130701:a_b";
  ero = some [];
}

plain_request : accepts_p2ps plain_stp ≡ true
unfolding many exactly literal date more_vlans vlan_range matches_stp all_stps accepts_route
    accepts_p2ps
plain_request = refl

no_capacity : accepts_p2ps (record plain_stp { capacity = 0 }) ≡ false
unfolding many exactly literal date more_vlans vlan_range matches_stp all_stps accepts_route
    accepts_p2ps
no_capacity = refl

-- A date of five digits, and a range without its end.
five_digits : _check_stp "urn:ogf:network:es.net:20201:a" ≡ none
unfolding many exactly literal date more_vlans vlan_range matches_stp _check_stp
five_digits = refl

open_range : _check_stp "urn:ogf:network:es.net:2020:a?vlan=1-" ≡ none
unfolding many exactly literal date more_vlans vlan_range matches_stp _check_stp
open_range = refl

-- `$` also stands before a newline that ends the text.
newline_at_end :
    _check_stp "urn:ogf:network:es.net:2020:a\n" ≡ some "urn:ogf:network:es.net:2020:a\n"
unfolding many exactly literal date more_vlans vlan_range matches_stp _check_stp
newline_at_end = refl

any_case : matches_uuid_urn "URN:uuid:0123abcd-0123-0123-0123-0123456789AB" ≡ true
unfolding exactly literal literal_ignoring_case matches_uuid_urn
any_case = refl

short_uuid : matches_uuid_urn "urn:uuid:0123abcd-0123-0123-0123-0123456789a" ≡ false
unfolding exactly literal literal_ignoring_case matches_uuid_urn
short_uuid = refl
