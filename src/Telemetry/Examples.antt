-- ===== src/Telemetry/Examples.antt =====
-- The telemetry theorems at concrete buckets, and tests of the normal forms.
use box_fleet.Base.{
  ℤ, pos, true, ◌≡◌, refl, inl, inr, Text, text, none, some, [], ◌∷◌, is_empty, lower, drop_bytes,
  trim_right, trim_space, drop_last, before, join, lacks, decimal, digits, arith, if◌then◌else◌,
}
use box_fleet.Telemetry.{
  Bucket, Instants, normalize, normalize_rest, is_usable, normalize_connection_host, split_address,
  cut_last, chain_string, chain_hops, normalize_instant, collect,
}
use box_fleet.Telemetry.Merge.{IsOneOf}
use box_fleet.Telemetry.Collect.{collect-same, IsSnapshotOf, with_measures}
use box_fleet.Telemetry.Key.{HasNoNul, IsSameKey, dimension_key-IsSameKey}
use box_fleet.Telemetry.Accepted.{normalize-IsAccepted, IsAccepted}
use box_fleet.Telemetry.Address.{split_address-address, address}

-- A package time that knows one instant.
abbrev one_instant : Instants
one_instant = record {
  parse_instant = λ t. if is_empty t then none else some 7;
  format_instant = λ t. text "t7";
  truncate = λ d t. t;
}

abbrev snapshot : Text → ℤ → Bucket
snapshot end bytes = record {
  connection_id = text "c1";
  started_at = text "t7";
  bucket_start = text "t7";
  auth_name = text "al";
  source_ip = [];
  target_host = text "a";
  target_port = pos 443;
  domain = [];
  network = text "tcp";
  ip_version = pos 4;
  protocol = [];
  inbound = [];
  inbound_type = [];
  rule = [];
  outbound = [];
  outbound_type = [];
  chain = [];
  connections_opened = pos 1;
  connections_closed = pos 0;
  uplink_bytes = bytes;
  downlink_bytes = bytes;
  duration_ms_total = pos 0;
  window_start = text "t7";
  window_end = end;
}

abbrev first : Bucket
first = snapshot (text "t7") (pos 1)

abbrev second : Bucket
second = snapshot (text "t8") (pos 5)

collect-same_example :
    collect true none (second ∷ first ∷ second ∷ []) ≡ collect true none (first ∷ second ∷ [])
collect-same_example =
    collect-same first none (second ∷ first ∷ second ∷ []) (first ∷ second ∷ []) refl tt
      (of_first second refl, (of_first first refl, (of_first second refl, tt)))
      (of_first first refl, (of_first second refl, tt)) swapped back
  where
    of_first : (x : Bucket) → x ≡ with_measures first x → IsSnapshotOf first x
    of_first x e = record { same_session = e }

    swapped :
        (x : Bucket) → IsOneOf x (second ∷ first ∷ second ∷ []) → IsOneOf x (first ∷ second ∷ [])
    swapped x (inl e) = inr (inl e)
    swapped x (inr (inl e)) = inl e
    swapped x (inr (inr (inl e))) = inr (inl e)
    swapped x (inr (inr (inr e))) = elim e [ ]

    back : (x : Bucket) → IsOneOf x (first ∷ second ∷ []) → IsOneOf x (second ∷ first ∷ second ∷ [])
    back x (inl e) = inr (inl e)
    back x (inr (inl e)) = inl e
    back x (inr (inr e)) = elim e [ ]

-- A bucket of no session.
abbrev summed : Bucket
summed = record first { connection_id = [] }

summed-HasNoNul : HasNoNul summed
unfolding lacks chain_string chain_hops join
summed-HasNoNul = record {
  connection_id = refl;
  started_at = refl;
  bucket_start = refl;
  auth_name = refl;
  source_ip = refl;
  target_host = refl;
  domain = refl;
  network = refl;
  protocol = refl;
  inbound = refl;
  inbound_type = refl;
  rule = refl;
  outbound = refl;
  outbound_type = refl;
  chain = refl;
}

dimension_key-IsSameKey_example : IsSameKey summed summed
dimension_key-IsSameKey_example =
    dimension_key-IsSameKey summed summed summed-HasNoNul summed-HasNoNul refl

normalize-IsAccepted_example : IsAccepted first
unfolding normalize normalize_rest is_usable normalize_instant normalize_connection_host trim_space
    drop_bytes trim_right lower chain_string chain_hops join before drop_last
normalize-IsAccepted_example = normalize-IsAccepted one_instant first first refl

split_address-address_example :
    split_address (address (text "[::1]") 443) ≡ some (text "::1", pos 443)
unfolding normalize_connection_host trim_space drop_bytes trim_right lower decimal digits
split_address-address_example =
    split_address-address (text "[::1]") 443 (omega arith) refl refl refl

test_no_port : split_address (text "host:") ≡ none
unfolding split_address cut_last trim_space
test_no_port = refl

-- A second normalisation changes a host once more.
test_two_dots : normalize_connection_host (text "a..") ≡ text "a."
unfolding normalize_connection_host trim_space drop_bytes trim_right lower drop_last
test_two_dots = refl

test_two_dots_again : normalize_connection_host (text "a.") ≡ text "a"
unfolding normalize_connection_host trim_space drop_bytes trim_right lower drop_last
test_two_dots_again = refl
