-- ===== src/Telemetry.antt =====
-- Connection telemetry (internal/model/connection_telemetry.go): the snapshot of one session, its
-- normal form, the key it is stored under, and the merge of two snapshots.
mod Merge
mod Examples
mod Address
mod Key
mod Accepted
mod Collect
mod Kept
mod Hosts
unfoldable pub use box_fleet.Telemetry.Hosts.*
use box_fleet.Base.{
  ℕ, ℤ, pos, negsuc, ◌*◌, ◌+◌, ◌-◌, Text, text, before, trim_space, trim_bytes, lower, last_is,
  drop_last, is_empty, Bool, true, false, not, ◌&&◌, ◌||◌, Option, none, some, List, [], ◌∷◌, ◌==◌,
  leb, ltb, suc, zero, if◌then◌else◌, length, split, join, decimal, max_int, add64, ltb_int,
  is_negative, ◌++◌,
}

-- What the code calls of package time: Parse with RFC3339Nano, Format of the UTC time with
-- ConnectionInstantLayout, and Truncate to a number of nanoseconds.
pub record Instants : Type 0 where
  pub parse_instant : Text → Option ℕ
  pub format_instant : ℕ → Text
  pub truncate : ℕ → ℕ → ℕ

pub record Bucket : Type 0 where
  pub connection_id : Text
  pub started_at : Text
  pub bucket_start : Text
  pub auth_name : Text
  pub source_ip : Text
  pub target_host : Text
  pub target_port : ℤ
  pub domain : Text
  pub network : Text
  pub ip_version : ℤ
  pub protocol : Text
  pub inbound : Text
  pub inbound_type : Text
  pub rule : Text
  pub outbound : Text
  pub outbound_type : Text
  pub chain : List Text
  pub connections_opened : ℤ
  pub connections_closed : ℤ
  pub uplink_bytes : ℤ
  pub downlink_bytes : ℤ
  pub duration_ms_total : ℤ
  pub window_start : Text
  pub window_end : Text

abbrev pub formatted : Instants → Option ℕ → Text
formatted i none = []
formatted i (some t) = i.format_instant t

-- NormalizeConnectionInstant
unfoldable pub normalize_instant : Instants → Text → Text
normalize_instant i value = formatted i (i.parse_instant (trim_space value))

-- ConnectionBucketInterval, in nanoseconds.
abbrev pub bucket_interval : ℕ
bucket_interval = 300000000000

abbrev pub truncated : Instants → Option ℕ → Text
truncated i none = []
truncated i (some t) = i.format_instant (i.truncate bucket_interval t)

-- TruncateConnectionBucket
unfoldable pub truncate_bucket : Instants → Text → Text
truncate_bucket i value = truncated i (i.parse_instant (trim_space value))

abbrev pub known_version : ℤ → ℤ
known_version (pos n) = if (n == 4) || (n == 6) then pos n else pos 0
known_version (negsuc n) = pos 0

abbrev pub or_text : Text → Text → Text
or_text a b = if is_empty a then b else a

-- The hops as they are stored and split again.
abbrev pub stored_chain : List Text → List Text
stored_chain chain =
    let flattened = chain_string chain in if is_empty flattened then [] else split b'>' flattened

abbrev pub later_end : Text → Text → Text
later_end end start = if is_empty end || before end start then start else end

-- The fields after those of the session, once these are usable.
unfoldable pub normalize_rest : Instants → Text → Text → Text → Bucket → Bucket
normalize_rest i id started bucket b =
    let domain = normalize_connection_host b.domain in
    let start = or_text (normalize_instant i b.window_start) bucket in
    record {
      connection_id = id;
      started_at = started;
      bucket_start = bucket;
      auth_name = trim_space b.auth_name;
      source_ip = normalize_connection_host b.source_ip;
      target_host = or_text domain (normalize_connection_host b.target_host);
      target_port = b.target_port;
      domain = domain;
      network = lower (trim_space b.network);
      ip_version = known_version b.ip_version;
      protocol = lower (trim_space b.protocol);
      inbound = trim_space b.inbound;
      inbound_type = trim_space b.inbound_type;
      rule = trim_space b.rule;
      outbound = trim_space b.outbound;
      outbound_type = trim_space b.outbound_type;
      chain = stored_chain b.chain;
      connections_opened = b.connections_opened;
      connections_closed = b.connections_closed;
      uplink_bytes = b.uplink_bytes;
      downlink_bytes = b.downlink_bytes;
      duration_ms_total = b.duration_ms_total;
      window_start = start;
      window_end = later_end (normalize_instant i b.window_end) start;
    }

-- The tests after which Normalize reports a bucket as usable.
unfoldable pub is_usable : Bucket → Bool
is_usable b =
    not (is_empty b.bucket_start || is_empty b.target_host)
    && (in_port_range b.target_port
        && (not (is_negative b.connections_opened || is_negative b.connections_closed)
            && not (
                is_negative b.uplink_bytes
                || (is_negative b.downlink_bytes || is_negative b.duration_ms_total))))

-- Normalize: the bucket that is stored, none where `ok` is false and the bucket is dropped.
unfoldable pub normalize : Instants → Bucket → Option Bucket
normalize i b =
    let id = trim_space b.connection_id in
    let started = normalize_instant i b.started_at in
    let bucket = if is_empty id then truncate_bucket i b.bucket_start else started in
    let result = normalize_rest i id started bucket b in
    if not (is_empty id) && is_empty started
    then none
    else if is_usable result
    then some result
    else none

abbrev pub int_text : ℤ → Text
int_text (pos n) = decimal n
int_text (negsuc n) = b'-' ∷ decimal (suc n)

-- The parts of DimensionKey.
unfoldable pub key_parts : Bucket → List Text
key_parts b =
    if is_empty b.connection_id
    then b.bucket_start
      ∷ b.auth_name
      ∷ b.source_ip
      ∷ b.target_host
      ∷ int_text b.target_port
      ∷ b.domain
      ∷ b.network
      ∷ int_text b.ip_version
      ∷ b.protocol
      ∷ b.inbound
      ∷ b.inbound_type
      ∷ b.rule
      ∷ b.outbound
      ∷ b.outbound_type
      ∷ chain_string b.chain
      ∷ []
    else text "session" ∷ b.connection_id ∷ b.started_at ∷ []

-- DimensionKey
unfoldable pub dimension_key : Bucket → Text
dimension_key b = join 0 (key_parts b)

abbrev pub merge_measure : Bool → ℤ → ℤ → ℤ
merge_measure session a b = if session then max_int a b else add64 a b

abbrev pub merge_start : Text → Text → Text
merge_start a b = if not (is_empty b) && (is_empty a || before b a) then b else a

abbrev pub merge_end : Text → Text → Text
merge_end a b = if before a b then b else a

-- Merge
unfoldable pub merge : Bucket → Bucket → Bucket
merge b other =
    let session = not (is_empty b.connection_id) in
    record {
      connection_id = b.connection_id;
      started_at = b.started_at;
      bucket_start = b.bucket_start;
      auth_name = b.auth_name;
      source_ip = b.source_ip;
      target_host = b.target_host;
      target_port = b.target_port;
      domain = b.domain;
      network = b.network;
      ip_version = b.ip_version;
      protocol = b.protocol;
      inbound = b.inbound;
      inbound_type = b.inbound_type;
      rule = b.rule;
      outbound = b.outbound;
      outbound_type = b.outbound_type;
      chain = b.chain;
      connections_opened = merge_measure session b.connections_opened other.connections_opened;
      connections_closed = merge_measure session b.connections_closed other.connections_closed;
      uplink_bytes = merge_measure session b.uplink_bytes other.uplink_bytes;
      downlink_bytes = merge_measure session b.downlink_bytes other.downlink_bytes;
      duration_ms_total = merge_measure session b.duration_ms_total other.duration_ms_total;
      window_start = merge_start b.window_start other.window_start;
      window_end = merge_end b.window_end other.window_end;
    }

-- The snapshots of a key merged one after the other.
unfoldable pub merge_all : Bucket → List Bucket → Bucket
merge_all b [] = b
merge_all b (x ∷ xs) = merge_all (merge b x) xs

-- What the collector does with a snapshot (the end of record in internal/agent/connections.go): the
-- bucket that it has for the snapshot's key before and after. Without one, the snapshot is stored
-- whole if the map has room, and dropped otherwise.
unfoldable pub add_bucket : Bool → Option Bucket → Bucket → Option Bucket
add_bucket room none x = if room then some x else none
add_bucket room (some b) x = some (merge b x)

-- The snapshots of one key, one after the other.
unfoldable pub collect : Bool → Option Bucket → List Bucket → Option Bucket
unfolding add_bucket
collect room o [] = o
collect room o (x ∷ xs) = collect room (add_bucket room o x) xs
