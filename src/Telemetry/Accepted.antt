-- ===== src/Telemetry/Accepted.antt =====
-- What holds of a bucket that Normalize accepts.
use box_fleet.Base.{
  ℕ, ◌≤◌, lower, ℤ, pos, negsuc, ◌≡◌, ◌⊎◌, refl, sym, Text, before_irrefl, upto, is_empty, true,
  false, not, ◌&&◌, some, [], ◌∷◌, arith, if◌then◌else◌, is_negative, ◌==◌, Bool-cases, inl, inr,
  trim_space,
}
use box_fleet.Telemetry.{
  Bucket, Instants, normalize, normalize_rest, is_usable, in_port_range, normalize_instant,
  truncate_bucket, known_version, or_text, later_end, normalize_connection_host,
}

abbrev pub IsNatural : ℤ → Type 0
IsNatural z = (n : ℕ) × (z ≡ pos n)

abbrev pub IsPort : ℤ → Type 0
IsPort z = (p : ℕ) × (z ≡ pos p) × (p ≤ 65535)

pub record IsAccepted (b : Bucket) : Type 0 where
  pub placed : is_empty b.bucket_start ≡ false
  pub hosted : is_empty b.target_host ≡ false
  pub port : IsPort b.target_port
  pub opened : IsNatural b.connections_opened
  pub closed : IsNatural b.connections_closed
  pub uplink : IsNatural b.uplink_bytes
  pub downlink : IsNatural b.downlink_bytes
  pub duration : IsNatural b.duration_ms_total
  -- The window is not empty, and does not end before it starts.
  pub window : is_empty b.window_start ≡ false
  pub ordered : upto b.window_start b.window_end ≡ true
  pub version : (b.ip_version ≡ pos 0) ⊎ ((b.ip_version ≡ pos 4) ⊎ (b.ip_version ≡ pos 6))
  -- No upper-case letters are left in these.
  pub network : lower b.network ≡ b.network
  pub protocol : lower b.protocol ≡ b.protocol
  -- The sniffed name is the target.
  pub sniffed : is_empty b.domain ≡ false → b.target_host ≡ b.domain
  -- A session is placed at its start.
  pub session : is_empty b.connection_id ≡ false → b.bucket_start ≡ b.started_at

in_port_range-IsPort : (z : ℤ) → in_port_range z ≡ true → IsPort z
in_port_range-IsPort (pos p) h = (p, refl, ground arith)
in_port_range-IsPort (negsuc p) h = ground arith

is_negative-IsNatural : (z : ℤ) → is_negative z ≡ false → IsNatural z
is_negative-IsNatural (pos n) h = (n, refl)
is_negative-IsNatural (negsuc n) h = ground arith

lower_again : (t : Text) → lower (lower t) ≡ lower t
unfolding lower
lower_again [] = refl
lower_again (c ∷ t) = ground (arith, lower_again t)

known_version-cases :
    (v : ℤ) → (known_version v ≡ pos 0) ⊎ ((known_version v ≡ pos 4) ⊎ (known_version v ≡ pos 6))
known_version-cases (pos n) = elim (Bool-cases (n == 4)) [
  | inl four ↦ let same_number : n ≡ 4 = ground arith in rw same_number (inr (inl refl))
  | inr other ↦ elim (Bool-cases (n == 6)) [
    | inl six ↦ let same_number : n ≡ 6 = ground arith in rw same_number (inr (inr refl))
    | inr neither ↦ rw (other, neither) (inl refl)
  ]
]
known_version-cases (negsuc n) = inl refl

later_end-ordered : (end start : Text) → upto start (later_end end start) ≡ true
later_end-ordered end start = ground (arith, before_irrefl start)

or_text-filled : (a b : Text) → is_empty b ≡ false → is_empty (or_text a b) ≡ false
or_text-filled [] b h = h
or_text-filled (c ∷ a) b h = refl

or_text-first : (a b : Text) → is_empty a ≡ false → or_text a b ≡ a
or_text-first [] b h = cc
or_text-first (c ∷ a) b h = refl

rest-IsAccepted :
    (i : Instants) (id started bucket : Text) (b : Bucket)
    → (is_empty id ≡ false → bucket ≡ started)
    → is_usable (normalize_rest i id started bucket b) ≡ true
    → IsAccepted (normalize_rest i id started bucket b)
unfolding normalize_rest is_usable
rest-IsAccepted i id started bucket b at_start h =
    let domain = normalize_connection_host b.domain in
    let start = or_text (normalize_instant i b.window_start) bucket in
    let placed : is_empty bucket ≡ false = ground arith in
    record {
      placed = placed;
      hosted = ground arith;
      port = in_port_range-IsPort b.target_port (ground arith);
      opened = is_negative-IsNatural b.connections_opened (ground arith);
      closed = is_negative-IsNatural b.connections_closed (ground arith);
      uplink = is_negative-IsNatural b.uplink_bytes (ground arith);
      downlink = is_negative-IsNatural b.downlink_bytes (ground arith);
      duration = is_negative-IsNatural b.duration_ms_total (ground arith);
      window = or_text-filled (normalize_instant i b.window_start) bucket placed;
      ordered = later_end-ordered (normalize_instant i b.window_end) start;
      version = known_version-cases b.ip_version;
      network = lower_again (trim_space b.network);
      protocol = lower_again (trim_space b.protocol);
      sniffed =
          λ some_domain. or_text-first domain (normalize_connection_host b.target_host) some_domain;
      session = at_start;
    }

-- A bucket that Normalize accepts has a place on the time axis, a target, a port from 0 to 65535, natural
-- measures, a window that does not end before it starts, a known address family or none, and a network
-- and a protocol without upper-case letters; a domain is its target, and a session stands at its start.
pub normalize-IsAccepted : (i : Instants) (b r : Bucket) → normalize i b ≡ some r → IsAccepted r
unfolding normalize
normalize-IsAccepted i b r e =
    let id = trim_space b.connection_id in
    let started = normalize_instant i b.started_at in
    let bucket = if is_empty id then truncate_bucket i b.bucket_start else started in
    let result = normalize_rest i id started bucket b in
    elim (Bool-cases (not (is_empty id) && is_empty started)) [
      | inl no_start ↦ ground arith
      | inr placed ↦ elim (Bool-cases (is_usable result)) [
        | inl usable ↦
            let same_bucket : result ≡ r = ground arith in
            rw (sym same_bucket)
              (rest-IsAccepted i id started bucket b (λ session. rw session refl) usable)
        | inr dropped ↦ ground arith
      ]
    ]
