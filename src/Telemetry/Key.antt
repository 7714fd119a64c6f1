-- ===== src/Telemetry/Key.antt =====
-- The key of a bucket tells its parts apart.
use box_fleet.Base.{
  ℕ, zero, suc, ℤ, pos, negsuc, arith, false, length, decimal, lacks-decimal, ◌⊎◌, refl, ◌≡◌, sym,
  ap, ◌∙◌, Text, lacks, split, join, split-append, split-lacks, List, [], ◌∷◌, All, true, is_empty,
  Bool-cases, inl, inr,
}
use box_fleet.Telemetry.Address.{digits_value-decimal}
use box_fleet.Telemetry.{Bucket, int_text, chain_string, digits_value, key_parts, dimension_key}

abbrev pub AllLack : ℕ → List Text → Type 0
AllLack b = All (λ t. lacks b t ≡ true)

split-join :
    (b : ℕ) (p : Text) (ps : List Text) → AllLack b (p ∷ ps) → split b (join b (p ∷ ps)) ≡ p ∷ ps
unfolding join
split-join b p [] a = split-lacks b p a.0
split-join b p (q ∷ ps) a =
    split-append b p (join b (q ∷ ps)) a.0 ∙ ap (λ ts. p ∷ ts) (split-join b q ps a.1)

abbrev IsSome : List Text → Type 0
IsSome [] = ⊥
IsSome (p ∷ ps) = Unit

split-join_parts : (b : ℕ) (ps : List Text) → IsSome ps → AllLack b ps → split b (join b ps) ≡ ps
split-join_parts b [] i a = elim i [ ]
split-join_parts b (p ∷ ps) i a = split-join b p ps a

key_parts-IsSome : (b : Bucket) → IsSome (key_parts b)
unfolding key_parts
key_parts-IsSome b = elim (Bool-cases (is_empty b.connection_id)) [
  | inl hit ↦ rw hit tt
  | inr miss ↦ rw miss tt
]

-- No text of the bucket has a NUL byte in it.
pub record HasNoNul (b : Bucket) : Type 0 where
  pub connection_id : lacks 0 b.connection_id ≡ true
  pub started_at : lacks 0 b.started_at ≡ true
  pub bucket_start : lacks 0 b.bucket_start ≡ true
  pub auth_name : lacks 0 b.auth_name ≡ true
  pub source_ip : lacks 0 b.source_ip ≡ true
  pub target_host : lacks 0 b.target_host ≡ true
  pub domain : lacks 0 b.domain ≡ true
  pub network : lacks 0 b.network ≡ true
  pub protocol : lacks 0 b.protocol ≡ true
  pub inbound : lacks 0 b.inbound ≡ true
  pub inbound_type : lacks 0 b.inbound_type ≡ true
  pub rule : lacks 0 b.rule ≡ true
  pub outbound : lacks 0 b.outbound ≡ true
  pub outbound_type : lacks 0 b.outbound_type ≡ true
  pub chain : lacks 0 (chain_string b.chain) ≡ true

int_text-lacks : (z : ℤ) → lacks 0 (int_text z) ≡ true
unfolding lacks
int_text-lacks (pos n) = lacks-decimal 0 n refl
int_text-lacks (negsuc n) = lacks-decimal 0 (suc n) refl

key_parts-AllLack : (b : Bucket) → HasNoNul b → AllLack 0 (key_parts b)
unfolding key_parts lacks
key_parts-AllLack b v = elim (Bool-cases (is_empty b.connection_id)) [
  | inl legacy ↦ rw legacy (
      (
        v.bucket_start,
        (
          v.auth_name,
          (
            v.source_ip,
            (
              v.target_host,
              (
                int_text-lacks b.target_port,
                (
                  v.domain,
                  (
                    v.network,
                    (
                      int_text-lacks b.ip_version,
                      (
                        v.protocol,
                        (
                          v.inbound,
                          (
                            v.inbound_type,
                            (v.rule, (v.outbound, (v.outbound_type, (v.chain, tt)))),
                          ),
                        ),
                      ),
                    ),
                  ),
                ),
              ),
            ),
          ),
        ),
      ))
  | inr session ↦ rw session (refl, (v.connection_id, (v.started_at, tt)))
]

decimal_injective : (m n : ℕ) → decimal m ≡ decimal n → m ≡ n
decimal_injective m n e =
    let read = ap (digits_value 0) e in
    ground (arith, digits_value-decimal m, digits_value-decimal n)

abbrev rest_of : Text → Text
rest_of [] = []
rest_of (c ∷ t) = t

int_text_injective : (a b : ℤ) → int_text a ≡ int_text b → a ≡ b
unfolding lacks
int_text_injective (pos m) (pos n) e = ap pos (decimal_injective m n e)
int_text_injective (pos m) (negsuc n) e =
    let no_sign = lacks-decimal b'-' m refl in let sign = ap (lacks b'-') e in ground arith
int_text_injective (negsuc m) (pos n) e =
    let no_sign = lacks-decimal b'-' n refl in let sign = ap (lacks b'-') e in ground arith
int_text_injective (negsuc m) (negsuc n) e =
    let same_number = decimal_injective (suc m) (suc n) (ap rest_of e) in
    let same_rest : m ≡ n = omega arith in ap negsuc same_rest

abbrev nth : ℕ → List Text → Text
nth n [] = []
nth zero (t ∷ ts) = t
nth (suc n) (t ∷ ts) = nth n ts

-- The dimensions of a bucket that is not of a session; the chain as the hops that are stored.
pub record HasSameDimensions (b c : Bucket) : Type 0 where
  pub bucket_start : b.bucket_start ≡ c.bucket_start
  pub auth_name : b.auth_name ≡ c.auth_name
  pub source_ip : b.source_ip ≡ c.source_ip
  pub target_host : b.target_host ≡ c.target_host
  pub target_port : b.target_port ≡ c.target_port
  pub domain : b.domain ≡ c.domain
  pub network : b.network ≡ c.network
  pub ip_version : b.ip_version ≡ c.ip_version
  pub protocol : b.protocol ≡ c.protocol
  pub inbound : b.inbound ≡ c.inbound
  pub inbound_type : b.inbound_type ≡ c.inbound_type
  pub rule : b.rule ≡ c.rule
  pub outbound : b.outbound ≡ c.outbound
  pub outbound_type : b.outbound_type ≡ c.outbound_type
  pub chain : chain_string b.chain ≡ chain_string c.chain

abbrev pub IsSameKey : Bucket → Bucket → Type 0
IsSameKey b c =
    ((is_empty b.connection_id ≡ false)
      × (b.connection_id ≡ c.connection_id)
      × (b.started_at ≡ c.started_at))
    ⊎ ((is_empty b.connection_id ≡ true)
        × (is_empty c.connection_id ≡ true)
        × HasSameDimensions b c)

key_parts-IsSameKey : (b c : Bucket) → key_parts b ≡ key_parts c → IsSameKey b c
unfolding key_parts
key_parts-IsSameKey b c e = elim (Bool-cases (is_empty b.connection_id)) [
  | inl legacy ↦ elim (Bool-cases (is_empty c.connection_id)) [
    | inl other_legacy ↦
        let parts = rw (legacy, other_legacy) at e in
        inr (
          legacy,
          other_legacy,
          record {
            bucket_start = ap (nth 0) parts;
            auth_name = ap (nth 1) parts;
            source_ip = ap (nth 2) parts;
            target_host = ap (nth 3) parts;
            target_port = int_text_injective b.target_port c.target_port (ap (nth 4) parts);
            domain = ap (nth 5) parts;
            network = ap (nth 6) parts;
            ip_version = int_text_injective b.ip_version c.ip_version (ap (nth 7) parts);
            protocol = ap (nth 8) parts;
            inbound = ap (nth 9) parts;
            inbound_type = ap (nth 10) parts;
            rule = ap (nth 11) parts;
            outbound = ap (nth 12) parts;
            outbound_type = ap (nth 13) parts;
            chain = ap (nth 14) parts;
          },
        )
    | inr session ↦
        let parts = rw (legacy, session) at e in
        let lengths = ap (λ (ts : List Text). length ts) parts in ground arith
  ]
  | inr session ↦ elim (Bool-cases (is_empty c.connection_id)) [
    | inl legacy ↦
        let parts = rw (session, legacy) at e in
        let lengths = ap (λ (ts : List Text). length ts) parts in ground arith
    | inr other_session ↦
        let parts = rw (session, other_session) at e in
        inl (session, ap (nth 1) parts, ap (nth 2) parts)
  ]
]

-- Two buckets without NUL bytes that have one dimension key are of one session, with one identifier
-- and one start, or are both of no session and have the same dimensions, each of them, the chain as
-- the hops that are stored.
pub dimension_key-IsSameKey :
    (b c : Bucket) → HasNoNul b → HasNoNul c → dimension_key b ≡ dimension_key c → IsSameKey b c
unfolding dimension_key
dimension_key-IsSameKey b c bs cs e =
    let left = split-join_parts 0 (key_parts b) (key_parts-IsSome b) (key_parts-AllLack b bs) in
    let right = split-join_parts 0 (key_parts c) (key_parts-IsSome c) (key_parts-AllLack c cs) in
    key_parts-IsSameKey b c (sym left ∙ (ap (λ t. split 0 t) e ∙ right))
