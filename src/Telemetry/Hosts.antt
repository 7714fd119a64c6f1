-- ===== src/Telemetry/Hosts.antt =====
-- Hosts, addresses and chains of internal/model/connection_telemetry.go.
use box_fleet.Base.{
  ℕ, ℤ, pos, negsuc, ◌*◌, ◌+◌, ◌-◌, Text, trim_space, trim_bytes, lower, last_is, drop_last,
  is_empty, Bool, true, false, not, ◌&&◌, ◌||◌, Option, none, some, List, [], ◌∷◌, ◌==◌, leb, ltb,
  suc, zero, if◌then◌else◌, length, join, ltb_int, is_negative,
}

abbrev pub is_bracket : ℕ → Bool
is_bracket c = (c == b'[') || (c == b']')

abbrev pub without_root_dot : Text → Text
without_root_dot host = if ltb 1 (length host) && last_is b'.' host then drop_last host else host

-- NormalizeConnectionHost
unfoldable pub normalize_connection_host : Text → Text
normalize_connection_host host = without_root_dot (trim_bytes is_bracket (lower (trim_space host)))

-- What stands before and after the last byte of a kind: strings.LastIndex and the two slices.
abbrev pub here_or_later : Bool → ℕ → Text → Option (Text × Text) → Option (Text × Text)
here_or_later b c t (some (x, y)) = some (c ∷ x, y)
here_or_later true c t none = some ([], t)
here_or_later false c t none = none

unfoldable pub cut_last : ℕ → Text → Option (Text × Text)
cut_last b [] = none
cut_last b (c ∷ t) = let rest = cut_last b t in here_or_later (c == b) c t rest

abbrev pub is_digit : ℕ → Bool
is_digit c = leb 48 c && leb c 57

-- The value of a run of digits, on top of what was read.
unfoldable pub digits_value : ℕ → Text → Option ℕ
digits_value n [] = some n
digits_value n (c ∷ t) =
    let rest = digits_value (10 * n + (c - 48)) t in if is_digit c then rest else none

abbrev pub signed_value : Bool → Option ℕ → Option ℤ
signed_value minus none = none
signed_value true (some zero) = some (pos 0)
signed_value true (some (suc n)) = if leb (suc n) 9223372036854775808 then some (negsuc n) else none
signed_value false (some n) = if ltb n 9223372036854775808 then some (pos n) else none

abbrev pub unsigned_value : Text → Option ℕ
unsigned_value [] = none
unsigned_value (c ∷ t) = digits_value 0 (c ∷ t)

-- strconv.ParseInt with base 10 and 64 bits.
unfoldable pub parse_int : Text → Option ℤ
parse_int [] = none
parse_int (c ∷ t) =
    if c == b'-'
    then signed_value true (unsigned_value t)
    else if c == b'+'
    then signed_value false (unsigned_value t)
    else signed_value false (unsigned_value (c ∷ t))

abbrev pub in_port_range : ℤ → Bool
in_port_range port = not (is_negative port) && not (ltb_int (pos 65535) port)

abbrev pub with_host : Text → ℤ → Option (Text × ℤ)
with_host host port = if is_empty host then none else some (host, port)

abbrev pub with_port : Text → Option ℤ → Option (Text × ℤ)
with_port host none = none
with_port host (some port) =
    if in_port_range port then with_host (normalize_connection_host host) port else none

abbrev pub address_parts : Option (Text × Text) → Option (Text × ℤ)
address_parts none = none
address_parts (some (host, port)) =
    if is_empty host || is_empty port then none else with_port host (parse_int port)

-- SplitConnectionAddress, none where `ok` is false.
unfoldable pub split_address : Text → Option (Text × ℤ)
split_address value = address_parts (cut_last b':' (trim_space value))

-- The hops that are kept, trimmed.
unfoldable pub chain_hops : List Text → List Text
chain_hops [] = []
chain_hops (hop ∷ chain) =
    let rest = chain_hops chain in if is_empty (trim_space hop) then rest else trim_space hop ∷ rest

-- ConnectionChainString
unfoldable pub chain_string : List Text → Text
chain_string chain = join b'>' (chain_hops chain)
