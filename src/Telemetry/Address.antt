-- ===== src/Telemetry/Address.antt =====
-- Printing an address and splitting it again: SplitConnectionAddress.
use box_fleet.Base.{
  ℕ, pos, zero, suc, ◌+◌, ◌*◌, ◌-◌, ◌/◌, ◌%◌, ◌≤◌, ◌<◌, ◌≡◌, refl, Text, true, false, none, some,
  [], ◌∷◌, ◌++◌, lacks, lacks-decimal, digits, decimal, is_empty, arith, trim_space, Bool-cases,
  inl, inr, ◌==◌,
}
use box_fleet.Telemetry.{
  cut_last, digits_value, is_digit, parse_int, signed_value, unsigned_value, split_address,
  normalize_connection_host,
}

cut_last-lacks : (b : ℕ) (t : Text) → lacks b t ≡ true → cut_last b t ≡ none
unfolding cut_last lacks
cut_last-lacks b [] h = refl
cut_last-lacks b (c ∷ t) h = ground (arith, cut_last-lacks b t)

cut_last-append : (b : ℕ) (x t : Text) → lacks b t ≡ true → cut_last b (x ++ (b ∷ t)) ≡ some (x, t)
unfolding cut_last
cut_last-append b [] t h = ground (arith, cut_last-lacks b t h)
cut_last-append b (c ∷ x) t h = ground (arith, cut_last-append b x t h)

digits_value-append :
    (n m d : ℕ) (t : Text)
    → digits_value n t ≡ some m
    → is_digit d ≡ true
    → digits_value n (t ++ (d ∷ [])) ≡ some (10 * m + (d - 48))
unfolding digits_value
digits_value-append n m d [] h k = ground arith
digits_value-append n m d (c ∷ t) h k =
    ground (arith, digits_value-append (10 * n + (c - 48)) m d t)

digits_value-digits : (fuel n : ℕ) → n ≤ fuel → digits_value 0 (digits fuel n) ≡ some n
unfolding digits digits_value
digits_value-digits zero n h = ground arith
digits_value-digits (suc fuel) n h = elim (Bool-cases (n == 0)) [
  | inl no_digit ↦ ground arith
  | inr some_digit ↦
      let rest = digits_value-digits fuel (n / 10) (ground arith) in
      let last =
        digits_value-append 0 (n / 10) (48 + n % 10) (digits fuel (n / 10)) rest (ground arith) in
      ground (arith, last)
]

filled_end : (t : Text) (d : ℕ) → is_empty (t ++ (d ∷ [])) ≡ false
filled_end [] d = refl
filled_end (c ∷ t) d = refl

decimal-filled : (n : ℕ) → is_empty (decimal n) ≡ false
unfolding decimal digits
decimal-filled zero = refl
decimal-filled (suc n) = ground (arith, filled_end (digits n (suc n / 10)) (48 + suc n % 10))

unsigned_value-filled : (t : Text) → is_empty t ≡ false → unsigned_value t ≡ digits_value 0 t
unsigned_value-filled [] h = cc
unsigned_value-filled (c ∷ t) h = refl

parse_int-unsigned :
    (t : Text)
    → lacks b'-' t ≡ true
    → lacks b'+' t ≡ true
    → parse_int t ≡ signed_value false (unsigned_value t)
unfolding parse_int lacks
parse_int-unsigned [] h k = refl
parse_int-unsigned (c ∷ t) h k = ground arith

pub digits_value-decimal : (n : ℕ) → digits_value 0 (decimal n) ≡ some n
unfolding decimal digits_value
digits_value-decimal n = ground (arith, digits_value-digits n n)

parse_int-decimal : (n : ℕ) → n < 9223372036854775808 → parse_int (decimal n) ≡ some (pos n)
parse_int-decimal n h =
    rw
      (
        parse_int-unsigned (decimal n) (lacks-decimal b'-' n refl) (lacks-decimal b'+' n refl),
        unsigned_value-filled (decimal n) (decimal-filled n),
        digits_value-decimal n,
      )
      (ground arith)

-- The address that a host and a port are printed as.
abbrev pub address : Text → ℕ → Text
address host port = host ++ (b':' ∷ decimal port)

-- An address of a host, colons in it or not, and a port up to 65535 is split into that host in its
-- normal form and that port, if the host and its normal form are not empty and no white space
-- surrounds the address.
pub split_address-address :
    (host : Text) (port : ℕ)
    → port ≤ 65535
    → is_empty host ≡ false
    → is_empty (normalize_connection_host host) ≡ false
    → trim_space (address host port) ≡ address host port
    → split_address (address host port) ≡ some (normalize_connection_host host, pos port)
unfolding split_address
split_address-address host port small filled named bare =
    rw
      (
        bare,
        cut_last-append b':' host (decimal port) (lacks-decimal b':' port refl),
        filled,
        decimal-filled port,
        parse_int-decimal port (ground arith),
      )
      (ground arith)
