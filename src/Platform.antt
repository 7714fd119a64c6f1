-- ===== src/Platform.antt =====
-- What the server takes from outside the repository's own logic: encoding/json, crypto/sha256 and
-- the time formats of package time and of SQLite. The texts of a time are what the database
-- stores and compares.
use box_fleet.Base.{ℕ, Text, Bool, Option, List}
use box_fleet.Database.{Kind}

pub record Platform : Type 0 where
  pub sha256_hex : Text → Text
  -- json.Unmarshal into a map[string]any and json.Marshal of it; none for what is no object.
  pub canonical_object : Text → Option Text
  pub encode_list : List Text → Text
  pub decode_list : Text → Option (List Text)
  pub json_valid : Text → Bool
  -- json.Marshal of a campaign's release, components, batch size and members (node, position, batch,
  -- kind, payload).
  pub encode_spec : Text → List Text → ℕ → List (Text × ℕ × ℕ × Kind × Text) → Text
  -- time.Parse(time.RFC3339Nano, _), as an instant.
  pub parse_time : Text → Option ℕ
  -- Format(time.RFC3339Nano) in UTC.
  pub format_time : ℕ → Text
  -- strftime('%Y-%m-%dT%H:%M:%fZ', _).
  pub sql_time : ℕ → Text
