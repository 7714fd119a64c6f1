-- ===== src/Telemetry/Kept.antt =====
-- What holds of every accepted bucket holds of what the collector makes of those of a session.
use box_fleet.Base.{◌≡◌, is_empty, false, Option, none, some}
use box_fleet.Telemetry.{Bucket}
use box_fleet.Telemetry.Accepted.{IsAccepted}

-- An accepted bucket of a session.
pub record IsAcceptedSession (b : Bucket) : Type 0 where
  pub of_session : is_empty b.connection_id ≡ false
  pub accepted : IsAccepted b

abbrev pub HasAccepted : Option Bucket → Type 0
HasAccepted none = Unit
HasAccepted (some b) = IsAcceptedSession b
