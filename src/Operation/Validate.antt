-- ===== src/Operation/Validate.antt =====
-- The checks and normal forms of internal/server/db/node_operations.go: capabilities, JSON
-- objects, timestamps, phases. Texts are bytes, and white space is ASCII.
use box_fleet.Base.{
  ℕ, Text, text, same, before, trim_space, Bool, true, false, ◌&&◌, ◌||◌, Option, none, some, List,
  [], ◌∷◌, leb, ltb, ◌==◌, if◌then◌else◌, length, ◌*◌,
}
pub use box_fleet.Base.{is_empty}
use box_fleet.Platform.{Platform}
use box_fleet.Database.{
  Status, running, succeeded, failed, cancelled, Kind, update_agent, update_sing_box, update_bundle,
  Reason, too_many_capabilities, capability_too_long, bad_capability,
}

-- nullableString
unfoldable pub nullable : Text → Option Text
nullable t = let v = trim_space t in if is_empty v then none else some v

unfoldable pub has_text : Text → List Text → Bool
has_text t [] = false
has_text t (x ∷ xs) = same x t || has_text t xs

-- The loop of normalizeCapabilities: `seen` is the map, the result is `out`.
unfoldable pub distinct_trimmed : List Text → List Text → List Text
distinct_trimmed seen [] = []
distinct_trimmed seen (v ∷ vs) =
    let t = trim_space v in
    let skipped = distinct_trimmed seen vs in
    let kept = t ∷ distinct_trimmed (t ∷ seen) vs in
    if is_empty t || has_text t seen then skipped else kept

unfoldable pub insert_text : Text → List Text → List Text
insert_text t [] = t ∷ []
insert_text t (x ∷ xs) = if before x t then x ∷ insert_text t xs else t ∷ x ∷ xs

-- sort.Strings
unfoldable pub sort_texts : List Text → List Text
sort_texts [] = []
sort_texts (x ∷ xs) = insert_text x (sort_texts xs)

unfoldable pub normalize_capabilities : List Text → List Text
unfolding distinct_trimmed sort_texts insert_text has_text
normalize_capabilities values = sort_texts (distinct_trimmed [] values)

unfoldable pub all_in : List Text → List Text → Bool
all_in set [] = true
all_in set (c ∷ cs) = has_text c set && all_in set cs

unfoldable pub has_capabilities : List Text → List Text → Bool
has_capabilities available required = all_in (normalize_capabilities available) required

-- a-z, 0-9, '.', '_' and '-'
abbrev is_capability_byte : ℕ → Bool
is_capability_byte c =
    (leb b'a' c && leb c b'z')
    || (leb b'0' c && leb c b'9')
    || (c == b'.')
    || (c == b'_')
    || (c == b'-')

all_bytes : (ℕ → Bool) → Text → Bool
all_bytes p [] = true
all_bytes p (c ∷ t) = p c && all_bytes p t

-- The capabilities one after another: the first fault is reported.
check_capabilities : List Text → Option Reason
unfolding all_bytes
check_capabilities [] = none
check_capabilities (c ∷ cs) =
    let rest = check_capabilities cs in
    if ltb 128 (length c)
    then some capability_too_long
    else if all_bytes is_capability_byte c
    then rest
    else some bad_capability

unfoldable pub validate_capabilities : List Text → Option Reason
unfolding check_capabilities
validate_capabilities cs =
    if ltb 128 (length cs) then some too_many_capabilities else check_capabilities cs

-- internal/model/node_payloads.go
abbrev operations_v1 : Text
operations_v1 = text "operations.v1"

abbrev agent_update_v1 : Text
agent_update_v1 = text "update.agent.v1"

abbrev sing_box_update_v1 : Text
sing_box_update_v1 = text "update.sing_box.v1"

abbrev streaming_download_v1 : Text
streaming_download_v1 = text "download.streaming.v1"

abbrev versioned_install_v1 : Text
versioned_install_v1 = text "install.versioned.v1"

abbrev agent_restart_resume_v1 : Text
agent_restart_resume_v1 = text "restart_resume.agent.v1"

abbrev sing_box_rollback_v1 : Text
sing_box_rollback_v1 = text "rollback.sing_box.v1"

unfoldable pub required_capabilities : Kind → List Text
required_capabilities update_agent =
    operations_v1 ∷ agent_update_v1 ∷ streaming_download_v1 ∷ versioned_install_v1
    ∷ agent_restart_resume_v1 ∷ []
required_capabilities update_sing_box =
    operations_v1 ∷ sing_box_update_v1 ∷ streaming_download_v1 ∷ versioned_install_v1
    ∷ sing_box_rollback_v1 ∷ []
required_capabilities update_bundle =
    operations_v1 ∷ agent_update_v1 ∷ sing_box_update_v1 ∷ streaming_download_v1
    ∷ versioned_install_v1 ∷ agent_restart_resume_v1 ∷ sing_box_rollback_v1 ∷ []
required_capabilities _ = operations_v1 ∷ []

-- normalizeJSONObject
unfoldable pub normalize_object : Platform → Text → Option Text
normalize_object p raw =
    if ltb (256 * 1024) (length raw)
    then none
    else if is_empty (trim_space raw)
    then some (text "{}")
    else p.canonical_object raw

-- The text and the instant of a timestamp that was read.
abbrev stamped : Platform → Option ℕ → Option (Text × Option ℕ)
stamped p none = none
stamped p (some t) = some (p.format_time t, some t)

-- normalizeOptionalTimestamp; none is the zero time.
unfoldable pub normalize_timestamp : Platform → Text → Option (Text × Option ℕ)
normalize_timestamp p value =
    if is_empty (trim_space value) then some ([], none) else stamped p (p.parse_time value)

-- Not both are set, or the first is before the second.
abbrev pub is_window : Option ℕ → Option ℕ → Bool
is_window none b = true
is_window (some a) none = true
is_window (some a) (some b) = ltb a b

-- validOperationEventStatus
unfoldable pub event_status : Text → Option Status
event_status s =
    if same s (text "running")
    then some running
    else if same s (text "succeeded")
    then some succeeded
    else if same s (text "failed")
    then some failed
    else if same s (text "cancelled")
    then some cancelled
    else none

abbrev is_lower : ℕ → Bool
is_lower c = leb b'a' c && leb c b'z'

abbrev is_digit : ℕ → Bool
is_digit c = leb b'0' c && leb c b'9'

-- A letter first, then letters, digits and underscores.
phase_bytes : Text → Bool
unfolding all_bytes
phase_bytes [] = false
phase_bytes (c ∷ t) = is_lower c && all_bytes (λ d. is_lower d || is_digit d || (d == b'_')) t

-- validOperationPhase
unfoldable pub valid_phase : Text → Bool
unfolding phase_bytes
valid_phase phase = let t = trim_space phase in leb (length t) 64 && phase_bytes t
