-- ===== src/Users/Sessions.antt =====
-- internal/users/session.go: session tokens.
-- `sign` is the hexadecimal HMAC-SHA-256 of a text under the process's key; it is a parameter. An
-- instant is a number of nanoseconds since 1970. The comparison in constant time answers what `==`
-- does.
pub mod Trip
use Prim.Native.String.{◌++◌}
use Prim.Native.Nat.{◌/◌}
use secure_dev.Prelude.{
  ℕ, ℤ, pos, negsuc, ◌+◌, ◌*◌, String, Bool, true, false, ◌&&◌, Option, none, some, ◌==◌, leb, ltb,
  if◌then◌else◌,
}
use secure_dev.Prelude.Text.{trim_space, itoa, strip}
use secure_dev.Prelude.Text.Cut.{cut_first, cut_last}
use secure_dev.Prelude.Text.Decimal.{parse_int}

abbrev pub second : ℕ
second = 1000000000

-- Eight hours.
abbrev pub session_ttl : ℕ
session_ttl = 28800000000000

abbrev pub session_prefix : String
session_prefix = "usr_"

pub data Session : Type 0 where
  of_user : String → Session
  invalid : Session
  expired : Session

-- The last second since 1970 that time.Unix takes as it is. It counts from the year 1 in 64 bits, so a
-- later one wraps to an instant before all others.
abbrev pub max_unix : ℕ
max_unix = 9223371974719179007

-- `now.Before(time.Unix(expiry, 0))`, for an instant since 1970
unfoldable pub still_before : ℕ → ℤ → Bool
still_before now (pos expiry) = leb expiry max_unix && ltb now (expiry * second)
still_before now (negsuc expiry) = false

-- The expiry, behind the user's id.
abbrev pub check_expiry : ℕ → String → Option ℤ → Session
check_expiry now user_id none = invalid
check_expiry now user_id (some expiry) =
    if still_before now expiry then of_user user_id else expired

abbrev pub check_payload : ℕ → Option (String × String) → Session
check_payload now none = invalid
check_payload now (some (user_id, expiry_text)) =
    if trim_space user_id == "" then invalid else check_expiry now user_id (parse_int expiry_text)

module _ (sign : String → String) where
  unfoldable pub issue : String → ℕ → String
  unfolding itoa
  issue user_id now =
      let payload = user_id ++ "." ++ itoa ((now + session_ttl) / second) in
      session_prefix ++ payload ++ "." ++ sign payload

  unfoldable pub signed : String → String → Bool
  signed payload signature = sign payload == signature

  abbrev pub check_signature : ℕ → Option (String × String) → Session
  check_signature now none = invalid
  check_signature now (some (payload, signature)) =
      if signed payload signature then check_payload now (cut_first 46 payload) else invalid

  abbrev pub check_rest : ℕ → Option String → Session
  check_rest now none = invalid
  check_rest now (some rest) = check_signature now (cut_last 46 rest)

  unfoldable pub verify : String → ℕ → Session
  unfolding strip signed cut_first cut_last parse_int trim_space still_before
  verify token now = check_rest now (strip session_prefix token)
