-- ===== src/Examples/Projecting.antt =====
-- Runs of the theorems on projects and on sessions.
use secure_dev.Prelude.{◌≡◌, ◌≤◌, refl, true, String, arith}
use secure_dev.Prelude.Text.{trim_space, to_lower, has_code}
use secure_dev.Prelude.Text.Bytes.{byte_length, char_bytes}
use secure_dev.Projects.{development, Environment, Criticality}
use secure_dev.Projects.Slug.{slugify, max_slug_length}
use secure_dev.Projects.Slug.Shape.{IsEmptyOrSlug, slugify-IsEmptyOrSlug}
use secure_dev.Projects.Create.{NewProject, accepted, normalize, trimmed, check_texts}
use secure_dev.Projects.Create.Canonical.{IsCanonicalProject, normalize-IsCanonicalProject}
use secure_dev.Users.Sessions.{issue, verify, of_user}
use secure_dev.Users.Sessions.Trip.{IsSession, verify-issue, verify-IsSession}

slugify-IsEmptyOrSlug_example :
    IsEmptyOrSlug (slugify "Payments API")
    × (byte_length (slugify "Payments API") ≤ max_slug_length)
slugify-IsEmptyOrSlug_example = slugify-IsEmptyOrSlug "Payments API"

abbrev asked : NewProject
asked = record {
  name = " Payments API ";
  slug = "";
  description = "";
  environment = Environment.other "";
  criticality = Criticality.other "";
  internet_facing = true;
}

abbrev created : NewProject
created = record {
  name = "Payments API";
  slug = "payments-api";
  description = "";
  environment = development;
  criticality = Criticality.medium;
  internet_facing = true;
}

asked_accepted : normalize asked ≡ accepted created
unfolding normalize trimmed check_texts char_bytes to_lower
asked_accepted = refl

normalize-project_example : IsCanonicalProject created × (normalize created ≡ accepted created)
normalize-project_example = normalize-IsCanonicalProject asked created asked_accepted

-- A stand-in for the signature: every payload has the same one.
abbrev stamp : String → String
stamp payload = "a1b2"

abbrev token : String
token = issue stamp "u1" 0

verify-issue_example : verify stamp token 5 ≡ of_user "u1"
unfolding has_code trim_space
verify-issue_example =
    verify-issue stamp (λ payload. refl) "u1" 0 5 refl refl (omega arith) (omega arith)

verify-IsSession_example : IsSession stamp token "u1" 5
verify-IsSession_example = verify-IsSession stamp token "u1" 5 verify-issue_example
