-- ===== src/Projects/Create.antt =====
-- internal/projects/project.go: the input that creates a project, checked and made canonical.
pub mod Canonical
use secure_dev.Prelude.{
  ℕ, String, Bool, true, false, ◌&&◌, ◌||◌, not, ltb, ◌==◌, if◌then◌else◌, ◌≡◌, refl, sym, ap,
  arith, eq_iff, Bool-cases, inl, inr, any, subst, ◌∙◌,
}
use secure_dev.Prelude.Text.{trim_space, has_code}
use secure_dev.Prelude.Text.Trim.{trim_space_idem}
use secure_dev.Projects.{
  Environment, environments, staging, production, environment_text, environment_valid, development,
  Criticality, criticalities, low, high, critical, criticality_text, criticality_valid, medium,
}
use secure_dev.Prelude.Text.Bytes.{byte_length}
use secure_dev.Projects.Slug.{slugify, slug_matches, max_slug_length}

pub record NewProject : Type 0 where
  pub name : String
  pub slug : String
  pub description : String
  pub environment : Environment
  pub criticality : Criticality
  pub internet_facing : Bool

pub data ProjectError : Type 0 where
  no_name long_name control_in_name long_description nul_in_description : ProjectError
  no_slug long_slug bad_slug unknown_environment unknown_criticality : ProjectError

pub data Checked : Type 0 where
  accepted : NewProject → Checked
  rejected : ProjectError → Checked

abbrev pub max_name_length : ℕ
max_name_length = 128

abbrev pub max_description_length : ℕ
max_description_length = 1024

-- strings.ContainsAny(name, "\x00\r\n")
unfoldable pub has_control : String → Bool
unfolding has_code
has_control name = has_code 0 name || has_code 13 name || has_code 10 name

-- The copy that `Normalize` starts from.
unfoldable pub trimmed : NewProject → NewProject
unfolding trim_space
trimmed n = record n {
  name = trim_space n.name;
  slug = trim_space n.slug;
  description = trim_space n.description;
}

unfoldable pub default_slug : NewProject → NewProject
unfolding slugify
default_slug n = record n { slug = if n.slug == "" then slugify n.name else n.slug }

unfoldable pub default_environment : NewProject → NewProject
default_environment n = record n {
  environment = if environment_text n.environment == "" then development else n.environment;
}

unfoldable pub default_criticality : NewProject → NewProject
default_criticality n = record n {
  criticality = if criticality_text n.criticality == "" then medium else n.criticality;
}

unfoldable pub check_criticality : NewProject → Checked
unfolding default_criticality criticality_valid
check_criticality n =
    if criticality_valid (default_criticality n).criticality
    then accepted (default_criticality n)
    else rejected unknown_criticality

unfoldable pub check_environment : NewProject → Checked
unfolding default_environment environment_valid check_criticality
check_environment n =
    if environment_valid (default_environment n).environment
    then check_criticality (default_environment n)
    else rejected unknown_environment

unfoldable pub check_slug : NewProject → Checked
unfolding slug_matches byte_length check_environment
check_slug n =
    if n.slug == ""
    then rejected no_slug
    else if ltb max_slug_length (byte_length n.slug)
    then rejected long_slug
    else if not (slug_matches n.slug)
    then rejected bad_slug
    else check_environment n

unfoldable pub check_texts : NewProject → Checked
unfolding has_control byte_length default_slug check_slug
check_texts n =
    if n.name == ""
    then rejected no_name
    else if ltb max_name_length (byte_length n.name)
    then rejected long_name
    else if has_control n.name
    then rejected control_in_name
    else if ltb max_description_length (byte_length n.description)
    then rejected long_description
    else if has_code 0 n.description
    then rejected nul_in_description
    else check_slug (default_slug n)

unfoldable pub normalize : NewProject → Checked
unfolding trimmed check_texts
normalize n = check_texts (trimmed n)
