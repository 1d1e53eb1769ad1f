-- ===== src/Scanners.antt =====
-- internal/scanners: the contract that every adapter fulfils (scanner.go, target.go).
-- A Go string type with named constants is a data type with a constructor for each constant, and
-- `other t` for any text `t` that is none of them.
pub mod Registry
use secure_dev.Prelude.{
  ℕ, String, Bool, true, false, List, [], ◌∷◌, ◌++◌, any, length, ltb, ◌==◌, if◌then◌else◌,
}

pub data Kind : Type 0 where
  repository filesystem image endpoint : Kind
  other : String → Kind

abbrev pub kind_text : Kind → String
kind_text repository = "repository"
kind_text filesystem = "filesystem"
kind_text image = "image"
kind_text endpoint = "endpoint"
kind_text (Kind.other t) = t

-- Go's `==` on the string type.
abbrev pub same_kind : Kind → Kind → Bool
same_kind a b = kind_text a == kind_text b

unfoldable pub kinds : List Kind
kinds = repository ∷ filesystem ∷ image ∷ endpoint ∷ []

unfoldable pub valid_kind : Kind → Bool
unfolding kinds
valid_kind k = any (λ known. same_kind k known) kinds

unfoldable pub effective_kind : Kind → Kind
effective_kind k = if same_kind k repository then filesystem else k

pub record Target : Type 0 where
  pub kind : Kind
  pub repository_url : String
  pub ref : String
  pub path : String
  pub image_ref : String
  pub endpoint_url : String

pub data Category : Type 0 where
  sast secrets sbom dependency container iac dast license : Category
  other : String → Category

abbrev pub category_text : Category → String
category_text sast = "sast"
category_text secrets = "secrets"
category_text sbom = "sbom"
category_text dependency = "dependency"
category_text container = "container"
category_text iac = "iac"
category_text dast = "dast"
category_text license = "license"
category_text (Category.other t) = t

-- The conversion `Category(t)`.
unfoldable pub category_of_text : String → Category
category_of_text t =
    if t == "sast"
    then sast
    else if t == "secrets"
    then secrets
    else if t == "sbom"
    then sbom
    else if t == "dependency"
    then dependency
    else if t == "container"
    then container
    else if t == "iac"
    then iac
    else if t == "dast"
    then dast
    else if t == "license"
    then license
    else Category.other t

pub record Capabilities : Type 0 where
  pub supported : List Kind
  pub categories : List Category
  pub network_kinds : List Kind

unfoldable pub covers : Capabilities → Category → Bool
covers c cat = any (λ known. category_text known == category_text cat) c.categories

unfoldable pub needs_network : Capabilities → Kind → Bool
needs_network c k = any (λ kind. same_kind kind k) c.network_kinds

unfoldable pub supports : Capabilities → Kind → Bool
supports c k = any (λ kind. same_kind kind k) c.supported

-- The vocabulary is open: an adapter may name a reason of its own.
abbrev pub Degradation : Type 0
Degradation = String

abbrev pub output_truncated_reason : Degradation
output_truncated_reason = "output_truncated"

-- The loop of `Degrade`: a reason already present is not recorded again.
unfoldable pub degrade : List Degradation → Degradation → List Degradation
degrade present d = if any (λ existing. existing == d) present then present else present ++ d ∷ []

unfoldable pub degraded : List Degradation → Bool
degraded present = ltb 0 (length present)

unfoldable pub output_truncated : List Degradation → Bool
output_truncated present = any (λ d. d == output_truncated_reason) present
