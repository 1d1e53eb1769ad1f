-- ===== src/Projects.antt =====
-- internal/projects/project.go: a project's declared context, and the input that creates one.
-- Go's `len` of a text counts bytes of its UTF-8 form. The text literals of the control characters
-- and of the hyphen are given by their numbers.
pub mod Slug
pub mod Create
use secure_dev.Prelude.{String, Bool, List, [], ◌∷◌, any, ◌==◌}

pub data Environment : Type 0 where
  development staging production : Environment
  other : String → Environment

abbrev pub environment_text : Environment → String
environment_text development = "development"
environment_text staging = "staging"
environment_text production = "production"
environment_text (Environment.other t) = t

unfoldable pub environments : List Environment
environments = development ∷ staging ∷ production ∷ []

unfoldable pub environment_valid : Environment → Bool
unfolding environments
environment_valid e = any (λ known. environment_text e == environment_text known) environments

pub data Criticality : Type 0 where
  low medium high critical : Criticality
  other : String → Criticality

abbrev pub criticality_text : Criticality → String
criticality_text low = "low"
criticality_text medium = "medium"
criticality_text high = "high"
criticality_text critical = "critical"
criticality_text (Criticality.other t) = t

unfoldable pub criticalities : List Criticality
criticalities = low ∷ medium ∷ high ∷ critical ∷ []

unfoldable pub criticality_valid : Criticality → Bool
unfolding criticalities
criticality_valid c = any (λ known. criticality_text c == criticality_text known) criticalities
