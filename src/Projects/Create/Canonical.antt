-- ===== src/Projects/Create/Canonical.antt =====
-- internal/projects/project.go: what an accepted input holds.
use secure_dev.Prelude.{
  Bool, true, false, not, ltb, ◌==◌, if◌then◌else◌, ◌≡◌, refl, sym, ap, arith, subst, ◌∙◌,
}
use secure_dev.Prelude.Text.{trim_space, has_code}
use secure_dev.Prelude.Text.Trim.{trim_space_idem}
use secure_dev.Projects.{
  Environment, environments, staging, production, environment_text, environment_valid, development,
  Criticality, criticalities, low, high, critical, criticality_text, criticality_valid, medium,
}
use secure_dev.Prelude.Text.Bytes.{byte_length}
use secure_dev.Projects.Slug.{slug_matches, max_slug_length}
use secure_dev.Projects.Slug.Shape.{trim_space-slug, slug-named, accepted-named}
use secure_dev.Projects.Create.{
  NewProject, ProjectError, Checked, max_name_length, max_description_length, has_control, trimmed,
  default_slug, default_environment, default_criticality, check_criticality, check_environment,
  check_slug, check_texts, normalize, accepted, rejected,
}

-- What a project's row holds.
pub record IsCanonicalProject (n : NewProject) : Type 0 where
  pub name_trimmed : trim_space n.name ≡ n.name
  pub slug_trimmed : trim_space n.slug ≡ n.slug
  pub description_trimmed : trim_space n.description ≡ n.description
  pub named : (n.name == "") ≡ false
  pub name_fits : ltb max_name_length (byte_length n.name) ≡ false
  pub name_clear : has_control n.name ≡ false
  pub description_fits : ltb max_description_length (byte_length n.description) ≡ false
  pub description_clear : has_code 0 n.description ≡ false
  pub slug_fits : ltb max_slug_length (byte_length n.slug) ≡ false
  pub slug_good : slug_matches n.slug ≡ true
  pub environment_known : environment_valid n.environment ≡ true
  pub criticality_known : criticality_valid n.criticality ≡ true

accepted_inj : (n m : NewProject) → accepted n ≡ accepted m → n ≡ m
accepted_inj n m h = cc

guarded :
    (b : Bool) (e : ProjectError) (c : Checked) (m : NewProject)
    → (if b then rejected e else c) ≡ accepted m
    → (b ≡ false) × (c ≡ accepted m)
guarded true e c m h = cc
guarded false e c m h = (refl, h)

required :
    (b : Bool) (e : ProjectError) (c : Checked) (m : NewProject)
    → (if b then c else rejected e) ≡ accepted m
    → (b ≡ true) × (c ≡ accepted m)
required true e c m h = (refl, h)
required false e c m h = cc

environment-named :
    (e : Environment) → environment_valid e ≡ true → (environment_text e == "") ≡ false
unfolding environment_valid environments
environment-named (Environment.other t) =
    accepted-named (λ u. environment_valid (Environment.other u)) t refl
environment-named development = λ _. refl
environment-named staging = λ _. refl
environment-named production = λ _. refl

criticality-named :
    (c : Criticality) → criticality_valid c ≡ true → (criticality_text c == "") ≡ false
unfolding criticality_valid criticalities
criticality-named (Criticality.other t) =
    accepted-named (λ u. criticality_valid (Criticality.other u)) t refl
criticality-named low = λ _. refl
criticality-named medium = λ _. refl
criticality-named high = λ _. refl
criticality-named critical = λ _. refl

check_criticality_lem :
    (n m : NewProject)
    → check_criticality n ≡ accepted m
    → (criticality_valid m.criticality ≡ true) × (m ≡ default_criticality n)
unfolding check_criticality
check_criticality_lem n m h =
    let (known, done) = required (criticality_valid (default_criticality n).criticality) _ _ m h in
    let same : default_criticality n ≡ m = accepted_inj _ _ done in
    (subst (λ (x : NewProject). criticality_valid x.criticality ≡ true) same known, sym same)

-- The two defaults leave the texts as they are.
abbrev finished : NewProject → NewProject
finished n = default_criticality (default_environment n)

check_environment_lem :
    (n m : NewProject)
    → check_environment n ≡ accepted m
    → (environment_valid m.environment ≡ true)
      × (criticality_valid m.criticality ≡ true)
      × (m ≡ finished n)
unfolding check_environment default_criticality
check_environment_lem n m h =
    let (known, later) = required (environment_valid (default_environment n).environment) _ _ m h in
    let (valid, same) = check_criticality_lem (default_environment n) m later in
    (
      subst (λ (x : NewProject). environment_valid x.environment ≡ true) (sym same) known,
      valid,
      same,
    )

check_texts-IsCanonicalProject :
    (t m : NewProject) → trimmed t ≡ t → check_texts t ≡ accepted m → IsCanonicalProject m
unfolding check_texts check_slug default_slug trimmed default_environment default_criticality
check_texts-IsCanonicalProject t m trims h =
    let (named, h1) = guarded (t.name == "") _ _ m h in
    let (fits, h2) = guarded (ltb max_name_length (byte_length t.name)) _ _ m h1 in
    let (clear, h3) = guarded (has_control t.name) _ _ m h2 in
    let (short, h4) = guarded (ltb max_description_length (byte_length t.description)) _ _ m h3 in
    let (no_nul, h5) = guarded (has_code 0 t.description) _ _ m h4 in
    let u : NewProject = default_slug t in
    let (sluggish, h6) = guarded (u.slug == "") _ _ m h5 in
    let (slug_short, h7) = guarded (ltb max_slug_length (byte_length u.slug)) _ _ m h6 in
    let (good, h8) = guarded (not (slug_matches u.slug)) _ _ m h7 in
    let (known, valued, same) = check_environment_lem u m h8 in
    let matches : slug_matches u.slug ≡ true = ground arith in
    subst IsCanonicalProject (sym same) (record {
      name_trimmed = ap (λ (x : NewProject). x.name) trims;
      slug_trimmed = trim_space-slug u.slug matches;
      description_trimmed = ap (λ (x : NewProject). x.description) trims;
      named = named;
      name_fits = fits;
      name_clear = clear;
      description_fits = short;
      description_clear = no_nul;
      slug_fits = slug_short;
      slug_good = matches;
      environment_known =
          subst (λ (x : NewProject). environment_valid x.environment ≡ true) same known;
      criticality_known =
          subst (λ (x : NewProject). criticality_valid x.criticality ≡ true) same valued;
    })

trimmed_idem : (n : NewProject) → trimmed (trimmed n) ≡ trimmed n
unfolding trimmed
trimmed_idem n =
    rw (trim_space_idem n.name, trim_space_idem n.slug, trim_space_idem n.description) refl

trimmed-of_canonical : (n : NewProject) → IsCanonicalProject n → trimmed n ≡ n
unfolding trimmed
trimmed-of_canonical n c = rw (c.name_trimmed, c.slug_trimmed, c.description_trimmed) refl

check_texts-of_canonical : (n : NewProject) → IsCanonicalProject n → check_texts n ≡ accepted n
unfolding check_texts check_slug default_slug check_environment default_environment
    check_criticality default_criticality
check_texts-of_canonical n c =
    rw
      (
        c.named,
        c.name_fits,
        c.name_clear,
        c.description_fits,
        c.description_clear,
        slug-named n.slug c.slug_good,
        c.slug_fits,
        c.slug_good,
        environment-named n.environment c.environment_known,
        c.environment_known,
        criticality-named n.criticality c.criticality_known,
        c.criticality_known,
        slug-named n.slug c.slug_good,
      )
      refl

-- A canonical input is accepted as it is.
normalize-of_canonical : (n : NewProject) → IsCanonicalProject n → normalize n ≡ accepted n
unfolding normalize
normalize-of_canonical n c =
    ap check_texts (trimmed-of_canonical n c) ∙ check_texts-of_canonical n c

-- An input that is accepted yields a canonical one: its texts are trimmed and within their bounds,
-- its slug matches the slug pattern, and its environment and its criticality are of the lists. And
-- what is accepted is accepted again, unchanged.
pub normalize-IsCanonicalProject :
    (n m : NewProject)
    → normalize n ≡ accepted m
    → IsCanonicalProject m × (normalize m ≡ accepted m)
unfolding normalize
normalize-IsCanonicalProject n m h =
    let canonical = check_texts-IsCanonicalProject (trimmed n) m (trimmed_idem n) h in
    (canonical, normalize-of_canonical m canonical)
