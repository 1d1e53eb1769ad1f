-- ===== src/Scans/Create/Canonical.antt =====
-- internal/scans/create.go: what an accepted request is.
use secure_dev.Prelude.{
  String, Bool, true, false, not, ◌&&◌, ◌||◌, ◌≡◌, ◌≢◌, refl, subst, Option, none, some, List,
  arith, eq_iff, ◌==◌, if◌then◌else◌,
}
use secure_dev.Prelude.Text.{trim_space}
use secure_dev.Scanners.{valid_kind}
use secure_dev.Scans.Create.{
  commit_sha_pattern, branch_pattern, has_dots, NewScan, CreateError, Selection, chosen, invalid,
  normalize_scanner_names, Created, accepted, rejected, with_selection, with_repository, trimmed,
  normalize,
}
use secure_dev.Scans.Create.Selected.{IsSelection, normalize_scanner_names-IsSelection}

admitted :
    (b : Bool) (e : CreateError) (c : Created) (m : NewScan)
    → (if b then rejected e else c) ≡ accepted m
    → (b ≡ false) × (c ≡ accepted m)
admitted true e c m h = cc
admitted false e c m h = (refl, h)

-- What an accepted request is, for the scanners `raw` that it asked for.
pub record IsCanonical (raw : List String) (m : NewScan) : Type 0 where
  pub project : (m.project_id == "") ≡ false
  pub kind : valid_kind m.target.kind ≡ true
  pub commit : (m.commit_sha == "" || commit_sha_pattern m.commit_sha) ≡ true
  pub branch : (m.branch == "" || branch_pattern m.branch && not (has_dots m.branch)) ≡ true
  pub repository : m.repository_id ≢ some ""
  pub selection : IsSelection raw m.scanners

-- What the steps behind the guards do with `out`.
record IsWritten (out : NewScan) (s : Selection) (m : NewScan) : Type 0 where
  project : m.project_id ≡ out.project_id
  kind : m.target ≡ out.target
  commit : m.commit_sha ≡ out.commit_sha
  branch : m.branch ≡ out.branch
  repository : m.repository_id ≢ some ""
  selection : s ≡ chosen m.scanners

with_selection-IsWritten :
    (out : NewScan) (s : Selection) (m : NewScan)
    → out.repository_id ≢ some ""
    → with_selection out s ≡ accepted m
    → IsWritten out s m
unfolding with_selection
with_selection-IsWritten out (chosen l) m named h =
    let same : record out { scanners = l } ≡ m = cc in
    subst (IsWritten out (chosen l)) same (record {
      project = refl;
      kind = refl;
      commit = refl;
      branch = refl;
      repository = named;
      selection = refl;
    })
with_selection-IsWritten out (invalid e) m named h = cc

with_repository-IsWritten :
    (out : NewScan) (o : Option String) (s : Selection) (m : NewScan)
    → out.repository_id ≡ o
    → with_repository out o s ≡ accepted m
    → IsWritten out s m
unfolding with_repository
with_repository-IsWritten out none s m e h = with_selection-IsWritten out s m (λ x. cc) h
with_repository-IsWritten out (some raw) s m e h =
    let id = trim_space raw in
    let (named, done) =
      admitted (id == "") _ (with_selection (record out { repository_id = some id }) s) m h in
    let w =
      with_selection-IsWritten (record out { repository_id = some id }) s m
        (λ x. let blank : id ≡ "" = cc in ground (arith, (eq_iff id "").1 blank, named)) done in
    record {
      project = w.project;
      kind = w.kind;
      commit = w.commit;
      branch = w.branch;
      repository = w.repository;
      selection = w.selection;
    }

-- A request that is accepted has a project, a known kind of target, a commit and a branch of the
-- permitted form or none, a repository that is absent or named, and, sorted and each once, exactly
-- the scanners that were asked for, 32 at most.
pub normalize-IsCanonical : (n m : NewScan) → normalize n ≡ accepted m → IsCanonical n.scanners m
unfolding normalize trimmed
normalize-IsCanonical n m h =
    let out = trimmed n in
    let (a, h1) = admitted (out.project_id == "") _ _ m h in
    let (b, h2) = admitted (not (valid_kind out.target.kind)) _ _ m h1 in
    let (c, h3) =
      admitted (not (out.commit_sha == "") && not (commit_sha_pattern out.commit_sha)) _ _ m h2 in
    let (d, h4) = admitted (not (out.branch == "") && not (branch_pattern out.branch)) _ _ m h3 in
    let (e, h5) = admitted (not (out.branch == "") && has_dots out.branch) _ _ m h4 in
    let w =
      with_repository-IsWritten (trimmed n) n.repository_id (normalize_scanner_names n.scanners) m
        refl h5 in
    record {
      project = rw w.project a;
      kind = rw w.kind (ground (arith, b));
      commit = rw w.commit (ground (arith, c));
      branch = rw w.branch (ground (arith, d, e));
      repository = w.repository;
      selection = normalize_scanner_names-IsSelection n.scanners m.scanners w.selection;
    }
