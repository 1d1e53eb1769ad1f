-- ===== src/Scans/Create.antt =====
-- internal/scans/create.go: the request for a scan.
pub mod Selected
pub mod Canonical
use Prim.Native.Char.{Char, code}
use secure_dev.Prelude.{
  ℕ, suc, String, Bool, true, false, not, ◌&&◌, ◌||◌, Option, none, some, List, [], ◌∷◌, ◌++◌, any,
  length, ltb, leb, nat_eqb, ◌==◌, if◌then◌else◌,
}
use secure_dev.Prelude.Text.{to_lower, trim_space}
use secure_dev.Prelude.Sort.{sort_by, text_lt}
use secure_dev.Scanners.{Target, valid_kind}

abbrev is_digit : ℕ → Bool
is_digit n = leb 48 n && leb n 57

abbrev is_lower : ℕ → Bool
is_lower n = leb 97 n && leb n 122

abbrev is_upper : ℕ → Bool
is_upper n = leb 65 n && leb n 90

-- Every character's number passes the test.
every : (ℕ → Bool) → String → Bool
every p String.[] = true
every p (String.◌∷◌ c s) = p (code c) && every p s

characters : String → ℕ
characters String.[] = 0
characters (String.◌∷◌ c s) = suc (characters s)

-- `^[...][...]{0,n}$`: a first character and up to `n` further ones.
headed : (ℕ → Bool) → (ℕ → Bool) → ℕ → String → Bool
unfolding every characters
headed first later n String.[] = false
headed first later n (String.◌∷◌ c s) = first (code c) && every later s && leb (characters s) n

unfoldable pub commit_sha_pattern : String → Bool
unfolding every characters
commit_sha_pattern s =
    every (λ n. is_digit n || leb 97 n && leb n 102) s
    && leb 7 (characters s)
    && leb (characters s) 64

unfoldable pub branch_pattern : String → Bool
unfolding headed
branch_pattern s =
    headed (λ n. is_upper n || is_lower n || is_digit n)
      (λ n.
        is_upper n
        || is_lower n
        || is_digit n
        || nat_eqb n 46
        || nat_eqb n 95
        || nat_eqb n 47
        || nat_eqb n 45)
      254 s

unfoldable pub scanner_name_pattern : String → Bool
unfolding headed
scanner_name_pattern s =
    headed (λ n. is_lower n || is_digit n)
      (λ n. is_lower n || is_digit n || nat_eqb n 95 || nat_eqb n 45) 63 s

abbrev begins_dot : String → Bool
begins_dot String.[] = false
begins_dot (String.◌∷◌ c s) = nat_eqb 46 (code c)

-- The text has `..` in it.
unfoldable pub has_dots : String → Bool
has_dots String.[] = false
has_dots (String.◌∷◌ c s) = (nat_eqb 46 (code c) && begins_dot s) || has_dots s

pub record NewScan : Type 0 where
  pub project_id : String
  pub repository_id : Option String
  pub target : Target
  pub commit_sha : String
  pub branch : String
  pub scanners : List String

pub data CreateError : Type 0 where
  no_project bad_kind bad_commit_sha bad_branch dotted_branch : CreateError
  blank_repository too_many_scanners blank_scanner bad_scanner_name : CreateError

pub data Selection : Type 0 where
  chosen : List String → Selection
  invalid : CreateError → Selection

-- The loop over the names, with the names so far.
collect_names : List String → List String → Selection
unfolding to_lower trim_space scanner_name_pattern
collect_names out [] = chosen out
collect_names out (raw ∷ rest) =
    let name = to_lower (trim_space raw) in
    let later = collect_names (if any (λ n. n == name) out then out else out ++ name ∷ []) rest in
    if name == ""
    then invalid blank_scanner
    else if not (scanner_name_pattern name)
    then invalid bad_scanner_name
    else later

sorted_selection : Selection → Selection
unfolding sort_by
sorted_selection (chosen out) = chosen (sort_by text_lt out)
sorted_selection (invalid e) = invalid e

unfoldable pub normalize_scanner_names : List String → Selection
unfolding collect_names sorted_selection
normalize_scanner_names [] = chosen []
normalize_scanner_names (name ∷ rest) =
    if ltb 32 (length (name ∷ rest))
    then invalid too_many_scanners
    else sorted_selection (collect_names [] (name ∷ rest))

pub data Created : Type 0 where
  accepted : NewScan → Created
  rejected : CreateError → Created

with_selection : NewScan → Selection → Created
with_selection out (chosen names) = accepted (record out { scanners = names })
with_selection out (invalid e) = rejected e

-- The repository is absent, or named by a text that is not blank.
with_repository : NewScan → Option String → Selection → Created
unfolding with_selection trim_space
with_repository out none selection = with_selection out selection
with_repository out (some raw) selection =
    let id = trim_space raw in
    let rest = with_selection (record out { repository_id = some id }) selection in
    if id == "" then rejected blank_repository else rest

-- The canonical copy before its checks.
trimmed : NewScan → NewScan
unfolding to_lower trim_space
trimmed n = record {
  project_id = trim_space n.project_id;
  repository_id = n.repository_id;
  target = n.target;
  commit_sha = to_lower (trim_space n.commit_sha);
  branch = trim_space n.branch;
  scanners = [];
}

unfoldable pub normalize : NewScan → Created
unfolding trimmed with_repository normalize_scanner_names valid_kind commit_sha_pattern
    branch_pattern has_dots
normalize n =
    let out = trimmed n in
    let rest = with_repository out n.repository_id (normalize_scanner_names n.scanners) in
    if out.project_id == ""
    then rejected no_project
    else if not (valid_kind out.target.kind)
    then rejected bad_kind
    else if not (out.commit_sha == "") && not (commit_sha_pattern out.commit_sha)
    then rejected bad_commit_sha
    else if not (out.branch == "") && not (branch_pattern out.branch)
    then rejected bad_branch
    else if not (out.branch == "") && has_dots out.branch
    then rejected dotted_branch
    else rest
