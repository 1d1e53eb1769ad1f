-- ===== src/Correlation/Deployment.antt =====
-- internal/correlation/deployment.go: whether an issue's package is in the built artifact.
use Prim.Native.String.{◌++◌}
use secure_dev.Prelude.{
  ℕ, String, Bool, true, false, not, ◌&&◌, ◌||◌, ◌≡◌, ◌≢◌, List, [], ◌∷◌, any, arith, eq_iff, ◌==◌,
  if◌then◌else◌,
}
use secure_dev.Prelude.Text.{trim_space}
use secure_dev.Correlation.{
  Key, key_kind_text, Deployed, deployment_unknown, deployment_present, deployment_absent,
  Inventory,
}
use secure_dev.Correlation.Calendar.{day_text}

is_nil {ℓ} : {A : Type ℓ} → List A → Bool
is_nil [] = true
is_nil (x ∷ xs) = false

unfoldable pub inventory_empty : Inventory → Bool
unfolding is_nil
inventory_empty i = is_nil i.purls && i.scan_id == ""

unfoldable pub holds : List String → String → Bool
holds purls p = any (λ q. q == p) purls

unfoldable pub deployment_of : Key → Inventory → Deployed
unfolding inventory_empty holds
deployment_of k i =
    if not (key_kind_text k.kind == "purl") || inventory_empty i
    then deployment_unknown
    else if holds i.purls k.value
    then deployment_present
    else if not i.complete
    then deployment_unknown
    else deployment_absent

unfoldable pub deployment_evidence : Deployed → Inventory → String
unfolding day_text
deployment_evidence deployment_present i =
    "this package is installed in the image scanned on " ++ day_text i.scanned_at
deployment_evidence deployment_absent i =
    "this package is NOT installed in the image scanned on "
    ++ day_text i.scanned_at
    ++ ", so it appears to be declared but not deployed — verify before dismissing"
deployment_evidence _ i = ""

-- A text goes into the set if it is not blank and not in it yet.
unfoldable pub purls_from : List String → List String → List String
unfolding trim_space holds
purls_from out [] = out
purls_from out (raw ∷ rest) =
    let p = trim_space raw in purls_from (if p == "" || holds out p then out else p ∷ out) rest

unfoldable pub new_inventory : String → ℕ → List String → Bool → Inventory
unfolding purls_from
new_inventory scan_id scanned_at purls complete = record {
  purls = purls_from [] purls;
  complete = complete;
  scan_id = scan_id;
  scanned_at = scanned_at;
}

holds-step :
    (out : List String) (q p : String)
    → holds (if q == "" || holds out q then out else q ∷ out) p
      ≡ (holds out p || (not (p == "") && q == p))
unfolding holds
holds-step out q p = ground (arith, eq_iff q p, eq_iff q "", eq_iff p "")

holds-purls_from :
    (out raw : List String) (p : String)
    → holds (purls_from out raw) p
      ≡ (holds out p || (not (p == "") && any (λ t. trim_space t == p) raw))
unfolding purls_from
holds-purls_from out [] p = ground arith
holds-purls_from out (t ∷ raw) p =
    let q = trim_space t in
    ground (
      arith,
      holds-purls_from (if q == "" || holds out q then out else q ∷ out) raw p,
      holds-step out q p,
    )

-- What deployment_of says, and what it needs: only a component issue is classified; the package is
-- deployed if the inventory holds it, and absent only if a complete inventory does not.
pub deployment_of-new_inventory :
    (k : Key) (scan_id : String) (at : ℕ) (raw : List String) (complete : Bool)
    → scan_id ≢ ""
    → deployment_of k (new_inventory scan_id at raw complete) ≡ (
        if key_kind_text k.kind == "purl"
        then (if not (k.value == "") && any (λ t. trim_space t == k.value) raw
            then deployment_present
            else if complete
            then deployment_absent
            else deployment_unknown)
        else deployment_unknown)
unfolding deployment_of inventory_empty new_inventory
deployment_of-new_inventory k scan_id at raw complete named =
    ground (arith, holds-purls_from [] raw k.value, eq_iff scan_id "", named)
