-- ===== src/Examples/Access.antt =====
-- Runs of the theorems on the roles and scopes of credentials.
use secure_dev.Prelude.{false, not, ◌&&◌, ◌||◌, ◌≡◌, refl, [], ◌∷◌, ◌==◌}
use secure_dev.Prelude.Text.{trim_space, split}
use secure_dev.Auth.{Scope, slug_of, scope_to, parsed, parse_scope, scope_empty, scope_allows}
use secure_dev.Auth.Reach.{names, parse_scope-parsed}

abbrev shop : Scope
shop = scope_to ("web-shop" ∷ " Api " ∷ [])

shop_parsed : parse_scope " web-shop, Api " ≡ parsed shop
unfolding parse_scope
shop_parsed = refl

parse_scope_example :
    (scope_empty shop ≡ false)
    × (scope_allows shop "other" ≡ (
        trim_space " web-shop, Api " == "*"
        || not (slug_of "other" == "")
          && names (split 44 (trim_space " web-shop, Api ")) (slug_of "other")))
parse_scope_example = parse_scope-parsed " web-shop, Api " shop "other" shop_parsed
