-- ===== src/Auth/Order.antt =====
-- internal/auth/role.go: roles as minimum requirements.
use secure_dev.Prelude.{true, ◌≡◌, ◌↔◌, arith}
use secure_dev.Auth.{Role, role_valid, role_allows}

role_allows_trans :
    (a b c : Role) → role_allows a b ≡ true → role_allows b c ≡ true → role_allows a c ≡ true
unfolding role_allows
role_allows_trans a b c h k = ground (arith, h, k)

role_allows_refl : (a : Role) → role_valid a ≡ true → role_allows a a ≡ true
unfolding role_allows
role_allows_refl a h = ground (arith, h)

-- A role satisfies a known role that is required exactly if it may do all that the required one may.
pub role_allows_iff :
    (a b : Role)
    → role_valid b ≡ true
    → (role_allows a b ≡ true) ↔ ((c : Role) → role_allows b c ≡ true → role_allows a c ≡ true)
role_allows_iff a b h = (λ p c q. role_allows_trans a b c p q, λ f. f b (role_allows_refl b h))
