-- ===== src/Netguard/Mapped.antt =====
-- internal/netguard/netguard.go: IPv4 addresses in their mapped form, and the call of IsBlocked to
-- itself.
use Prim.Native.Nat.{◌-◌}
use secure_dev.Prelude.{
  ℕ, zero, suc, String, Bool, true, ◌≡◌, refl, Option, none, length, take, arith, Bool-cases, inl,
  inr, [], ◌∷◌,
}
use secure_dev.Netguard.{
  Ip, bytes_eqb, drop, has_length, mapped_prefix, is_mapped, to4, ip_equal, again, blocked_within,
}

bytes_eqb_refl : (xs : Ip) → bytes_eqb xs xs ≡ true
bytes_eqb_refl [] = refl
bytes_eqb_refl (x ∷ xs) = ground (arith, bytes_eqb_refl xs)

length-drop : (n : ℕ) (xs : Ip) → length (drop n xs) ≡ length xs - n
length-drop zero xs = omega arith
length-drop (suc n) [] = omega arith
length-drop (suc n) (x ∷ xs) = omega (arith, length-drop n xs)

equal_self : (ip : Ip) → ip_equal ip ip ≡ true
unfolding ip_equal
equal_self ip = ground (arith, bytes_eqb_refl ip)

-- What the prefix test says of the two lengths.
mapped_parts :
    (ip : Ip)
    → is_mapped ip ≡ true
    → (length ip ≡ 16) × (length (drop 12 ip) ≡ 4) × (bytes_eqb (take 12 ip) mapped_prefix ≡ true)
mapped_parts ip h = elim (Bool-cases (has_length 16 ip)) [
  | inl e ↦
      let long : length ip ≡ 16 = ground (arith, e) in
      (long, omega (arith, long, length-drop 12 ip), let k = rw e at h in k)
  | inr e ↦ let k = rw e at h in cc
]

equal_drop : (ip : Ip) → is_mapped ip ≡ true → ip_equal ip (drop 12 ip) ≡ true
unfolding ip_equal
equal_drop ip h =
    let (long, short, prefix) = mapped_parts ip h in
    rw (long, short, prefix, bytes_eqb_refl (drop 12 ip)) refl

-- The IPv4 form of an address equals it, so IsBlocked has nothing to ask again.
again-none : (ip : Ip) (blocked : Ip → Option String) → again ip (to4 ip) blocked ≡ none
unfolding to4
again-none ip blocked = elim (Bool-cases (has_length 4 ip)) [
  | inl e ↦ rw (e, equal_self ip) refl
  | inr e ↦ elim (Bool-cases (is_mapped ip)) [
    | inl m ↦ rw (e, m, equal_drop ip m) refl
    | inr m ↦ rw (e, m) refl
  ]
]

-- IsBlocked ends, and without calling itself: whatever the number of calls that it may make, the
-- answer for an address is the same, since the IPv4 form of an address equals it.
pub blocked_within-enough :
    (allow_private : Bool) (n m : ℕ) (ip : Ip)
    → blocked_within allow_private (suc n) ip ≡ blocked_within allow_private (suc m) ip
unfolding blocked_within
blocked_within-enough allow_private n m ip =
    rw
      (
        again-none ip (blocked_within allow_private n),
        again-none ip (blocked_within allow_private m),
      )
      refl
