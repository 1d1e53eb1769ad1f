-- ===== src/Netguard/Public.antt =====
-- internal/netguard/netguard.go: the hosts that CheckHost accepts.
use secure_dev.Prelude.{
  ℕ, String, Bool, false, ◌&&◌, ◌||◌, ◌≡◌, ◌≢◌, ◌⊎◌, refl, sym, subst, Option, none, some, List, [],
  ◌∷◌, ◌++◌, All, nat_eqb, ◌==◌, arith, Bool-cases, inl, inr,
}
use secure_dev.Netguard.{
  Ip, mapped_prefix, within, HostError, verdict, first_of, is_blocked, blocked_within, check_all,
  check_resolved, check_parsed, check_host, control,
}

-- The ranges of IPv4 that are never a target: this network's own address, 10/8, 127/8, 169.254/16,
-- 172.16/12, 192.168/16 and 224/4.
abbrev pub is_inner : ℕ → ℕ → ℕ → ℕ → Bool
is_inner a b c d =
    (nat_eqb a 0 && nat_eqb b 0 && nat_eqb c 0 && nat_eqb d 0)
    || nat_eqb a 10
    || nat_eqb a 127
    || (nat_eqb a 169 && nat_eqb b 254)
    || (nat_eqb a 172 && within 16 32 b)
    || (nat_eqb a 192 && nat_eqb b 168)
    || within 224 240 a

inner_blocked :
    (a b c d : ℕ) → blocked_within false 2 (a ∷ b ∷ c ∷ d ∷ []) ≡ none → is_inner a b c d ≡ false
unfolding blocked_within
inner_blocked a b c d h = ground (arith, h)

mapped_blocked :
    (a b c d : ℕ)
    → blocked_within false 2 (mapped_prefix ++ a ∷ b ∷ c ∷ d ∷ []) ≡ none
    → is_inner a b c d ≡ false
unfolding blocked_within
mapped_blocked a b c d h = ground (arith, h)

-- An address that is no address of IPv4, in either form, of an inner range.
abbrev pub IsOuter : Ip → Type 0
IsOuter ip =
    (a b c d : ℕ)
    → (ip ≡ a ∷ b ∷ c ∷ d ∷ []) ⊎ (ip ≡ mapped_prefix ++ a ∷ b ∷ c ∷ d ∷ [])
    → is_inner a b c d ≡ false

-- The resolver, or the parser, gave an address, and it is none of an inner range.
abbrev pub IsOuterAddress : Option Ip → Type 0
IsOuterAddress o = (ip : Ip) × (o ≡ some ip) × IsOuter ip

verdict-none : (o : Option String) → verdict o ≡ none → o ≡ none
verdict-none none h = refl
verdict-none (some reason) h = cc

blocked-IsOuter : (ip : Ip) → blocked_within false 2 ip ≡ none → IsOuter ip
blocked-IsOuter ip h a b c d (inl plain) =
    inner_blocked a b c d (subst (λ x. blocked_within false 2 x ≡ none) plain h)
blocked-IsOuter ip h a b c d (inr mapped) =
    mapped_blocked a b c d (subst (λ x. blocked_within false 2 x ≡ none) mapped h)

address-IsOuterAddress : (o : Option Ip) → verdict (is_blocked false o) ≡ none → IsOuterAddress o
address-IsOuterAddress none h = cc
address-IsOuterAddress (some ip) h =
    (ip, refl, blocked-IsOuter ip (verdict-none (blocked_within false 2 ip) h))

first_of-none : (o later : Option HostError) → first_of o later ≡ none → (o ≡ none) × (later ≡ none)
first_of-none none later h = (refl, h)
first_of-none (some e) later h = cc

check_all-IsOuterAddress :
    (ips : List (Option Ip)) → check_all false ips ≡ none → All IsOuterAddress ips
unfolding check_all
check_all-IsOuterAddress [] h = tt
check_all-IsOuterAddress (ip ∷ rest) h =
    let (here, later) = first_of-none (verdict (is_blocked false ip)) (check_all false rest) h in
    (address-IsOuterAddress ip here, check_all-IsOuterAddress rest later)

check_resolved-IsOuterAddress :
    (o : Option (List (Option Ip)))
    → check_resolved false o ≡ none
    → (ips : List (Option Ip)) × (o ≡ some ips) × (ips ≢ []) × All IsOuterAddress ips
check_resolved-IsOuterAddress none h = cc
check_resolved-IsOuterAddress (some []) h = cc
check_resolved-IsOuterAddress (some (ip ∷ rest)) h =
    (ip ∷ rest, refl, (λ e. cc), check_all-IsOuterAddress (ip ∷ rest) h)

module _ (parse_ip : String → Option Ip) (lookup : String → Option (List (Option Ip))) where
  -- What an accepted host stands for.
  abbrev pub IsOuterHost : String → Type 0
  IsOuterHost host =
      IsOuterAddress (parse_ip host)
      ⊎ ((parse_ip host ≡ none)
          × ((ips : List (Option Ip)) × (lookup host ≡ some ips)
              × (ips ≢ [])
              × All IsOuterAddress ips))

  check_parsed-IsOuterHost :
      (host : String) (o : Option Ip)
      → parse_ip host ≡ o
      → check_parsed false o (lookup host) ≡ none
      → IsOuterHost host
  check_parsed-IsOuterHost host (some ip) e h =
      inl (subst IsOuterAddress (sym e) (address-IsOuterAddress (some ip) h))
  check_parsed-IsOuterHost host none e h = inr (e, check_resolved-IsOuterAddress (lookup host) h)

  -- Where private addresses are not allowed, an accepted host is the text of an address, or else it
  -- resolves to at least one; and then no such address, be it one of IPv4 or its form in IPv6, is in
  -- an inner range: the host itself, private, link-local, multicast and the metadata service.
  pub check_host-IsOuterHost :
      (host : String) → check_host false parse_ip lookup host ≡ none → IsOuterHost host
  unfolding check_host
  check_host-IsOuterHost host h = elim (Bool-cases (host == "")) [
    | inl e ↦ let k = rw e at h in cc
    | inr e ↦ check_parsed-IsOuterHost host (parse_ip host) refl (let k = rw e at h in k)
  ]

  -- A connection that the hook of the dialler lets through goes to no such address either, whatever
  -- the resolver said before.
  pub control-IsOuterAddress :
      (host : String)
      → control false parse_ip lookup (some host) ≡ none
      → IsOuterAddress (parse_ip host)
  unfolding control
  control-IsOuterAddress host h = address-IsOuterAddress (parse_ip host) h
