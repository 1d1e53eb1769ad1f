-- ===== src/Netguard.antt =====
-- internal/netguard/netguard.go: which addresses a scan may reach.
-- A net.IP is the list of its bytes, four or sixteen; its methods are those of Go's package net. The
-- parser of an address, the resolver and net.SplitHostPort are parameters. Where IsBlocked calls
-- itself, a number bounds the calls.
pub mod Mapped
pub mod Public
use Prim.Native.Nat.{◌%◌}
use secure_dev.Prelude.{
  ℕ, zero, suc, String, Bool, true, false, not, ◌&&◌, ◌||◌, Option, none, some, List, [], ◌∷◌, any,
  length, take, leb, ltb, nat_eqb, ◌==◌, if◌then◌else◌,
}

abbrev pub Ip : Type 0
Ip = List ℕ

abbrev pub bytes_eqb : Ip → Ip → Bool
bytes_eqb [] [] = true
bytes_eqb [] (y ∷ ys) = false
bytes_eqb (x ∷ xs) [] = false
bytes_eqb (x ∷ xs) (y ∷ ys) = nat_eqb x y && bytes_eqb xs ys

abbrev pub drop : ℕ → Ip → Ip
drop zero xs = xs
drop (suc n) [] = []
drop (suc n) (x ∷ xs) = drop n xs

-- The byte at an index.
abbrev pub byte : ℕ → Ip → ℕ
byte n [] = 0
byte zero (x ∷ xs) = x
byte (suc n) (x ∷ xs) = byte n xs

-- From the first number up to the second, which is left out.
abbrev pub within : ℕ → ℕ → ℕ → Bool
within lo hi n = leb lo n && ltb n hi

abbrev pub has_length : ℕ → Ip → Bool
has_length n ip = nat_eqb (length ip) n

abbrev pub mapped_prefix : Ip
mapped_prefix = 0 ∷ 0 ∷ 0 ∷ 0 ∷ 0 ∷ 0 ∷ 0 ∷ 0 ∷ 0 ∷ 0 ∷ 255 ∷ 255 ∷ []

abbrev pub is_mapped : Ip → Bool
is_mapped ip = has_length 16 ip && bytes_eqb (take 12 ip) mapped_prefix

unfoldable pub to4 : Ip → Option Ip
to4 ip = if has_length 4 ip then some ip else if is_mapped ip then some (drop 12 ip) else none

unfoldable pub ip_equal : Ip → Ip → Bool
ip_equal a b =
    if nat_eqb (length a) (length b)
    then bytes_eqb a b
    else if has_length 4 a && has_length 16 b
    then bytes_eqb (take 12 b) mapped_prefix && bytes_eqb a (drop 12 b)
    else if has_length 16 a && has_length 4 b
    then bytes_eqb (take 12 a) mapped_prefix && bytes_eqb (drop 12 a) b
    else false

abbrev pub v6_unspecified : Ip
v6_unspecified = 0 ∷ 0 ∷ 0 ∷ 0 ∷ 0 ∷ 0 ∷ 0 ∷ 0 ∷ 0 ∷ 0 ∷ 0 ∷ 0 ∷ 0 ∷ 0 ∷ 0 ∷ 0 ∷ []

abbrev pub v6_loopback : Ip
v6_loopback = 0 ∷ 0 ∷ 0 ∷ 0 ∷ 0 ∷ 0 ∷ 0 ∷ 0 ∷ 0 ∷ 0 ∷ 0 ∷ 0 ∷ 0 ∷ 0 ∷ 0 ∷ 1 ∷ []

-- 169.254.169.254 and fd00:ec2::254
abbrev pub metadata_addresses : List Ip
metadata_addresses =
    (169 ∷ 254 ∷ 169 ∷ 254 ∷ [])
    ∷ (253 ∷ 0 ∷ 14 ∷ 194 ∷ 0 ∷ 0 ∷ 0 ∷ 0 ∷ 0 ∷ 0 ∷ 0 ∷ 0 ∷ 0 ∷ 0 ∷ 2 ∷ 84 ∷ [])
    ∷ []

-- A test of the four bytes of an IPv4 address, mapped or not, or else of another address.
abbrev pub by_version : (Ip → Bool) → (Ip → Bool) → Ip → Option Ip → Bool
by_version p4 p6 ip none = p6 ip
by_version p4 p6 ip (some v4) = p4 v4

unfoldable pub is_unspecified : Ip → Bool
unfolding ip_equal
is_unspecified ip = ip_equal ip (0 ∷ 0 ∷ 0 ∷ 0 ∷ []) || ip_equal ip v6_unspecified

unfoldable pub is_multicast : Ip → Bool
unfolding to4
is_multicast ip =
    by_version (λ v. within 224 240 (byte 0 v)) (λ v. has_length 16 v && nat_eqb (byte 0 v) 255) ip
      (to4 ip)
    || has_length 16 ip && nat_eqb (byte 0 ip) 255 && nat_eqb (byte 1 ip % 16) 1
    || by_version (λ v. nat_eqb (byte 0 v) 224 && nat_eqb (byte 1 v) 0 && nat_eqb (byte 2 v) 0)
        (λ v. has_length 16 v && nat_eqb (byte 0 v) 255 && nat_eqb (byte 1 v % 16) 2) ip (to4 ip)

unfoldable pub is_loopback : Ip → Bool
unfolding to4 ip_equal
is_loopback ip = by_version (λ v. nat_eqb (byte 0 v) 127) (λ v. ip_equal v v6_loopback) ip (to4 ip)

unfoldable pub is_link_local : Ip → Bool
unfolding to4
is_link_local ip =
    by_version (λ v. nat_eqb (byte 0 v) 169 && nat_eqb (byte 1 v) 254)
      (λ v. has_length 16 v && nat_eqb (byte 0 v) 254 && within 128 192 (byte 1 v)) ip (to4 ip)

unfoldable pub is_private : Ip → Bool
unfolding to4
is_private ip =
    by_version
      (λ v.
        nat_eqb (byte 0 v) 10
        || nat_eqb (byte 0 v) 172 && within 16 32 (byte 1 v)
        || nat_eqb (byte 0 v) 192 && nat_eqb (byte 1 v) 168)
      (λ v. has_length 16 v && within 252 254 (byte 0 v)) ip (to4 ip)

-- The reason of a block; `none` is Go's false.
abbrev pub again : Ip → Option Ip → (Ip → Option String) → Option String
again ip none blocked = none
again ip (some v4) blocked =
    let mapped = blocked v4 in if not (ip_equal ip v4) then mapped else none

-- What stops the use of a host; `none` is Go's nil error.
pub data HostError : Type 0 where
  empty_host no_addresses : HostError
  blocked_address : String → HostError
  unresolved : HostError

abbrev pub verdict : Option String → Option HostError
verdict none = none
verdict (some reason) = some (blocked_address reason)

abbrev pub first_of : Option HostError → Option HostError → Option HostError
first_of none later = later
first_of (some e) later = some e

module _ (allow_private : Bool) where
  unfoldable pub blocked_within : ℕ → Ip → Option String
  unfolding to4 ip_equal is_unspecified is_multicast is_loopback is_link_local is_private
  blocked_within zero ip = none
  blocked_within (suc n) ip =
      let mapped = again ip (to4 ip) (blocked_within n) in
      if any (λ meta. ip_equal ip meta) metadata_addresses
      then some "cloud instance metadata endpoint"
      else if is_unspecified ip
      then some "unspecified address"
      else if is_multicast ip
      then some "multicast address"
      else if allow_private
      then none
      else if is_loopback ip
      then some "loopback address"
      else if is_link_local ip
      then some "link-local address"
      else if is_private ip
      then some "private address"
      else mapped

  abbrev pub is_blocked : Option Ip → Option String
  is_blocked none = some "unparseable address"
  is_blocked (some ip) = blocked_within 2 ip

  unfoldable pub check_all : List (Option Ip) → Option HostError
  unfolding blocked_within
  check_all [] = none
  check_all (ip ∷ rest) = first_of (verdict (is_blocked ip)) (check_all rest)

  abbrev pub check_resolved : Option (List (Option Ip)) → Option HostError
  check_resolved none = some unresolved
  check_resolved (some []) = some no_addresses
  check_resolved (some (ip ∷ rest)) = check_all (ip ∷ rest)

  abbrev pub check_parsed : Option Ip → Option (List (Option Ip)) → Option HostError
  check_parsed (some ip) resolved = verdict (is_blocked (some ip))
  check_parsed none resolved = check_resolved resolved

  module _ (parse_ip : String → Option Ip) (lookup : String → Option (List (Option Ip))) where
    unfoldable pub check_host : String → Option HostError
    unfolding check_all
    check_host host =
        if host == "" then some empty_host else check_parsed (parse_ip host) (lookup host)

    -- The hook of ControlFunc, with the host of the address to be dialled.
    unfoldable pub control : Option String → Option HostError
    unfolding blocked_within
    control none = some (blocked_address "unparseable dial address")
    control (some host) = verdict (is_blocked (parse_ip host))
