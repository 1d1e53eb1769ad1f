-- ===== src/Examples/Guarding.antt =====
-- Runs of the theorems on the addresses that a scan may reach.
use secure_dev.Prelude.{String, false, ◌≡◌, refl, Option, none, some, List, [], ◌∷◌}
use secure_dev.Netguard.{Ip, blocked_within, check_host}
use secure_dev.Netguard.Mapped.{blocked_within-enough}
use secure_dev.Netguard.Public.{IsOuterHost, check_host-IsOuterHost}

abbrev no_literal : String → Option Ip
no_literal host = none

abbrev one_address : String → Option (List (Option Ip))
one_address host = some (some (198 ∷ 51 ∷ 100 ∷ 7 ∷ []) ∷ [])

shop_accepted : check_host false no_literal one_address "shop.example.com" ≡ none
unfolding check_host
shop_accepted = refl

check_host_example : IsOuterHost no_literal one_address "shop.example.com"
check_host_example = check_host-IsOuterHost no_literal one_address "shop.example.com" shop_accepted

abbrev mapped_loopback : Ip
mapped_loopback = 0 ∷ 0 ∷ 0 ∷ 0 ∷ 0 ∷ 0 ∷ 0 ∷ 0 ∷ 0 ∷ 0 ∷ 255 ∷ 255 ∷ 127 ∷ 0 ∷ 0 ∷ 1 ∷ []

blocked_within_example :
    blocked_within false 2 mapped_loopback ≡ blocked_within false 6 mapped_loopback
blocked_within_example = blocked_within-enough false 1 5 mapped_loopback
