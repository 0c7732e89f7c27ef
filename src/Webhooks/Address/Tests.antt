-- ===== src/Webhooks/Address/Tests.antt =====
-- Public and private addresses.
use total_recall.Base.{◌≡◌, ◌<◌, ◌*◌, ◌+◌, ◌^◌, refl, true, false, [], ◌∷◌, any, arith, ok, length}
use total_recall.Webhooks.Address.{
  Address, ipv4, ipv6, is_blocked, is_blocked_ipv4, is_blocked_ipv6, name, address, check_answers,
  resolve_webhook_destination,
}
use total_recall.Webhooks.Address.Networks.{
  number4, in_network, blocked_networks, is_blocked-in_network, AreAnswers, ArePublic,
  resolve-ArePublic,
}

-- 2001:4860:4860::8888 and ::1
abbrev public_ipv6 : Address
public_ipv6 = ipv6 (0x2001_4860_4860 * 2 ^ 80 + 0x8888)

some_addresses :
    (is_blocked (ipv4 8 8 8 8) ≡ false)
    × (is_blocked (ipv4 172 31 0 1) ≡ true)
    × (is_blocked public_ipv6 ≡ false)
    × (is_blocked (ipv6 1) ≡ true)
    × (is_blocked (ipv6 (0xffff_7f00_0001)) ≡ true)
unfolding is_blocked is_blocked_ipv4 is_blocked_ipv6
some_addresses = (refl, refl, refl, refl, refl)

is_blocked-in_network_example :
    (is_blocked (ipv4 10 1 2 3) ≡ any (in_network (number4 10 1 2 3)) blocked_networks)
    × (is_blocked (ipv6 (0xffff * 2 ^ 32 + number4 10 1 2 3))
        ≡ any (in_network (number4 10 1 2 3)) blocked_networks)
is_blocked-in_network_example =
    is_blocked-in_network 10 1 2 3 (omega arith) (omega arith) (omega arith) (omega arith)

two_answers_resolved :
    resolve_webhook_destination name (ok (address (ipv4 8 8 8 8) ∷ address public_ipv6 ∷ []))
    ≡ ok (ipv4 8 8 8 8 ∷ public_ipv6 ∷ [])
unfolding resolve_webhook_destination check_answers is_blocked is_blocked_ipv4 is_blocked_ipv6
two_answers_resolved = refl

resolve-ArePublic_example :
    AreAnswers name
      (ok (address (ipv4 8 8 8 8) ∷ address public_ipv6 ∷ []))
      (ipv4 8 8 8 8 ∷ public_ipv6 ∷ [])
    × ArePublic (ipv4 8 8 8 8 ∷ public_ipv6 ∷ [])
    × (0 < length (ipv4 8 8 8 8 ∷ public_ipv6 ∷ []))
resolve-ArePublic_example = resolve-ArePublic name _ _ two_answers_resolved
