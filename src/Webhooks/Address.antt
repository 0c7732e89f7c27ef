-- ===== src/Webhooks/Address.antt =====
-- src/webhooks.ts: the addresses that a webhook may reach. An address is given by its numbers: the
-- parsing of its text by the platform (net.isIP) and by ipv6ToBigInt comes before.
mod Networks
mod Tests
use total_recall.Base.{
  ℕ, ◌-◌, ◌*◌, ◌/◌, ◌%◌, ◌^◌, ◌==◌, leb, Bool, true, false, ◌&&◌, ◌||◌, List, [], ◌∷◌,
  if◌then◌else◌, Result, ok, err,
}

pub data Address : Type 0 where
  ipv4 : ℕ → ℕ → ℕ → ℕ → Address
  ipv6 : ℕ → Address

unfoldable pub is_blocked_ipv4 : ℕ → ℕ → ℕ → Bool
is_blocked_ipv4 a b c =
    a == 0
    || (a == 10
        || (a == 127
            || (leb 224 a
                || ((a == 100 && (leb 64 b && leb b 127))
                    || ((a == 169 && b == 254)
                        || ((a == 172 && (leb 16 b && leb b 31))
                            || ((a == 192 && b == 168)
                                || ((a == 192 && (b == 0 && c == 0))
                                    || ((a == 192 && (b == 0 && c == 2))
                                        || ((a == 198
                                              && (b == 18 || (b == 19 || (b == 51 && c == 100))))
                                            || (a == 203 && (b == 0 && c == 113))))))))))))

-- `(value >> BigInt(128 - bits)) === (prefix >> BigInt(128 - bits))`
abbrev pub in_prefix : ℕ → ℕ → ℕ → Bool
in_prefix value prefix bits = value / 2 ^ (128 - bits) == prefix / 2 ^ (128 - bits)

unfoldable pub is_blocked_ipv6 : ℕ → Bool
is_blocked_ipv6 value =
    value == 0
    || (value == 1
        || (value / 2 ^ 32 == 0
            || (in_prefix value (0x0100 * 2 ^ 112) 64
                || (in_prefix value (0xfc00 * 2 ^ 112) 7
                    || (in_prefix value (0xfe80 * 2 ^ 112) 10
                        || (in_prefix value (0xff00 * 2 ^ 112) 8
                            || (in_prefix value (0x2001 * 2 ^ 112) 23
                                || (in_prefix value (0x2001_0db8 * 2 ^ 96) 32
                                    || (in_prefix value (0x3fff * 2 ^ 112) 20
                                        || (in_prefix value (0x0064_ff9b * 2 ^ 96) 96
                                            || (in_prefix value (0x0064_ff9b_0001 * 2 ^ 80) 48
                                                || in_prefix value (0x2002 * 2 ^ 112) 16)))))))))))

-- Whether assertPublicAddress throws. An IPv4 address within IPv6 is judged as what it is.
unfoldable pub is_blocked : Address → Bool
unfolding is_blocked_ipv4 is_blocked_ipv6
is_blocked (ipv4 a b c d) = is_blocked_ipv4 a b c
is_blocked (ipv6 value) =
    if value / 2 ^ 32 == 0xffff
    then is_blocked_ipv4 (value % 2 ^ 32 / 2 ^ 24) (value % 2 ^ 32 / 2 ^ 16 % 256)
        (value % 2 ^ 32 / 2 ^ 8 % 256)
    else is_blocked_ipv6 value

pub data DestinationError : Type 0 where
  not_public unresolved no_records unsupported_family : DestinationError

-- A host of a URL that normalizeWebhookUrl lets pass.
pub data Host : Type 0 where
  literal : Address → Host
  name : Host

-- An answer of the resolver, of one of the two families or of another.
pub data Answer : Type 0 where
  address : Address → Answer
  other_family : Answer

unfoldable pub check_answers : List Answer → Result DestinationError (List Address)
unfolding is_blocked
check_answers [] = ok []
check_answers (other_family ∷ answers) = err unsupported_family
check_answers (address a ∷ answers) =
    let rest = check_answers answers in
    if is_blocked a
    then err not_public
    else elim rest [ err e ↦ err e | ok addresses ↦ ok (a ∷ addresses) ]

abbrev pub nonempty_answers : List Answer → Result DestinationError (List Address)
nonempty_answers [] = err no_records
nonempty_answers (a ∷ answers) = check_answers (a ∷ answers)

-- The addresses to connect to; the lookup fails or answers.
unfoldable pub resolve_webhook_destination :
    Host → Result DestinationError (List Answer) → Result DestinationError (List Address)
unfolding check_answers
resolve_webhook_destination (literal a) looked_up =
    if is_blocked a then err not_public else ok (a ∷ [])
resolve_webhook_destination name (err e) = err unresolved
resolve_webhook_destination name (ok answers) = nonempty_answers answers
