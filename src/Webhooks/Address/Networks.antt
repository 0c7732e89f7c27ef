-- ===== src/Webhooks/Address/Networks.antt =====
-- src/webhooks.ts: the blocked addresses as networks, and destinations outside of them.
use total_recall.Base.{
  ℕ, ◌+◌, ◌-◌, ◌*◌, ◌/◌, ◌%◌, ◌^◌, ◌<◌, ◌==◌, leb, ◌≡◌, refl, sym, ap, subst, ◌∙◌, Bool, false,
  ◌&&◌, ◌||◌, List, [], ◌∷◌, any, All, Result, ok, err, arith, Result-cases, inl, inr, length,
  length-map, map,
}
use total_recall.Webhooks.Address.{
  Address, ipv4, ipv6, is_blocked_ipv4, is_blocked, DestinationError, Host, literal, name, Answer,
  address, other_family, check_answers, resolve_webhook_destination,
}

-- The address as a number of 32 bits, and a network by its own and the length of its prefix.
abbrev pub number4 : ℕ → ℕ → ℕ → ℕ → ℕ
number4 a b c d = a * 2 ^ 24 + b * 2 ^ 16 + c * 2 ^ 8 + d

abbrev pub in_network : ℕ → ℕ × ℕ → Bool
in_network n (base, bits) = n / 2 ^ (32 - bits) == base / 2 ^ (32 - bits)

abbrev pub blocked_networks : List (ℕ × ℕ)
blocked_networks =
    (number4 0 0 0 0, 8)
    ∷ (number4 10 0 0 0, 8)
    ∷ (number4 127 0 0 0, 8)
    ∷ (number4 224 0 0 0, 3)
    ∷ (number4 100 64 0 0, 10)
    ∷ (number4 169 254 0 0, 16)
    ∷ (number4 172 16 0 0, 12)
    ∷ (number4 192 168 0 0, 16)
    ∷ (number4 192 0 0 0, 24)
    ∷ (number4 192 0 2 0, 24)
    ∷ (number4 198 18 0 0, 15)
    ∷ (number4 198 51 100 0, 24)
    ∷ (number4 203 0 113 0, 24)
    ∷ []

regroup :
    (t1 t2 t3 t4 t5 t6 t7 t8 t9 t10 x p q r t13 : Bool)
    → (t1
        || (t2
            || (t3
                || (t4
                    || (t5
                        || (t6
                            || (t7
                                || (t8 || (t9 || (t10 || ((x && (p || (q || r))) || t13)))))))))))
      ≡ (t1
          || (t2
              || (t3
                  || (t4
                      || (t5
                          || (t6
                              || (t7
                                  || (t8
                                      || (t9
                                          || (t10
                                              || ((x && (p || q))
                                                  || ((x && r) || (t13 || false)))))))))))))
regroup t1 t2 t3 t4 t5 t6 t7 t8 t9 t10 x p q r t13 = ground arith

module _ (a b c d : ℕ) (ha : a < 256) (hb : b < 256) (hc : c < 256) (hd : d < 256) where
  abbrev n : ℕ
  n = number4 a b c d

  prefixes :
      (n / 2 ^ 24 ≡ a)
      × (n / 2 ^ 29 ≡ a / 32)
      × (n / 2 ^ 22 ≡ a * 4 + b / 64)
      × (n / 2 ^ 16 ≡ a * 256 + b)
      × (n / 2 ^ 20 ≡ a * 16 + b / 16)
      × (n / 2 ^ 17 ≡ a * 128 + b / 2)
      × (n / 2 ^ 8 ≡ a * 65536 + b * 256 + c)
  prefixes = omega (arith, ha, hb, hc, hd)

  this_network : in_network n (number4 0 0 0 0, 8) ≡ (a == 0)
  this_network = let (p24, p29, p22, p16, p20, p17, p8) = prefixes in ground (arith, p24)

  private_a : in_network n (number4 10 0 0 0, 8) ≡ (a == 10)
  private_a = let (p24, p29, p22, p16, p20, p17, p8) = prefixes in ground (arith, p24)

  loopback : in_network n (number4 127 0 0 0, 8) ≡ (a == 127)
  loopback = let (p24, p29, p22, p16, p20, p17, p8) = prefixes in ground (arith, p24)

  multicast : in_network n (number4 224 0 0 0, 3) ≡ (leb 224 a)
  multicast = let (p24, p29, p22, p16, p20, p17, p8) = prefixes in ground (arith, p29)

  shared : in_network n (number4 100 64 0 0, 10) ≡ (a == 100 && (leb 64 b && leb b 127))
  shared = let (p24, p29, p22, p16, p20, p17, p8) = prefixes in ground (arith, p22)

  link_local : in_network n (number4 169 254 0 0, 16) ≡ (a == 169 && b == 254)
  link_local = let (p24, p29, p22, p16, p20, p17, p8) = prefixes in ground (arith, p16)

  private_b : in_network n (number4 172 16 0 0, 12) ≡ (a == 172 && (leb 16 b && leb b 31))
  private_b = let (p24, p29, p22, p16, p20, p17, p8) = prefixes in ground (arith, p20)

  private_c : in_network n (number4 192 168 0 0, 16) ≡ (a == 192 && b == 168)
  private_c = let (p24, p29, p22, p16, p20, p17, p8) = prefixes in ground (arith, p16)

  protocols : in_network n (number4 192 0 0 0, 24) ≡ (a == 192 && (b == 0 && c == 0))
  protocols = let (p24, p29, p22, p16, p20, p17, p8) = prefixes in ground (arith, p8)

  documentation_1 : in_network n (number4 192 0 2 0, 24) ≡ (a == 192 && (b == 0 && c == 2))
  documentation_1 = let (p24, p29, p22, p16, p20, p17, p8) = prefixes in ground (arith, p8)

  benchmarks : in_network n (number4 198 18 0 0, 15) ≡ (a == 198 && (b == 18 || b == 19))
  benchmarks = let (p24, p29, p22, p16, p20, p17, p8) = prefixes in ground (arith, p17)

  documentation_2 : in_network n (number4 198 51 100 0, 24) ≡ (a == 198 && (b == 51 && c == 100))
  documentation_2 = let (p24, p29, p22, p16, p20, p17, p8) = prefixes in ground (arith, p8)

  documentation_3 : in_network n (number4 203 0 113 0, 24) ≡ (a == 203 && (b == 0 && c == 113))
  documentation_3 = let (p24, p29, p22, p16, p20, p17, p8) = prefixes in ground (arith, p8)

  mapped : is_blocked (ipv6 (0xffff * 2 ^ 32 + n)) ≡ is_blocked_ipv4 a b c
  unfolding is_blocked
  mapped =
      let high : (0xffff * 2 ^ 32 + n) / 2 ^ 32 ≡ 0xffff = omega (arith, ha, hb, hc, hd) in
      let first : (0xffff * 2 ^ 32 + n) % 2 ^ 32 / 2 ^ 24 ≡ a = omega (arith, ha, hb, hc, hd) in
      let second : (0xffff * 2 ^ 32 + n) % 2 ^ 32 / 2 ^ 16 % 256 ≡ b =
        omega (arith, ha, hb, hc, hd) in
      let third : (0xffff * 2 ^ 32 + n) % 2 ^ 32 / 2 ^ 8 % 256 ≡ c =
        omega (arith, ha, hb, hc, hd) in
      rw (high, first, second, third) refl

  is_blocked_ipv4-in_network : is_blocked_ipv4 a b c ≡ any (in_network n) blocked_networks
  unfolding is_blocked_ipv4
  is_blocked_ipv4-in_network =
      simp
        (
          this_network, private_a, loopback, multicast, shared, link_local, private_b, private_c,
          protocols, documentation_1, benchmarks, documentation_2, documentation_3,
        )
        (regroup (a == 0) (a == 10) (a == 127) (leb 224 a) (a == 100 && (leb 64 b && leb b 127))
          (a == 169 && b == 254) (a == 172 && (leb 16 b && leb b 31)) (a == 192 && b == 168)
          (a == 192 && (b == 0 && c == 0)) (a == 192 && (b == 0 && c == 2)) (a == 198) (b == 18)
          (b == 19) (b == 51 && c == 100) (a == 203 && (b == 0 && c == 113)))

  -- An IPv4 address, by itself or mapped into IPv6 (::ffff:a.b.c.d), is refused exactly where it lies
  -- in one of thirteen networks: this network, loopback, private, shared, link-local, protocol,
  -- documentation and benchmark addresses, and multicast with all above it.
  pub is_blocked-in_network :
      (is_blocked (ipv4 a b c d) ≡ any (in_network n) blocked_networks)
      × (is_blocked (ipv6 (0xffff * 2 ^ 32 + n)) ≡ any (in_network n) blocked_networks)
  unfolding is_blocked
  is_blocked-in_network = (is_blocked_ipv4-in_network, mapped ∙ is_blocked_ipv4-in_network)

-- Each address to connect to is one that assertPublicAddress lets pass.
abbrev pub ArePublic : List Address → Type 0
ArePublic = All (λ a. is_blocked a ≡ false)

-- The destination's addresses, all of them: a literal's own, or one for each of the resolver's answers.
abbrev pub AreAnswers : Host → Result DestinationError (List Answer) → List Address → Type 0
AreAnswers (literal a) looked_up addresses = addresses ≡ a ∷ []
AreAnswers name looked_up addresses = looked_up ≡ ok (map address addresses)

check_answers-ArePublic :
    (answers : List Answer) (addresses : List Address)
    → check_answers answers ≡ ok addresses
    → ArePublic addresses × (answers ≡ map address addresses)
unfolding check_answers
check_answers-ArePublic [] addresses e =
    let nothing : addresses ≡ [] = ground arith in
    subst (λ found. ArePublic found × ([] ≡ map address found)) (sym nothing) (tt, refl)
check_answers-ArePublic (other_family ∷ answers) addresses e = absurd (ground arith)
check_answers-ArePublic (address a ∷ answers) addresses e =
    elim (Result-cases (check_answers answers)) [
      | inl (rest, found) ↦
          let (public, all_of_them) = check_answers-ArePublic answers rest found in
          let open_to_all : is_blocked a ≡ false = ground arith in
          let first : addresses ≡ a ∷ rest = ground arith in
          subst (λ found. ArePublic found × (address a ∷ answers ≡ map address found)) (sym first)
            ((open_to_all, public), ap (λ l. address a ∷ l) all_of_them)
      | inr (x, failed) ↦ absurd (ground arith)
    ]

-- A destination resolves only to public addresses, and to one at least: to the literal itself, or to
-- the addresses of all answers of the resolver, in their order; one private answer among them, or one
-- of another family, refuses all.
pub resolve-ArePublic :
    (host : Host) (looked_up : Result DestinationError (List Answer)) (addresses : List Address)
    → resolve_webhook_destination host looked_up ≡ ok addresses
    → AreAnswers host looked_up addresses × ArePublic addresses × (0 < length addresses)
unfolding resolve_webhook_destination
resolve-ArePublic (literal a) looked_up addresses e =
    let open_to_all : is_blocked a ≡ false = ground arith in
    let only : addresses ≡ a ∷ [] = ground arith in
    let public = subst ArePublic (sym only) (open_to_all, tt) in
    (only, public, omega (arith, ap length only))
resolve-ArePublic name (err x) addresses e = absurd (ground arith)
resolve-ArePublic name (ok []) addresses e = absurd (ground arith)
resolve-ArePublic name (ok (a ∷ answers)) addresses e =
    let (public, all_of_them) = check_answers-ArePublic (a ∷ answers) addresses e in
    let counted = ap length all_of_them ∙ length-map address addresses in
    (ap ok all_of_them, public, omega (arith, counted))
