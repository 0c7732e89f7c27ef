-- ===== src/Quota/Exact.antt =====
-- src/security.ts: over any sequence of operations the quota is kept, and used up, exactly.
use total_recall.Base.{
  ℕ, suc, ◌+◌, ◌≤◌, ◌≡◌, Bool, true, ◌&&◌, Option, none, some, List, [], ◌∷◌, String, str_eq,
  eq_iff, arith, ◌==◌, if◌then◌else◌, ok, err, min, Result-cases, Bool-cases, inl, inr,
}
use total_recall.Quota.Usage.{count_of, count_of-charge}
use total_recall.Quota.{
  no_usage, Limits, Tables, minute_start, day_start, charge_both, consume_on_client, serve,
  QuotaError, RateLimitResult,
}

-- The operations of a key in one window; `start` tells an instant's window.
pub tally : (ℕ → ℕ) → String → ℕ → List (String × ℕ) → ℕ
tally start key w [] = 0
tally start key w ((k, now) ∷ ops) =
    let rest = tally start key w ops in if str_eq k key && start now == w then suc rest else rest

-- What an admitted operation of the key `k` does to the count of `key` in the window `w`.
abbrev Admits : Bool → Bool → ℕ → ℕ → ℕ → Type 0
Admits same inside m before after =
    (after ≡ (if same && inside then suc before else before))
    × (same && inside ≡ true → suc before ≤ m)

consume-minute :
    (k : String) (limits : Limits) (now : ℕ) (t t' : Tables) (r : RateLimitResult) (key : String)
    (w m : ℕ)
    → (str_eq k key ≡ true → limits.per_minute ≡ some m)
    → consume_on_client k limits now t ≡ ok (t', r)
    → Admits
        (str_eq k key)
        (minute_start now == w)
        m
        (count_of key w t.minute_usage)
        (count_of key w t'.minute_usage)
unfolding consume_on_client charge_both
consume-minute k limits now t t' r key w m h e =
    ground (arith, count_of-charge k key (minute_start now) w t.minute_usage, eq_iff k key)

consume-day :
    (k : String) (limits : Limits) (now : ℕ) (t t' : Tables) (r : RateLimitResult) (key : String)
    (w m : ℕ)
    → (str_eq k key ≡ true → limits.per_day ≡ some m)
    → consume_on_client k limits now t ≡ ok (t', r)
    → Admits
        (str_eq k key)
        (day_start now == w)
        m
        (count_of key w t.daily_usage)
        (count_of key w t'.daily_usage)
unfolding consume_on_client charge_both
consume-day k limits now t t' r key w m h e =
    ground (arith, count_of-charge k key (day_start now) w t.daily_usage, eq_iff k key)

-- One kind of window, with the limit `m` of the key that is followed.
module _ (limits : String → Limits) (key : String) (w m : ℕ) (start : ℕ → ℕ) (used : Tables → ℕ)
    (admit : (k : String) (now : ℕ) (t t' : Tables) (r : RateLimitResult)
      → consume_on_client k (limits k) now t ≡ ok (t', r)
      → Admits (str_eq k key) (start now == w) m (used t) (used t')) where
  -- The count at the end is told by the operations admitted, and stays within the limit.
  Counted : Tables → Tables × List (String × ℕ) → Type 0
  Counted t (t', admitted) =
      (used t' ≡ used t + tally start key w admitted) × (used t ≤ m → used t' ≤ m)

  serve_counts : (t : Tables) (ops : List (String × ℕ)) → Counted t (serve limits t ops)
  unfolding serve Counted tally
  serve_counts t [] = (omega arith, λ h. h)
  serve_counts t ((k, now) ∷ ops) = elim (Result-cases (consume_on_client k (limits k) now t)) [
    | inr (e, h) ↦ rw (h, serve) (serve_counts t ops)
    | inl ((t', r), h) ↦
        let step = admit k now t t' r h in
        let rest = serve_counts t' ops in rw (h, serve) (ground arith)
  ]

premise :
    (limits : String → Limits) (k key : String) (f : Limits → Option ℕ) {m : ℕ}
    → f (limits key) ≡ some m
    → str_eq k key ≡ true
    → f (limits k) ≡ some m
premise limits k key f h e = let same = (eq_iff k key).0 e in rw same h

module _ (limits : String → Limits) (ops : List (String × ℕ)) (key : String) (m d : ℕ) where
  -- From empty tables, whatever keys operate and in whatever order, a key with both limits has in no
  -- minute and on no day more operations admitted than its limit for that window says.
  pub admitted_bounds :
      (v w : ℕ)
      → (limits key).per_minute ≡ some m
      → (limits key).per_day ≡ some d
      → (tally minute_start key v (serve limits no_usage ops).1 ≤ m)
        × (tally day_start key w (serve limits no_usage ops).1 ≤ d)
  admitted_bounds v w hm hd =
      let minutes =
        serve_counts limits key v m minute_start (λ t. count_of key v t.minute_usage)
          (λ k now t t' r.
            consume-minute k (limits k) now t t' r key v m
              (premise limits k key (λ l. l.per_minute) hm))
          no_usage ops in
      let days =
        serve_counts limits key w d day_start (λ t. count_of key w t.daily_usage)
          (λ k now t t' r.
            consume-day k (limits k) now t t' r key w d (premise limits k key (λ l. l.per_day) hd))
          no_usage ops in
      unfold Counted count_of in (omega arith, omega arith)

-- An operation is refused for its minute alone only when the minute is used up.
refused-minute :
    (k : String) (limits : Limits) (now : ℕ) (t : Tables) (x : QuotaError) (key : String) (w m : ℕ)
    → (str_eq k key ≡ true → limits.per_minute ≡ some m)
    → (str_eq k key ≡ true → limits.per_day ≡ none)
    → consume_on_client k limits now t ≡ err x
    → (str_eq k key && minute_start now == w) ≡ true
    → m ≤ count_of key w t.minute_usage
unfolding consume_on_client
refused-minute k limits now t x key w m h g e i = ground (arith, eq_iff k key)

module _ (limits : String → Limits) (key : String) (w m : ℕ) (hm : (limits key).per_minute ≡ some m)
    (hd : (limits key).per_day ≡ none) where
  used : Tables → ℕ
  used t = count_of key w t.minute_usage

  serve_exact :
      (t : Tables) (ops : List (String × ℕ))
      → used t ≤ m
      → used t + tally minute_start key w (serve limits t ops).1
        ≡ min m (used t + tally minute_start key w ops)
  unfolding serve tally used
  serve_exact t [] h = omega arith
  serve_exact t ((k, now) ∷ ops) h = elim (Result-cases (consume_on_client k (limits k) now t)) [
    | inr (x, e) ↦
        let full =
          refused-minute k (limits k) now t x key w m (premise limits k key (λ l. l.per_minute) hm)
            (none_premise k) e in
        let rest = serve_exact t ops h in
        rw (e, serve)
          (elim (Bool-cases (str_eq k key && minute_start now == w)) [
            | inl i ↦ let f = full i in rw i (omega arith)
            | inr o ↦ rw o rest
          ])
    | inl ((t', r), e) ↦
        let step =
          consume-minute k (limits k) now t t' r key w m
            (premise limits k key (λ l. l.per_minute) hm) e in
        let rest = serve_exact t' ops (ground arith) in
        rw (e, serve)
          (elim (Bool-cases (str_eq k key && minute_start now == w)) [
            | inl i ↦ rw i (ground arith)
            | inr o ↦ rw o (ground arith)
          ])
  ]
    where
      none_premise : (k : String) → str_eq k key ≡ true → (limits k).per_day ≡ none
      none_premise k e = let same = (eq_iff k key).0 e in rw same hd

module _ (limits : String → Limits) (ops : List (String × ℕ)) (key : String) (m : ℕ) where
  -- From empty tables, a key that is limited per minute alone has, in every minute, as many operations
  -- admitted as it makes or as its limit says, whichever is less; other keys' operations in between
  -- make no difference.
  pub admitted_exact :
      (w : ℕ)
      → (limits key).per_minute ≡ some m
      → (limits key).per_day ≡ none
      → tally minute_start key w (serve limits no_usage ops).1
        ≡ min m (tally minute_start key w ops)
  unfolding used count_of
  admitted_exact w hm hd =
      let all = serve_exact limits key w m hm hd no_usage ops (omega arith) in omega arith
