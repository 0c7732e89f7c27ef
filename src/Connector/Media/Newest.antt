-- ===== src/Connector/Media/Newest.antt =====
-- src/connectors/base.ts: valid events have a newest cursor date.
mod Tests
use total_recall.Base.{
  ℕ, ◌+◌, ◌≤◌, ltb, ◌≡◌, ◌⊎◌, inl, inr, refl, Bool, true, false, Option, none, some, List, [], ◌∷◌,
  if◌then◌else◌, length, Occurs, All, Result, ok, err, arith, Bool-cases, Option-cases, sym, ap,
  ◌∙◌,
}
use total_recall.Connector.Media.{
  MediaEventInput, ValidDates, filter_valid_media_event_dates, newer, newest_from,
  select_newest_cursor_date, validate_media_event_dates, resolve_last_event_at,
}

-- `t` bounds the dates of the events that count for the cursor.
abbrev pub Bounds : Option ℕ → MediaEventInput → Type 0
Bounds none e = (e.played_at ≡ none) ⊎ (e.played_cursor_eligible ≡ false)
Bounds (some t) e =
    (e.played_cursor_eligible ≡ false) ⊎ ((d : ℕ) × (e.played_at ≡ some d) × (d ≤ t))

abbrev pub AtLeast : Option ℕ → Option ℕ → Type 0
AtLeast none t = Unit
AtLeast (some a) none = ⊥
AtLeast (some a) (some t) = a ≤ t

-- The date is the starting one or that of an event that counts.
abbrev pub Attained : Option ℕ → List MediaEventInput → Option ℕ → Type 0
Attained acc events t =
    (t ≡ acc)
    ⊎ ((e : MediaEventInput) × Occurs e events
        × (e.played_cursor_eligible ≡ true)
        × (e.played_at ≡ t))

newer-AtLeast :
    (acc : Option ℕ) (d : ℕ) (t : Option ℕ) (e : MediaEventInput)
    → e.played_at ≡ some d
    → AtLeast (newer acc d) t
    → AtLeast acc t × Bounds t e
newer-AtLeast none d none e h a = absurd (ground arith)
newer-AtLeast none d (some x) e h a = (tt, inr (d, h, ground arith))
newer-AtLeast (some b) d none e h a = absurd (ground arith)
newer-AtLeast (some b) d (some x) e h a = (ground arith, inr (d, h, ground arith))

AtLeast-Bounds :
    (t : Option ℕ) (e : MediaEventInput) → e.played_cursor_eligible ≡ false → Bounds t e
AtLeast-Bounds none e h = inr h
AtLeast-Bounds (some t) e h = inl h

newer-cases : (acc : Option ℕ) (d : ℕ) → (newer acc d ≡ acc) ⊎ (newer acc d ≡ some d)
newer-cases none d = inr refl
newer-cases (some a) d = ground arith

later-Attained :
    (acc : Option ℕ) (e : MediaEventInput) (events : List MediaEventInput) (t : Option ℕ)
    → Attained acc events t
    → Attained acc (e ∷ events) t
later-Attained acc e events t (inl h) = inl h
later-Attained acc e events t (inr (x, o, c, p)) = inr (x, inr o, c, p)

newer-Attained :
    (acc : Option ℕ) (d : ℕ) (e : MediaEventInput) (events : List MediaEventInput) (t : Option ℕ)
    → e.played_at ≡ some d
    → e.played_cursor_eligible ≡ true
    → Attained (newer acc d) events t
    → Attained acc (e ∷ events) t
newer-Attained acc d e events t h c (inr (x, o, c', p)) = inr (x, inr o, c', p)
newer-Attained acc d e events t h c (inl same) = elim (newer-cases acc d) [
  | inl old ↦ inl (same ∙ old)
  | inr new ↦ inr (e, inl refl, c, h ∙ sym new ∙ sym same)
]

filter_valid-absent :
    (e : MediaEventInput) (events : List MediaEventInput)
    → e.played_at ≡ none
    → (filter_valid_media_event_dates (e ∷ events)).events
      ≡ (filter_valid_media_event_dates events).events
unfolding filter_valid_media_event_dates
filter_valid-absent e events h = ground arith

filter_valid-present :
    (e : MediaEventInput) (events : List MediaEventInput) (d : ℕ)
    → e.played_at ≡ some d
    → (filter_valid_media_event_dates (e ∷ events)).events
      ≡ e ∷ (filter_valid_media_event_dates events).events
unfolding filter_valid_media_event_dates
filter_valid-present e events d h = ground arith

newest_from-present :
    (acc : Option ℕ) (e : MediaEventInput) (events : List MediaEventInput) (d : ℕ)
    → e.played_at ≡ some d
    → newest_from acc (e ∷ events)
      ≡ newest_from (if e.played_cursor_eligible then newer acc d else acc) events
unfolding newest_from
newest_from-present acc e events d h = ground arith

filter_valid-newest :
    (acc : Option ℕ) (events : List MediaEventInput)
    → let valid = (filter_valid_media_event_dates events).events in
      (t : Option ℕ) × (newest_from acc valid ≡ ok t)
      × AtLeast acc t
      × All (Bounds t) valid
      × Attained acc valid t
unfolding filter_valid_media_event_dates newest_from
filter_valid-newest none [] = (none, refl, tt, tt, inl refl)
filter_valid-newest (some a) [] = (some a, refl, omega arith, tt, inl refl)
filter_valid-newest acc (e ∷ events) =
    let valid = (filter_valid_media_event_dates events).events in
    elim (Option-cases e.played_at) [
      | inl absent ↦ rw (filter_valid-absent e events absent) (filter_valid-newest acc events)
      | inr (d, h) ↦ elim (Bool-cases e.played_cursor_eligible) [
        | inl counts ↦
            let (t, run, a, bounds, attained) = filter_valid-newest (newer acc d) events in
            let (b, first) = newer-AtLeast acc d t e h a in
            rw (filter_valid-present e events d h) (
              t,
              newest_from-present acc e valid d h
                  ∙ ap (λ c. newest_from (if c then newer acc d else acc) valid) counts
                  ∙ run,
              b,
              (first, bounds),
              newer-Attained acc d e (filter_valid_media_event_dates events).events t h counts
                  attained,
            )
        | inr ignored ↦
            let (t, run, a, bounds, attained) = filter_valid-newest acc events in
            rw (filter_valid-present e events d h) (
              t,
              newest_from-present acc e valid d h
                  ∙ ap (λ c. newest_from (if c then newer acc d else acc) valid) ignored
                  ∙ run,
              a,
              (AtLeast-Bounds t e ignored, bounds),
              later-Attained acc e (filter_valid_media_event_dates events).events t attained,
            )
      ]
    ]

validate-present :
    (e : MediaEventInput) (events : List MediaEventInput) (d : ℕ)
    → e.played_at ≡ some d
    → validate_media_event_dates (e ∷ events) ≡ validate_media_event_dates events
unfolding validate_media_event_dates
validate-present e events d h = ground arith

validate-filter_valid :
    (events : List MediaEventInput)
    → validate_media_event_dates (filter_valid_media_event_dates events).events ≡ ok tt
unfolding validate_media_event_dates
validate-filter_valid [] = unfold filter_valid_media_event_dates in refl
validate-filter_valid (e ∷ events) =
    let valid = (filter_valid_media_event_dates events).events in
    elim (Option-cases e.played_at) [
      | inl absent ↦ rw (filter_valid-absent e events absent) (validate-filter_valid events)
      | inr (d, h) ↦
          rw (filter_valid-present e events d h)
            (validate-present e valid d h ∙ validate-filter_valid events)
    ]

-- What `resolveLastEventAt` makes of the newest date.
abbrev pub or_since : Option ℕ → Option ℕ → Option ℕ
or_since since none = since
or_since since (some t) = some t

-- On the events that pass the filter, the time of the last event is found without an error: it is the
-- date of one of those that count for the cursor and none of them is later, or it is `since` if none
-- counts; and where it is not to be advanced, it is `since`.
pub resolve_last_event_at-filter_valid :
    (events : List MediaEventInput) (since : Option ℕ)
    → let valid = (filter_valid_media_event_dates events).events in
      ((t : Option ℕ) × (resolve_last_event_at valid since true ≡ ok (or_since since t))
        × All (Bounds t) valid
        × Attained none valid t)
      × (resolve_last_event_at valid since false ≡ ok since)
unfolding resolve_last_event_at
resolve_last_event_at-filter_valid events since =
    let (t, run, _, bounds, attained) = filter_valid-newest none events in
    (
      (t, rw run (elim t [ none ↦ refl | some x ↦ refl ]), bounds, attained),
      rw (validate-filter_valid events) refl,
    )
