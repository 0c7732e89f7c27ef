-- ===== src/Memory/Update/Links.antt =====
-- src/tools/update.ts: which belief replaces which, through an update, and the search for a cycle.
use total_recall.Base.{
  ℕ, zero, suc, ◌≡◌, subst, true, ◌⊎◌, inl, inr, some, List, [], ◌∷◌, String, str_eq, eq_iff, arith,
  Occurs, count_where, count_where_none, Bool-cases,
}
use total_recall.Memory.Beliefs.{BeliefRow, has_id, HasPrimaryKey}
use total_recall.Memory.Patch.{row_of, finds_cycle}

-- The row with the id a replaces the one with the id b.
abbrev pub Links : List BeliefRow → String → String → Type 0
Links rows a b = (r : BeliefRow) × Occurs r rows × (r.id ≡ a) × (r.supersedes_id ≡ some b)

-- From one id to another, over any number of links.
pub data Reaches (L : String → String → Type 0) : String → String → Type 0 where
  here : (a : String) → Reaches L a a
  onward : (a b c : String) → L a b → Reaches L b c → Reaches L a c

-- No belief replaces itself, however many others lie between.
abbrev pub IsAcyclic : List BeliefRow → Type 0
IsAcyclic rows = (a b : String) → Links rows a b → ¬ Reaches (Links rows) b a

row_of_lem :
    (rows : List BeliefRow) (r : BeliefRow)
    → HasPrimaryKey rows
    → Occurs r rows
    → row_of r.id rows ≡ some r
unfolding row_of
row_of_lem [] r key o = absurd o
row_of_lem (m ∷ rows) r key (inl same) = ground (arith, eq_iff m.id r.id)
row_of_lem (m ∷ rows) r key (inr o) = elim (Bool-cases (str_eq m.id r.id)) [
  | inl hit ↦
      let none_left : count_where (has_id r.id) rows ≡ 0 = ground (arith, key r.id) in
      let missed = count_where_none (has_id r.id) rows r none_left o in
      absurd (ground (arith, eq_iff r.id r.id))
  | inr other ↦
      let tail : HasPrimaryKey rows = λ id. ground (arith, key id) in
      ground (arith, row_of_lem rows r tail o)
]

found_at :
    (rows : List BeliefRow) (r : BeliefRow) (a : String)
    → HasPrimaryKey rows
    → Occurs r rows
    → r.id ≡ a
    → row_of a rows ≡ some r
found_at rows r a key o e =
    subst (λ (y : String). row_of y rows ≡ some r) e (row_of_lem rows r key o)

-- The search meets a target that the start reaches.
pub finds_cycle-reached :
    (rows : List BeliefRow) (n : ℕ) (t : BeliefRow) (a x : String)
    → HasPrimaryKey rows
    → Occurs t rows
    → t.id ≡ x
    → Reaches (Links rows) a x
    → finds_cycle rows x n a ≡ true
unfolding finds_cycle
finds_cycle-reached rows zero t a _ key o e (here _) = rw (found_at rows t a key o e)
finds_cycle-reached rows (suc n) t a _ key o e (here _) =
    let found = found_at rows t a key o e in ground (arith, eq_iff t.id a)
finds_cycle-reached rows zero t a x key o e (onward _ b _ (r, p, same, up) path) =
    rw (found_at rows r a key p same)
finds_cycle-reached rows (suc n) t a x key o e (onward _ b _ (r, p, same, up) path) =
    let found = found_at rows r a key p same in
    ground (arith, finds_cycle-reached rows n t b x key o e path)

trans_reach :
    (L : String → String → Type 0) (a b c : String) → Reaches L a b → Reaches L b c → Reaches L a c
trans_reach L a _ c (here _) q = q
trans_reach L a b c (onward _ d _ link p) q = onward a d c link (trans_reach L d b c p q)

-- What is added to a relation: one link.
abbrev Adds : (String → String → Type 0) → (String → String → Type 0) → String → String → Type 0
Adds L L' x y = (a b : String) → L' a b → L a b ⊎ ((a ≡ x) × (b ≡ y))

Reaches-Adds :
    (L L' : String → String → Type 0) (x y a b : String)
    → Adds L L' x y
    → Reaches L' a b
    → Reaches L a b ⊎ Reaches L a x × Reaches L y b ⊎ Reaches L y x
Reaches-Adds L L' x y a _ h (here _) = inl (here a)
Reaches-Adds L L' x y a b h (onward _ c _ link path) = elim (h a c link) [
  | inl old ↦ elim (Reaches-Adds L L' x y c b h path) [
    | inl whole ↦ inl (onward a c b old whole)
    | inr (inl (up, down)) ↦ inr (inl (onward a c x old up, down))
    | inr (inr round) ↦ inr (inr round)
  ]
  | inr (is_x, is_y) ↦
      let start : Reaches L a x = subst (Reaches L a) is_x (here a) in
      elim (Reaches-Adds L L' x y c b h path) [
        | inl whole ↦ inr (inl (start, subst (λ z. Reaches L z b) is_y whole))
        | inr (inl (up, down)) ↦ inr (inr (subst (λ z. Reaches L z x) is_y up))
        | inr (inr round) ↦ inr (inr round)
      ]
]

-- A link whose end does not reach its start makes no cycle.
pub Adds-acyclic :
    (L L' : String → String → Type 0) (x y : String)
    → Adds L L' x y
    → ¬ Reaches L y x
    → ((a b : String) → L a b → ¬ Reaches L b a)
    → (a b : String) → L' a b
    → ¬ Reaches L' b a
Adds-acyclic L L' x y h open_end old a b link path = elim (Reaches-Adds L L' x y b a h path) [
  | inl whole ↦ elim (h a b link) [
    | inl kept ↦ old a b kept whole
    | inr (is_x, is_y) ↦ open_end (subst (λ z. Reaches L z x) is_y (subst (Reaches L b) is_x whole))
  ]
  | inr (inl (up, down)) ↦ elim (h a b link) [
    | inl kept ↦ open_end (trans_reach L y a x down (onward a b x kept up))
    | inr (is_x, is_y) ↦ open_end (subst (λ z. Reaches L z x) is_y up)
  ]
  | inr (inr round) ↦ open_end round
]

pub sub-acyclic :
    (L L' : String → String → Type 0)
    → ((a b : String) → L' a b → L a b)
    → ((a b : String) → L a b → ¬ Reaches L b a)
    → (a b : String) → L' a b
    → ¬ Reaches L' b a
sub-acyclic L L' h old a b link path = old a b (h a b link) (kept b a path)
  where
    kept : (a b : String) → Reaches L' a b → Reaches L a b
    kept a _ (here _) = here a
    kept a b (onward _ c _ e p) = onward a c b (h a c e) (kept c b p)
