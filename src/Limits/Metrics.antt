-- ===== src/Limits/Metrics.antt =====
-- src/http-limits.ts: the metrics are the depth and the number of keys.
use total_recall.Base.{ℕ, ◌+◌, ◌≤◌, max, ◌≡◌, ◌↔◌, refl, true, arith}
use total_recall.Limits.{
  Json, scalar, array, object, Items, nil, cons, Fields, end, field, count_fields, visit,
  visit_items, visit_fields, metadata_metrics, is_object, metadata_schema,
}

-- How many levels of nesting are below a value, and how many keys all its objects have.
unfoldable mutual
  pub depth_of : Json → ℕ
  depth_of scalar = 0
  depth_of (array xs) = depth_of_items xs
  depth_of (object fs) = depth_of_fields fs

  pub depth_of_items : Items → ℕ
  depth_of_items nil = 0
  depth_of_items (cons j xs) = max (1 + depth_of j) (depth_of_items xs)

  pub depth_of_fields : Fields → ℕ
  depth_of_fields end = 0
  depth_of_fields (field name j fs) = max (1 + depth_of j) (depth_of_fields fs)

unfoldable mutual
  pub keys_of : Json → ℕ
  keys_of scalar = 0
  keys_of (array xs) = keys_of_items xs
  keys_of (object fs) = keys_of_fields fs

  pub keys_of_items : Items → ℕ
  keys_of_items nil = 0
  keys_of_items (cons j xs) = keys_of j + keys_of_items xs

  pub keys_of_fields : Fields → ℕ
  keys_of_fields end = 0
  keys_of_fields (field name j fs) = 1 + keys_of j + keys_of_fields fs

-- The keys below the fields themselves.
abbrev inner_keys : Fields → ℕ
inner_keys end = 0
inner_keys (field name j fs) = keys_of j + inner_keys fs

inner_keys-count : (fs : Fields) → count_fields fs + inner_keys fs ≡ keys_of_fields fs
unfolding keys_of_fields
inner_keys-count end = omega arith
inner_keys-count (field name j fs) = omega (arith, inner_keys-count fs)

mutual
  unfolding visit visit_items visit_fields depth_of depth_of_items depth_of_fields keys_of
      keys_of_items

  visit_lem :
      (j : Json) (d : ℕ) → ((visit j d).depth ≡ d + depth_of j) × ((visit j d).keys ≡ keys_of j)
  visit_lem scalar d = (omega arith, refl)
  visit_lem (array xs) d =
      let (a, b) = visit_items_lem xs d d 0 (omega arith) in (omega (arith, a), omega (arith, b))
  visit_lem (object fs) d =
      let (a, b) = visit_fields_lem fs d d (count_fields fs) (omega arith) in
      (omega (arith, a), omega (arith, b, inner_keys-count fs))

  visit_items_lem :
      (xs : Items) (d deepest k : ℕ)
      → d ≤ deepest
      → ((visit_items xs d deepest k).depth ≡ (max deepest (d + depth_of_items xs)))
        × ((visit_items xs d deepest k).keys ≡ k + keys_of_items xs)
  visit_items_lem nil d deepest k h = (omega (arith, h), omega arith)
  visit_items_lem (cons j xs) d deepest k h =
      let (a, b) = visit_lem j (d + 1) in
      let (a', b') =
        visit_items_lem xs d (max deepest (visit j (d + 1)).depth) (k + (visit j (d + 1)).keys)
          (omega (arith, h)) in
      (omega (arith, a, a', h), omega (arith, b, b'))

  visit_fields_lem :
      (fs : Fields) (d deepest k : ℕ)
      → d ≤ deepest
      → ((visit_fields fs d deepest k).depth ≡ max deepest (d + depth_of_fields fs))
        × ((visit_fields fs d deepest k).keys ≡ k + inner_keys fs)
  visit_fields_lem end d deepest k h = (omega (arith, h), omega arith)
  visit_fields_lem (field name j fs) d deepest k h =
      let (a, b) = visit_lem j (d + 1) in
      let (a', b') =
        visit_fields_lem fs d (max deepest (visit j (d + 1)).depth) (k + (visit j (d + 1)).keys)
          (omega (arith, h)) in
      (omega (arith, a, a', h), omega (arith, b, b'))

-- Metadata is accepted exactly if it is an object of at most 65536 serialised bytes that is nested at
-- most 16 levels deep and has at most 1000 keys in all.
pub metadata_schema_iff :
    (serialized_bytes : Json → ℕ) (j : Json)
    → (metadata_schema serialized_bytes j ≡ true)
      ↔ (is_object j ≡ true)
        × (serialized_bytes j ≤ 65_536)
        × (depth_of j ≤ 16)
        × (keys_of j ≤ 1_000)
unfolding metadata_schema metadata_metrics
metadata_schema_iff serialized_bytes j = let (a, b) = visit_lem j 0 in ground (arith, a, b)
