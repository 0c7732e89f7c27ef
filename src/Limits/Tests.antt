-- ===== src/Limits/Tests.antt =====
-- Metadata with a list of objects.
use total_recall.Base.{◌≤◌, ◌≡◌, ◌↔◌, refl, true}
use total_recall.Limits.{
  Json, scalar, array, object, nil, cons, end, field, visit, visit_items, visit_fields,
  metadata_metrics, is_object, metadata_schema, validate_fields, validate_metadata_in_request,
}
use total_recall.Limits.Metrics.{depth_of, keys_of, metadata_schema_iff}

abbrev metadata : Json
metadata =
    object (field "a" (array (cons (object (field "b" scalar end)) nil)) (field "c" scalar end))

metrics : metadata_metrics metadata ≡ record { depth = 3; keys = 3 }
unfolding metadata_metrics visit visit_items visit_fields
metrics = refl

other_slots : validate_metadata_in_request (λ _. 70_000) (object (field "x" metadata end)) ≡ true
unfolding validate_metadata_in_request validate_fields
other_slots = refl

metadata_schema_iff_example :
    (metadata_schema (λ _. 40) metadata ≡ true)
    ↔ (is_object metadata ≡ true)
      × (40 ≤ 65_536)
      × (depth_of metadata ≤ 16)
      × (keys_of metadata ≤ 1_000)
metadata_schema_iff_example = metadata_schema_iff (λ _. 40) metadata
