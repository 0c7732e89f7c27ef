-- ===== src/Limits.antt =====
-- src/http-limits.ts: the budget of a memory's metadata. A value of JSON.parse has no cycles, so the
-- check for them never fires; the length of the serialised text is an argument.
pub mod Metrics
mod Tests
use total_recall.Base.{
  ℕ, suc, ◌+◌, ◌*◌, max, ltb, Bool, true, false, not, ◌||◌, ◌&&◌, String, str_eq, if◌then◌else◌,
}

mutual
  pub data Json : Type 0 where
    scalar : Json
    array : Items → Json
    object : Fields → Json

  pub data Items : Type 0 where
    nil : Items
    cons : Json → Items → Items

  pub data Fields : Type 0 where
    end : Fields
    field : String → Json → Fields → Fields

pub record MetadataMetrics : Type 0 where
  pub depth : ℕ
  pub keys : ℕ

-- `entries.length`
abbrev pub count_fields : Fields → ℕ
count_fields end = 0
count_fields (field name j fs) = suc (count_fields fs)

-- `visit` and its two loops, with `maxDepth` and `keys` as accumulators.
unfoldable mutual
  pub visit : Json → ℕ → MetadataMetrics
  visit scalar depth = record { depth = depth; keys = 0 }
  visit (array xs) depth = visit_items xs depth depth 0
  visit (object fs) depth = visit_fields fs depth depth (count_fields fs)

  pub visit_items : Items → ℕ → ℕ → ℕ → MetadataMetrics
  visit_items nil depth deepest keys = record { depth = deepest; keys = keys }
  visit_items (cons j xs) depth deepest keys =
      let m = visit j (depth + 1) in visit_items xs depth (max deepest m.depth) (keys + m.keys)

  pub visit_fields : Fields → ℕ → ℕ → ℕ → MetadataMetrics
  visit_fields end depth deepest keys = record { depth = deepest; keys = keys }
  visit_fields (field name j fs) depth deepest keys =
      let m = visit j (depth + 1) in visit_fields fs depth (max deepest m.depth) (keys + m.keys)

unfoldable pub metadata_metrics : Json → MetadataMetrics
metadata_metrics j = visit j 0

abbrev pub is_object : Json → Bool
is_object (object fs) = true
is_object _ = false

module _ (serialized_bytes : Json → ℕ) where
  -- `metadataSchema`, whose first check is that the value is an object.
  unfoldable pub metadata_schema : Json → Bool
  metadata_schema j =
      is_object j
      && not (
          ltb (64 * 1_024) (serialized_bytes j)
          || (ltb 16 (metadata_metrics j).depth || ltb 1_000 (metadata_metrics j).keys))

  -- The entry `metadata` of the request; of two entries with one name JSON.parse leaves the last.
  unfoldable pub validate_fields : Fields → Bool
  validate_fields end = true
  validate_fields (field name j fs) =
      if str_eq name "metadata" then metadata_schema j else validate_fields fs

  unfoldable pub validate_metadata_in_request : Json → Bool
  validate_metadata_in_request scalar = true
  validate_metadata_in_request (array xs) = true
  validate_metadata_in_request (object fs) = validate_fields fs
