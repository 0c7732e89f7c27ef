-- ===== src/Watcher/Chunking/Tests.antt =====
-- Keys of sections of one file.
use total_recall.Base.{◌≡◌, refl, none, some, [], ◌∷◌, List, ◌++◌, ℕ, ok, err, codes}
use total_recall.Watcher.Chunking.{
  unpaired_h3, SectionPath, frame, frames, canonical, build_source_key,
}
use total_recall.Watcher.Chunking.Keys.{build_source_key-injective}

abbrev second_plan : SectionPath
second_plan = record {
  rel_path = codes "a.md";
  h2 = codes "## Plan";
  h2_occurrence = 2;
  h3 = none;
  h3_occurrence = none;
}

abbrev first_plan : SectionPath
first_plan = record second_plan { h2_occurrence = 1 }

abbrev same_bytes : List ℕ → List ℕ
same_bytes bytes = bytes

abbrev key_of_second : List ℕ
key_of_second =
    codes "file-sync:v2:file-sync-key"
    ++ 0 ∷ codes "v2"
    ++ 0 ∷ 1 ∷ 0 ∷ 0 ∷ 0 ∷ 4 ∷ codes "a.md"
    ++ 1 ∷ 0 ∷ 0 ∷ 0 ∷ 7 ∷ codes "## Plan"
    ++ 1 ∷ 0 ∷ 0 ∷ 0 ∷ 1 ∷ 50 ∷ 0 ∷ 0 ∷ 0 ∷ 0 ∷ 0 ∷ 0 ∷ 0 ∷ 0 ∷ 0 ∷ 0 ∷ []

second_key : build_source_key same_bytes second_plan ≡ ok key_of_second
unfolding build_source_key canonical frames frame
second_key = refl

build_source_key_tests :
    (build_source_key same_bytes first_plan ≡ ok (codes "file-sync:a.md:## Plan"))
    × (build_source_key same_bytes (record second_plan { h3_occurrence = some 1 })
        ≡ err unpaired_h3)
unfolding build_source_key
build_source_key_tests = (refl, refl)

build_source_key-injective_example : second_plan ≡ second_plan
build_source_key-injective_example =
    build_source_key-injective same_bytes second_plan second_plan key_of_second
      (λ x y e f same. same) refl refl second_key second_key
