-- ===== src/Config/Tests.antt =====
-- Values of HNSW_EF_SEARCH inside and outside its range.
use total_recall.Base.{◌≡◌, refl, none, some, ok, err, decimal?}
use total_recall.Connector.Attribution.{trim_start, trim_end}
use total_recall.Config.{not_in_range, parse_hnsw_ef_search}

ef_search_tests :
    (parse_hnsw_ef_search none ≡ ok 200)
    × (parse_hnsw_ef_search (some " 120 ") ≡ ok 120)
    × (parse_hnsw_ef_search (some "012") ≡ err not_in_range)
    × (parse_hnsw_ef_search (some "1001") ≡ err not_in_range)
unfolding parse_hnsw_ef_search decimal? trim_start trim_end
ef_search_tests = (refl, refl, refl, refl)
