-- ===== src/Bot/Metadata.antt =====
-- What a map of metadata reads as (internal/channel/provider.go, `MetadataValue`).
use channel_plugin.Prelude.{String, Bool, true, false, none, some, ◌==◌, if◌then◌else◌, ◌≡◌, refl}
use channel_plugin.GoMap
use channel_plugin.GoMap.{GoMap, get-put, get-empty}

-- what `metadata_value` reads, by the map
abbrev pub value : GoMap String → String → String
value m key = elim (GoMap.get m key) [ none ↦ "" | some v ↦ v ]

pub value-put :
    (m : GoMap String) (k j v : String)
    → value (GoMap.put m k v) j ≡ (if k == j then v else value m j)
value-put m k j v = rw (get-put m k j v, value) (by_test (k == j))
  where
    by_test :
        (b : Bool)
        → ◌≡◌ {A = String}
            (elim (if b then some v else GoMap.get m j) [ none ↦ "" | some w ↦ w ])
            (if b then v else value m j)
    by_test true = refl
    by_test false = refl

pub value-empty : (k : String) → value GoMap.empty k ≡ ""
value-empty k = rw (get-empty {V = String} k, value) refl
