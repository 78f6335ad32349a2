-- ===== src/LogDb/Interfaces.antt =====
-- What logdb uses: the index behind `Tree` of include/tree.h, and the table of the CLHT library.
use nali.Prelude.{ℕ, ◌≡◌, ◌⊎◌, Bool, true, false, Option, none, some, ◌==◌, if◌then◌else◌}

-- `search` gives what is written through its second argument, or `none` where it returns false;
-- `update` gives its flag and what is written through `log_offset`.
pub record Index (I : Type 0) : Type 0 where
  pub insert : I → ℕ → ℕ → I × Bool
  pub search : I → ℕ → Option ℕ
  pub erase : I → ℕ → I × Bool
  pub update : I → ℕ → ℕ → I × Bool × ℕ

-- An index is a finite map. Nothing is said of the flags of `insert` and `erase`.
pub record IsMap {I : Type 0} (index : Index I) : Type 0 where
  pub insert_new :
      (i : I) (k v : ℕ)
      → index.search i k ≡ none
      → (j : ℕ)
      → index.search (index.insert i k v).0 j ≡ (if k == j then some v else index.search i j)
  pub erase_key :
      (i : I) (k : ℕ) (j : ℕ)
      → index.search (index.erase i k).0 j ≡ (if k == j then none else index.search i j)
  pub update_old :
      (i : I) (k v old : ℕ)
      → index.search i k ≡ some old
      → ((index.update i k v).1 ≡ true) × ((index.update i k v).2 ≡ old)
  pub update_present :
      (i : I) (k v old : ℕ)
      → index.search i k ≡ some old
      → (j : ℕ)
      → index.search (index.update i k v).0 j ≡ (if k == j then some v else index.search i j)
  pub update_absent : (i : I) (k v : ℕ) → index.search i k ≡ none → (index.update i k v).1 ≡ false
  pub update_kept :
      (i : I) (k v : ℕ)
      → index.search i k ≡ none
      → (j : ℕ) → index.search (index.update i k v).0 j ≡ index.search i j

pub record Cache (C : Type 0) : Type 0 where
  pub clht_get : C → ℕ → ℕ
  pub clht_put : C → ℕ → ℕ → C

-- A put leaves every entry as it was, but for that of its key, which may be the new one.
pub record IsTable {C : Type 0} (cache : Cache C) : Type 0 where
  pub put_get :
      (c : C) (k v j : ℕ)
      → (cache.clht_get (cache.clht_put c k v) j ≡ cache.clht_get c j)
        ⊎ ((k ≡ j) × (cache.clht_get (cache.clht_put c k v) j ≡ v))
