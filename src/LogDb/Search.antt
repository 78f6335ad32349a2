-- ===== src/LogDb/Search.antt =====
-- `search` of logdb: with a cache in agreement it reads the map, after an update it may not.
use nali.Prelude.{
  ℕ, ◌+◌, ◌%◌, ◌^◌, ◌<◌, ◌≡◌, ◌≢◌, refl, sym, ◌∙◌, ap, inl, inr, Bool, true, false, Option, none,
  some, arith, ◌==◌, Option-cases, Bool-cases,
}
use mathlib.Core.Path.{subst}
use nali.KvLog.Defs.{get_numa_id}
use nali.KvLog.Valid.{IsRoomy}
use nali.KvLog.Ready.{AreSeparate}
use nali.KvLog.Laws.{Written-load}
use nali.LogDb.Interfaces.{Index, IsMap, Cache, IsTable}
use nali.LogDb.Defs.{LogDb, search, search_index, update, erase, read_value, cache_sample}
use nali.LogDb.Valid.{mapping, IsValid, mapping-some, mapping-none}
use nali.LogDb.Laws.{update-mapping, erase-mapping}

module _ {I C : Type 0} (index : Index I) (cache : Cache C) (map_file : ℕ → ℕ → ℕ → Option ℕ)
    (shards : ℕ) (hash : ℕ → ℕ) where
  -- What is in the cache is in the map. A value 0 cannot be told from a miss.
  pub record IsCoherent (d : LogDb I C) : Type 0 where
    pub cached :
        (k : ℕ)
        → cache.clht_get d.clht_cache k ≢ 0
        → mapping index map_file shards hash d.db d.log_kv k ≡ some (cache.clht_get d.clht_cache k)

  module _ (table : IsTable cache) (d : LogDb I C)
      (valid : IsValid index map_file shards hash d.db d.log_kv) (coherent : IsCoherent d)
      (k : ℕ) where
    put-IsCoherent :
        (v : ℕ)
        → mapping index map_file shards hash d.db d.log_kv k ≡ some v
        → (n : ℕ)
        → IsCoherent (record d { clht_cache = cache.clht_put d.clht_cache k v; get_cnt = n })
    put-IsCoherent v q n = record {
      cached = λ j ne. elim (table.put_get d.clht_cache k v j) [
        | inl same ↦ rw same (coherent.cached j (λ z. ne (same ∙ z)))
        | inr (eq, new) ↦
            rw new (subst (λ x. mapping index map_file shards hash d.db d.log_kv x ≡ some v) eq q)
      ];
    }

    -- In a valid database whose cache agrees with its contents, over a table whose put changes at
    -- most the entry of its key, `search` returns the value of the key, or fails when there is
    -- none; the index and the log stay, and the cache still agrees.
    pub search-mapping :
        (d' : LogDb I C) × (search index cache map_file shards hash d k
          ≡ some (elim (mapping index map_file shards hash d.db d.log_kv k) [
            | none ↦ (d', false, 0)
            | some v ↦ (d', true, v)
          ]))
        × (d'.db ≡ d.db)
        × (d'.log_kv ≡ d.log_kv)
        × IsCoherent d'
    unfolding search search_index read_value
    search-mapping = elim (Bool-cases (cache.clht_get d.clht_cache k == 0)) [
      | inr hit ↦ (
        record d { get_cnt = (d.get_cnt + 1) % 2 ^ 64 },
        rw (hit, coherent.cached k (ground arith)) refl,
        refl,
        refl,
        record { cached = coherent.cached },
      )
      | inl miss ↦ elim (Option-cases (index.search d.db k)) [
        | inl absent ↦ (
          record d { get_cnt = (d.get_cnt + 1) % 2 ^ 64 },
          rw
              (
                miss,
                mapping-none index map_file shards hash d.db d.log_kv k absent,
                absent,
                search_index,
              )
              refl,
          refl,
          refl,
          record { cached = coherent.cached },
        )
        | inr (a, found) ↦
            (let (p, w, _) = valid.leads k a found in
              let there = mapping-some index map_file shards hash d.db d.log_kv k a p found w in
              elim (Bool-cases ((d.get_cnt + 1) % 2 ^ 64 % cache_sample == 0)) [
                | inl sampled ↦ (
                  record d {
                    get_cnt = (d.get_cnt + 1) % 2 ^ 64;
                    clht_cache = cache.clht_put d.clht_cache k p.value;
                  },
                  rw
                      (
                        miss,
                        there,
                        found,
                        search_index,
                        Written-load map_file shards d.log_kv (hash k) a p w,
                        sampled,
                      )
                      refl,
                  refl,
                  refl,
                  put-IsCoherent p.value there _,
                )
                | inr skipped ↦ (
                  record d { get_cnt = (d.get_cnt + 1) % 2 ^ 64 },
                  rw
                      (
                        miss,
                        there,
                        found,
                        search_index,
                        Written-load map_file shards d.log_kv (hash k) a p w,
                        skipped,
                      )
                      refl,
                  refl,
                  refl,
                  record { cached = coherent.cached },
                )
              ])
      ]
    ]

-- What is cached is answered, whatever the index holds.
cached-search :
    {I C : Type 0} (index : Index I) (cache : Cache C) (map_file : ℕ → ℕ → ℕ → Option ℕ)
    (shards : ℕ) (hash : ℕ → ℕ) (d : LogDb I C) (k : ℕ)
    → cache.clht_get d.clht_cache k ≢ 0
    → search index cache map_file shards hash d k
      ≡ some (record d { get_cnt = (d.get_cnt + 1) % 2 ^ 64 }, true, cache.clht_get d.clht_cache k)
unfolding search
cached-search index cache map_file shards hash d k ne =
    let hit : (cache.clht_get d.clht_cache k == 0) ≡ false = ground (arith, ne) in rw hit refl

module _ {I C : Type 0} (index : Index I) (laws : IsMap index) (cache : Cache C)
    (map_file : ℕ → ℕ → ℕ → Option ℕ) (files : AreSeparate map_file) (shards : ℕ)
    (positive : 0 < shards) (hash : ℕ → ℕ) (d : LogDb I C)
    (valid : IsValid index map_file shards hash d.db d.log_kv) (thread k : ℕ)
    (roomy : IsRoomy map_file d.log_kv (get_numa_id thread) (hash k % shards))
    (cached : cache.clht_get d.clht_cache k ≢ 0) where
  -- Where the database is valid, the index behaves as a finite map, two files never share a block,
  -- and the page of the thread and shard has room or its next file can be made, and the key is in
  -- the index and in the cache with a value other than 0, `update` succeeds and the database maps
  -- the key to the new value, yet `search` then returns the value that was in the cache.
  pub update-search :
      (v old : ℕ)
      → index.search d.db k ≡ some old
      → (d' d'' : LogDb I C) × (update index cache map_file shards hash d thread k v
          ≡ some (d', true))
        × (mapping index map_file shards hash d'.db d'.log_kv k ≡ some v)
        × (search index cache map_file shards hash d' k
            ≡ some (d'', true, cache.clht_get d.clht_cache k))
  update-search v old present =
      let (d', run, _, stored, same) =
        update-mapping index laws cache map_file files shards positive hash d valid thread k roomy v
          old present in
      let kept : cache.clht_get d'.clht_cache k ≡ cache.clht_get d.clht_cache k =
        ap (λ c. cache.clht_get c k) same in
      (
        d',
        record d' { get_cnt = (d'.get_cnt + 1) % 2 ^ 64 },
        run,
        stored k ∙ ground arith,
        rw (← kept)
            (cached-search index cache map_file shards hash d' k (λ z. cached (sym kept ∙ z))),
      )

  -- Where the database is valid, the index behaves as a finite map, two files never share a block,
  -- and the page of the thread and shard has room or its next file can be made, and the key is in
  -- the cache with a value other than 0, `erase` leaves no value for the key, yet `search` then
  -- returns the value that was in the cache.
  pub erase-search :
      (value vlen : ℕ)
      → vlen < 2 ^ 16
      → (d' d'' : LogDb I C) × (ret : Bool) × (erase index cache map_file shards hash d thread k
            value vlen
          ≡ some (d', ret))
        × (mapping index map_file shards hash d'.db d'.log_kv k ≡ none)
        × (search index cache map_file shards hash d' k
            ≡ some (d'', true, cache.clht_get d.clht_cache k))
  erase-search value vlen short =
      let (d', ret, run, _, removed, same) =
        erase-mapping index laws cache map_file files shards positive hash d valid thread k roomy
          value vlen short in
      let kept : cache.clht_get d'.clht_cache k ≡ cache.clht_get d.clht_cache k =
        ap (λ c. cache.clht_get c k) same in
      (
        d',
        record d' { get_cnt = (d'.get_cnt + 1) % 2 ^ 64 },
        ret,
        run,
        removed k ∙ ground arith,
        rw (← kept)
            (cached-search index cache map_file shards hash d' k (λ z. cached (sym kept ∙ z))),
      )
