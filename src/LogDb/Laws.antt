-- ===== src/LogDb/Laws.antt =====
-- The operations of logdb against the map that it stands for.
use nali.Prelude.{
  ℕ, ◌%◌, ◌^◌, ◌<◌, ◌≡◌, refl, sym, ◌∙◌, ap, inl, inr, Bool, true, false, Option, none, some, arith,
  ◌==◌, if◌then◌else◌, Bool-cases,
}
use mathlib.Core.Path.{subst, subst₂}
use nali.KvLog.Defs.{PairT, insert_op, uint64_max, get_numa_id}
use nali.KvLog.Log.{LogKv}
use nali.KvLog.Valid.{IsRoomy}
use nali.KvLog.Ready.{AreSeparate}
use nali.KvLog.Laws.{Logged, Written, insert-Logged, erase-Logged, update_step1-Logged}
use nali.LogDb.Interfaces.{Index, IsMap, Cache}
use nali.LogDb.Defs.{LogDb, insert, erase, update}
use nali.LogDb.Valid.{mapping, IsValid, mapping-some, mapping-none, mapping_kept, leads_kept}

module _ {I : Type 0} (index : Index I) (map_file : ℕ → ℕ → ℕ → Option ℕ) (shards : ℕ)
    (hash : ℕ → ℕ) (i : I) (log : LogKv) (valid : IsValid index map_file shards hash i log)
    (k : ℕ) where
  -- The index leads `k` to a log that was just written, and is as before elsewhere.
  module _ (i' : I) (log' : LogKv) (a : ℕ) (p : PairT) (own : p.key ≡ k)
      (logged : Logged map_file shards log log' (hash k) a p)
      (led : (j : ℕ) → index.search i' j ≡ (if k == j then some a else index.search i j)) where
    here : (j : ℕ) → (k == j) ≡ true → k ≡ j
    here j q = ground arith

    led-IsValid : IsValid index map_file shards hash i' log'
    led-IsValid = record {
      log_valid = logged.valid';
      leads = λ j b found. elim (Bool-cases (k == j)) [
        | inl eq ↦
            let k_eq = here j eq in
            let same : a ≡ b = ground (arith, led j, found) in
            (
              p,
              subst₂ (λ x y. Written map_file shards log' (hash x) y p) k_eq same logged.written,
              own ∙ k_eq,
            )
        | inr ne ↦
            leads_kept index map_file shards hash i log valid i' log' logged.kept j
              (rw (led j, ne) refl) b found
      ];
    }

    led-mapping :
        (j : ℕ)
        → mapping index map_file shards hash i' log' j
          ≡ (if k == j then some p.value else mapping index map_file shards hash i log j)
    led-mapping j = elim (Bool-cases (k == j)) [
      | inl eq ↦ rw eq (
          subst (λ x. mapping index map_file shards hash i' log' x ≡ some p.value) (here j eq)
            (mapping-some index map_file shards hash i' log' k a p (rw (led k) (ground arith))
              logged.written))
      | inr ne ↦ rw ne (
          mapping_kept index map_file shards hash i log valid i' log' logged.kept j
            (rw (led j, ne) refl))
    ]

  -- The index has lost `k`, and is as before elsewhere.
  module _ (i' : I) (log' : LogKv) (a : ℕ) (p : PairT)
      (logged : Logged map_file shards log log' (hash k) a p)
      (lost : (j : ℕ) → index.search i' j ≡ (if k == j then none else index.search i j)) where
    lost-IsValid : IsValid index map_file shards hash i' log'
    lost-IsValid = record {
      log_valid = logged.valid';
      leads = λ j b found. elim (Bool-cases (k == j)) [
        | inl eq ↦
            absurd (cc (sym found ∙ lost j ∙ ap (λ t. if t then none else index.search i j) eq))
        | inr ne ↦
            leads_kept index map_file shards hash i log valid i' log' logged.kept j
              (rw (lost j, ne) refl) b found
      ];
    }

    lost-mapping :
        (j : ℕ)
        → mapping index map_file shards hash i' log' j
          ≡ (if k == j then none else mapping index map_file shards hash i log j)
    lost-mapping j = elim (Bool-cases (k == j)) [
      | inl eq ↦ rw eq (mapping-none index map_file shards hash i' log' j (rw (lost j, eq) refl))
      | inr ne ↦ rw ne (
          mapping_kept index map_file shards hash i log valid i' log' logged.kept j
            (rw (lost j, ne) refl))
    ]

-- A valid database, the documented behaviour of its index, and room in the page of the thread for the log of `k`.
module _ {I C : Type 0} (index : Index I) (laws : IsMap index) (cache : Cache C)
    (map_file : ℕ → ℕ → ℕ → Option ℕ) (files : AreSeparate map_file) (shards : ℕ)
    (positive : 0 < shards) (hash : ℕ → ℕ) (d : LogDb I C)
    (valid : IsValid index map_file shards hash d.db d.log_kv) (thread k : ℕ)
    (roomy : IsRoomy map_file d.log_kv (get_numa_id thread) (hash k % shards)) where
  -- Where the database is valid, the index behaves as a finite map, two files never share a block,
  -- and the page of the thread and shard has room or its next file can be made, `insert` of a key
  -- that the index does not hold returns; the database stays valid, maps the key to the value, and
  -- is unchanged on every other key.
  pub insert-mapping :
      (v : ℕ)
      → index.search d.db k ≡ none
      → (d' : LogDb I C) × (ret : Bool) × (insert index cache map_file shards hash d thread k v
          ≡ some (d', ret))
        × IsValid index map_file shards hash d'.db d'.log_kv
        × ((j : ℕ)
            → mapping index map_file shards hash d'.db d'.log_kv j
              ≡ (if k == j then some v else mapping index map_file shards hash d.db d.log_kv j))
        × (d'.clht_cache ≡ d.clht_cache)
  unfolding insert
  insert-mapping v absent =
      let (log', a, run, logged) =
        insert-Logged map_file shards positive files d.log_kv valid.log_valid thread (hash k) roomy
          k v in
      let i' = (index.insert d.db k a).0 in
      let led = laws.insert_new d.db k a absent in
      (
        record d { db = i'; log_kv = log' },
        (index.insert d.db k a).1,
        rw run refl,
        led-IsValid index map_file shards hash d.db d.log_kv valid k i' log' a _ refl logged led,
        led-mapping index map_file shards hash d.db d.log_kv valid k i' log' a _ refl logged led,
        refl,
      )

  -- Where the database is valid, the index behaves as a finite map, two files never share a block,
  -- and the page of the thread and shard has room or its next file can be made, `erase` returns;
  -- the database stays valid, has no value for the key, and is unchanged on every other key.
  pub erase-mapping :
      (value vlen : ℕ)
      → vlen < 2 ^ 16
      → (d' : LogDb I C) × (ret : Bool) × (erase index cache map_file shards hash d thread k value
            vlen
          ≡ some (d', ret))
        × IsValid index map_file shards hash d'.db d'.log_kv
        × ((j : ℕ)
            → mapping index map_file shards hash d'.db d'.log_kv j
              ≡ (if k == j then none else mapping index map_file shards hash d.db d.log_kv j))
        × (d'.clht_cache ≡ d.clht_cache)
  unfolding erase
  erase-mapping value vlen short =
      let addr_info : ℕ = elim (index.search d.db k) [ none ↦ 0 | some a ↦ a ] in
      let (log', a, run, logged) =
        erase-Logged map_file shards positive files d.log_kv valid.log_valid thread (hash k) roomy k
          addr_info value vlen short in
      let i' = (index.erase d.db k).0 in
      let lost = laws.erase_key d.db k in
      (
        record d { db = i'; log_kv = log' },
        (index.erase d.db k).1,
        rw run refl,
        lost-IsValid index map_file shards hash d.db d.log_kv valid k i' log' a _ logged lost,
        lost-mapping index map_file shards hash d.db d.log_kv valid k i' log' a _ logged lost,
        refl,
      )

  abbrev prepared : ℕ → PairT
  prepared v = record { op = insert_op; version = 0; key = k; value = v; u_offset = uint64_max }

  -- Where the database is valid, the index behaves as a finite map, two files never share a block,
  -- and the page of the thread and shard has room or its next file can be made, `update` of a key
  -- that the index holds returns true; the database stays valid, maps the key to the new value,
  -- and is unchanged on every other key.
  pub update-mapping :
      (v old : ℕ)
      → index.search d.db k ≡ some old
      → (d' : LogDb I C) × (update index cache map_file shards hash d thread k v ≡ some (d', true))
        × IsValid index map_file shards hash d'.db d'.log_kv
        × ((j : ℕ)
            → mapping index map_file shards hash d'.db d'.log_kv j
              ≡ (if k == j then some v else mapping index map_file shards hash d.db d.log_kv j))
        × (d'.clht_cache ≡ d.clht_cache)
  unfolding update
  update-mapping v old present =
      let (log', p', addr, a, log'', run, write, _, _, logged) =
        update_step1-Logged map_file shards positive files d.log_kv valid.log_valid thread (hash k)
          roomy (prepared v) old in
      let i' = (index.update d.db k a).0 in
      let led = laws.update_present d.db k a old present in
      let (flag, previous) = laws.update_old d.db k a old present in
      (
        record d { db = i'; log_kv = log'' },
        rw (run, flag, previous, write) refl,
        led-IsValid index map_file shards hash d.db d.log_kv valid k i' log'' a _ refl logged led,
        led-mapping index map_file shards hash d.db d.log_kv valid k i' log'' a _ refl logged led,
        refl,
      )

  -- Where the database is valid, the index behaves as a finite map, two files never share a block,
  -- and the page of the thread and shard has room or its next file can be made, `update` of a key
  -- that the index does not hold returns false; the database stays valid and is unchanged on every
  -- key.
  pub update-mapping-none :
      (v : ℕ)
      → index.search d.db k ≡ none
      → (d' : LogDb I C) × (update index cache map_file shards hash d thread k v ≡ some (d', false))
        × IsValid index map_file shards hash d'.db d'.log_kv
        × ((j : ℕ)
            → mapping index map_file shards hash d'.db d'.log_kv j
              ≡ mapping index map_file shards hash d.db d.log_kv j)
  unfolding update
  update-mapping-none v absent =
      let (log', p', addr, a, log'', run, write, valid', kept, _) =
        update_step1-Logged map_file shards positive files d.log_kv valid.log_valid thread (hash k)
          roomy (prepared v) 0 in
      let i' = (index.update d.db k a).0 in
      let same = laws.update_kept d.db k a absent in
      let flag = laws.update_absent d.db k a absent in
      (
        record d { db = i'; log_kv = log' },
        rw (run, flag) refl,
        record {
          log_valid = valid';
          leads = λ j b found.
              leads_kept index map_file shards hash d.db d.log_kv valid i' log' kept j (same j) b
                found;
        },
        λ j. mapping_kept index map_file shards hash d.db d.log_kv valid i' log' kept j (same j),
      )
