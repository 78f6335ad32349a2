-- ===== src/Examples/LogDbRuns.antt =====
-- A database with the key 5, over an index and a cache that are functions.
use nali.Prelude.{
  ℕ, ◌≡◌, refl, inl, inr, Bool, true, false, Option, none, some, ◌==◌, if◌then◌else◌, arith,
  Bool-cases,
}
use mathlib.Core.Path.{subst, subst₂}
use nali.KvLog.Laws.{Written}
use nali.KvLog.Log.{get_addr, load}
use nali.KvLog.Address.{of_uint64}
use nali.LogDb.Interfaces.{Index, IsMap, Cache, IsTable}
use nali.LogDb.Defs.{LogDb, insert, search, erase, update}
use nali.LogDb.Valid.{mapping, IsValid}
use nali.LogDb.Laws.{insert-mapping, erase-mapping, update-mapping, update-mapping-none}
use nali.LogDb.Search.{IsCoherent, search-mapping, update-search, erase-search}
use nali.Examples.KvLogRuns.{
  disk, disk-AreSeparate, early, early-IsValid, early-Written, addr5, log5,
}

abbrev Map : Type 0
Map = ℕ → Option ℕ

abbrev put_map : Map → ℕ → Option ℕ → Map
put_map i k o j = if k == j then o else i j

abbrev index : Index Map
index = record {
  insert = λ i k v. (put_map i k (some v), true);
  search = λ i k. i k;
  erase = λ i k. (put_map i k none, true);
  update =
      λ i k v. elim (i k) [ none ↦ (i, false, 0) | some old ↦ (put_map i k (some v), true, old) ];
}

index-IsMap : IsMap index
index-IsMap = record {
  insert_new = λ i k v q j. refl;
  erase_key = λ i k j. refl;
  update_old = λ i k v old q. rw q (refl, refl);
  update_present = λ i k v old q j. rw q refl;
  update_absent = λ i k v q. rw q refl;
  update_kept = λ i k v q j. rw q refl;
}

abbrev cache : Cache (ℕ → ℕ)
cache = record {
  clht_get = λ c k. c k;
  clht_put = λ c k v. if c k == 0 then (λ j. if k == j then v else c j) else c;
}

cache-IsTable : IsTable cache
cache-IsTable = record {
  put_get = λ c k v j. elim (Bool-cases (c k == 0)) [
    | inl miss ↦ elim (Bool-cases (k == j)) [
      | inl same ↦ inr (ground arith, rw (miss, same) refl)
      | inr other ↦ inl (rw (miss, other) refl)
    ]
    | inr hit ↦ inl (rw hit refl)
  ];
}

abbrev hash : ℕ → ℕ
hash k = k

abbrev five : LogDb Map (ℕ → ℕ)
five = record {
  db = λ j. if 5 == j then some addr5 else none;
  log_kv = early;
  clht_cache = λ j. if 5 == j then 50 else 0;
  get_cnt = 3;
}

five-IsValid : IsValid index disk 4 hash five.db five.log_kv
five-IsValid = record {
  log_valid = early-IsValid;
  leads = λ k a found.
      let k_eq : 5 ≡ k = ground (arith, found) in
      let a_eq : addr5 ≡ a = ground (arith, found) in
      (log5, subst₂ (λ x y. Written disk 4 early x y log5) k_eq a_eq early-Written, k_eq);
}

five-mapping : mapping index disk 4 hash five.db five.log_kv 5 ≡ some 50
unfolding mapping of_uint64 get_addr load
five-mapping = refl

five-IsCoherent : IsCoherent index cache disk 4 hash five
five-IsCoherent = record {
  cached = λ k ne.
      let k_eq : 5 ≡ k = ground (arith, ne) in
      subst (λ x. mapping index disk 4 hash five.db five.log_kv x ≡ some (five.clht_cache x)) k_eq
        five-mapping;
}

insert-mapping_example :
    (d' : LogDb Map (ℕ → ℕ)) × (ret : Bool) × (insert index cache disk 4 hash five 3 9 90
      ≡ some (d', ret))
    × IsValid index disk 4 hash d'.db d'.log_kv
    × ((j : ℕ)
        → mapping index disk 4 hash d'.db d'.log_kv j
          ≡ (if 9 == j then some 90 else mapping index disk 4 hash five.db five.log_kv j))
    × (d'.clht_cache ≡ five.clht_cache)
insert-mapping_example =
    insert-mapping index index-IsMap cache disk disk-AreSeparate 4 (omega arith) hash five
      five-IsValid 3 9 (inl (omega arith)) 90 refl

erase-mapping_example :
    (d' : LogDb Map (ℕ → ℕ)) × (ret : Bool) × (erase index cache disk 4 hash five 3 5 0 8
      ≡ some (d', ret))
    × IsValid index disk 4 hash d'.db d'.log_kv
    × ((j : ℕ)
        → mapping index disk 4 hash d'.db d'.log_kv j
          ≡ (if 5 == j then none else mapping index disk 4 hash five.db five.log_kv j))
    × (d'.clht_cache ≡ five.clht_cache)
erase-mapping_example =
    erase-mapping index index-IsMap cache disk disk-AreSeparate 4 (omega arith) hash five
      five-IsValid 3 5 (inl (omega arith)) 0 8 (omega arith)

update-mapping_example :
    (d' : LogDb Map (ℕ → ℕ)) × (update index cache disk 4 hash five 3 5 51 ≡ some (d', true))
    × IsValid index disk 4 hash d'.db d'.log_kv
    × ((j : ℕ)
        → mapping index disk 4 hash d'.db d'.log_kv j
          ≡ (if 5 == j then some 51 else mapping index disk 4 hash five.db five.log_kv j))
    × (d'.clht_cache ≡ five.clht_cache)
update-mapping_example =
    update-mapping index index-IsMap cache disk disk-AreSeparate 4 (omega arith) hash five
      five-IsValid 3 5 (inl (omega arith)) 51 addr5 refl

update-mapping-none_example :
    (d' : LogDb Map (ℕ → ℕ)) × (update index cache disk 4 hash five 3 6 60 ≡ some (d', false))
    × IsValid index disk 4 hash d'.db d'.log_kv
    × ((j : ℕ)
        → mapping index disk 4 hash d'.db d'.log_kv j
          ≡ mapping index disk 4 hash five.db five.log_kv j)
update-mapping-none_example =
    update-mapping-none index index-IsMap cache disk disk-AreSeparate 4 (omega arith) hash five
      five-IsValid 3 6 (inl (omega arith)) 60 refl

search-mapping_example :
    (d' : LogDb Map (ℕ → ℕ)) × (search index cache disk 4 hash five 5
      ≡ some (elim (mapping index disk 4 hash five.db five.log_kv 5) [
        | none ↦ (d', false, 0)
        | some v ↦ (d', true, v)
      ]))
    × (d'.db ≡ five.db)
    × (d'.log_kv ≡ five.log_kv)
    × IsCoherent index cache disk 4 hash d'
search-mapping_example =
    search-mapping index cache disk 4 hash cache-IsTable five five-IsValid five-IsCoherent 5

update-search_example :
    (d' d'' : LogDb Map (ℕ → ℕ)) × (update index cache disk 4 hash five 3 5 51 ≡ some (d', true))
    × (mapping index disk 4 hash d'.db d'.log_kv 5 ≡ some 51)
    × (search index cache disk 4 hash d' 5 ≡ some (d'', true, 50))
update-search_example =
    update-search index index-IsMap cache disk disk-AreSeparate 4 (omega arith) hash five
      five-IsValid 3 5 (inl (omega arith)) (omega arith) 51 addr5 refl

erase-search_example :
    (d' d'' : LogDb Map (ℕ → ℕ)) × (ret : Bool) × (erase index cache disk 4 hash five 3 5 0 8
      ≡ some (d', ret))
    × (mapping index disk 4 hash d'.db d'.log_kv 5 ≡ none)
    × (search index cache disk 4 hash d' 5 ≡ some (d'', true, 50))
erase-search_example =
    erase-search index index-IsMap cache disk disk-AreSeparate 4 (omega arith) hash five
      five-IsValid 3 5 (inl (omega arith)) (omega arith) 0 8 (omega arith)
