-- ===== src/LogDb/Valid.antt =====
-- The map that a database stands for, and the invariant between its index and its log.
use nali.Prelude.{ℕ, ◌≡◌, refl, sym, ◌∙◌, Option, none, some, ◌>>=◌, Option-cases, inl, inr}
use nali.KvLog.Address.{of_uint64}
use nali.KvLog.Defs.{PairT}
use nali.KvLog.Log.{LogKv, get_addr, load}
use nali.KvLog.Valid
use nali.KvLog.Laws.{Written, Written-load}
use nali.LogDb.Interfaces.{Index}

module _ {I : Type 0} (index : Index I) (map_file : ℕ → ℕ → ℕ → Option ℕ) (shards : ℕ)
    (hash : ℕ → ℕ) where
  -- the value that the index and the log give for a key
  unfoldable pub mapping : I → LogKv → ℕ → Option ℕ
  mapping i log k = do
    a ← index.search i k
    p ← load log (get_addr map_file shards log (of_uint64 a) (hash k))
    some p.value

  -- Every address in the index leads to a log of its key.
  pub record IsValid (i : I) (log : LogKv) : Type 0 where
    pub log_valid : Valid.IsValid map_file shards log
    pub leads :
        (k a : ℕ)
        → index.search i k ≡ some a
        → (p : PairT) × Written map_file shards log (hash k) a p × (p.key ≡ k)

  pub mapping-some :
      (i : I) (log : LogKv) (k a : ℕ) (p : PairT)
      → index.search i k ≡ some a
      → Written map_file shards log (hash k) a p
      → mapping i log k ≡ some p.value
  unfolding mapping
  mapping-some i log k a p found w =
      rw (found, Written-load map_file shards log (hash k) a p w) refl

  pub mapping-none :
      (i : I) (log : LogKv) (k : ℕ) → index.search i k ≡ none → mapping i log k ≡ none
  unfolding mapping
  mapping-none i log k missed = rw missed refl

  -- The invariant after a change that keeps the old logs and, of the index, the key `j`.
  module _ (i : I) (log : LogKv) (valid : IsValid i log) (i' : I) (log' : LogKv)
      (kept : (h a : ℕ) (q : PairT)
        → Written map_file shards log h a q
        → Written map_file shards log' h a q)
      (j : ℕ) (same : index.search i' j ≡ index.search i j) where
    pub mapping_kept : mapping i' log' j ≡ mapping i log j
    mapping_kept = elim (Option-cases (index.search i j)) [
      | inl missed ↦ mapping-none i' log' j (same ∙ missed) ∙ sym (mapping-none i log j missed)
      | inr (a, found) ↦
          let (p, w, _) = valid.leads j a found in
          mapping-some i' log' j a p (same ∙ found) (kept (hash j) a p w)
          ∙ sym (mapping-some i log j a p found w)
    ]

    pub leads_kept :
        (a : ℕ)
        → index.search i' j ≡ some a
        → (p : PairT) × Written map_file shards log' (hash j) a p × (p.key ≡ j)
    leads_kept a found =
        let (p, w, q) = valid.leads j a (sym same ∙ found) in (p, kept (hash j) a p w, q)
