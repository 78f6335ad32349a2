-- ===== src/KvLog/Append.antt =====
-- `alloc_log`: a log is handed out that overlaps no earlier one, in a file that stays mapped.
use nali.Prelude.{
  ℕ, ◌+◌, ◌%◌, ◌^◌, ◌≤◌, ◌<◌, ◌≡◌, refl, ◌⊎◌, inl, inr, ◌∙◌, sym, ◌&&◌, Option, some, ◌==◌, ◌>>=◌,
  arith, Bool-cases,
}
use mathlib.Core.Path.{subst₂}
use native.Mathlib.Nat.{le_refl, mod-lt}
use nali.KvLog.Address.{LastLogOffest}
use nali.KvLog.Defs.{size, PPage, Pmem, get_numa_id, alloc}
use nali.KvLog.Log.{LogKv, put_page, alloc_log}
use nali.KvLog.Valid.{IsValid, Allocated, get_numa_id_lt, IsRoomy, Appended}
use nali.KvLog.Ready.{AreSeparate, Ready, page-Ready}

module _ (map_file : ℕ → ℕ → ℕ → Option ℕ) (shards : ℕ) (files : AreSeparate map_file) (m : LogKv)
    (valid : IsValid map_file shards m) (n h : ℕ) (node : n < 2) (shard : h < shards) where
  abbrev pub taken : PPage → PPage
  taken page = record page { sz_allocated = (page.sz_allocated + size) % 2 ^ 64 }

  abbrev pub info_of : PPage → ℕ → LastLogOffest
  info_of page vlen = record {
    vlen = vlen;
    numa_id = page.numa_id % 2 ^ 8;
    ppage_id = page.ppage_id % 2 ^ 8;
    log_offset = page.sz_allocated % 2 ^ 32;
  }

  abbrev pub after : Pmem → PPage → LogKv
  after s page = record m { pmem = s; ppage = put_page m.ppage n h (taken page) }

  module _ (s : Pmem) (page : PPage) (vlen : ℕ)
      (r : Ready map_file shards files m valid n h node shard s page) (short : vlen < 2 ^ 16) where
    numa_same : page.numa_id % 2 ^ 8 ≡ n
    numa_same = omega (arith, r.numa_id)

    ppage_same : page.ppage_id % 2 ^ 8 ≡ page.ppage_id
    ppage_same = omega (arith, r.few)

    offset_same : page.sz_allocated % 2 ^ 32 ≡ page.sz_allocated
    offset_same = omega (arith, r.room)

    taken_same : (page.sz_allocated + size) % 2 ^ 64 ≡ page.sz_allocated + size
    taken_same = omega (arith, r.room)

    page_after : (after s page).ppage n h ≡ taken page
    page_after = ground arith

    after-IsValid : IsValid map_file shards (after s page)
    after-IsValid = record {
      page = λ n' h' p q. elim (Bool-cases ((n == n') && (h == h'))) [
        | inl same ↦ record {
          numa_id = rw same (ground (arith, r.numa_id));
          hash_id = rw same (ground (arith, r.hash_id));
          filled = rw (same, taken_same) r.room;
          few = rw same r.few;
          mapped = rw same (ground (arith, r.mapped, r.start));
          there = rw same (r.block, r.start);
          unused = rw same (λ p'. ground (arith, r.unused p'));
        }
        | inr other ↦
            (let v = valid.page n' h' p q in
              record {
                numa_id = rw other v.numa_id;
                hash_id = rw other v.hash_id;
                filled = rw other v.filled;
                few = rw other v.few;
                mapped = rw (other, r.others n' h' (m.ppage n' h').ppage_id other) v.mapped;
                there = rw other v.there;
                unused = rw other (λ p' u. r.others n' h' p' other ∙ v.unused p' u);
              })
      ];
      named = r.named;
    }

    after-Allocated : Allocated map_file shards (after s page) h (info_of page vlen)
    after-Allocated = record {
      node = rw numa_same node;
      shard = shard;
      fits = record {
        vlen = short;
        numa_id = omega arith;
        ppage_id = omega arith;
        log_offset = omega arith;
      };
      block = r.block;
      pointed = rw (numa_same, ppage_same) r.mapped;
      before = inr (
        rw (numa_same, page_after) ppage_same,
        rw (numa_same, page_after, offset_same, taken_same) (le_refl _),
      );
    }

    old_before :
        (h' : ℕ) (l : LastLogOffest)
        → Allocated map_file shards m h' l
        → (l.ppage_id < ((after s page).ppage l.numa_id h').ppage_id)
          ⊎ ((l.ppage_id ≡ ((after s page).ppage l.numa_id h').ppage_id)
              × (l.log_offset + size ≤ ((after s page).ppage l.numa_id h').sz_allocated))
    old_before h' l a = elim (Bool-cases ((n == l.numa_id) && (h == h'))) [
      | inl same ↦
          let n_eq : n ≡ l.numa_id = ground arith in
          let h_eq : h ≡ h' = ground arith in
          let before = a.before in
          rw (same, taken_same)
            (subst₂
              (λ x y.
                ((l.ppage_id < (m.ppage x y).ppage_id)
                  ⊎ ((l.ppage_id ≡ (m.ppage x y).ppage_id)
                      × (l.log_offset + size ≤ (m.ppage x y).sz_allocated)))
                → (l.ppage_id < page.ppage_id)
                  ⊎ ((l.ppage_id ≡ page.ppage_id)
                      × (l.log_offset + size ≤ page.sz_allocated + size)))
              n_eq h_eq (λ q. ground (arith, q, r.later)) before)
      | inr other ↦ rw other a.before
    ]

    after-Appended :
        Appended map_file shards m h
          (after s page)
          (info_of page vlen)
          (do b ← page.start_addr; some (b, page.sz_allocated))
    unfolding after-Allocated
    after-Appended = record {
      valid' = after-IsValid;
      new = after-Allocated;
      address = rw (r.start, offset_same) refl;
      version = refl;
      old = λ h' l a. record {
        node = a.node;
        shard = a.shard;
        fits = a.fits;
        block = a.block;
        pointed = r.kept l.numa_id h' l.ppage_id a.block a.pointed;
        before = old_before h' l a;
      };
      old_block = λ h' l a. r.kept l.numa_id h' l.ppage_id a.block a.pointed;
      old_memory = λ h' l a. r.memory l.numa_id h' l.ppage_id a.block l.log_offset a.pointed;
      apart = λ h' l a q.
          let here = valid.named l.numa_id h' l.ppage_id a.block a.pointed in
          let there : map_file n h page.ppage_id ≡ some a.block =
            r.named n h page.ppage_id a.block (rw q r.mapped) in
          let n_eq : l.numa_id ≡ n = files.node _ _ _ _ _ _ _ here there in
          let h_eq : h' ≡ h = files.shard _ _ _ _ _ _ _ here there in
          let p_eq : l.ppage_id ≡ page.ppage_id = files.file _ _ _ _ _ _ _ here there in
          rw offset_same (
            subst₂
              (λ x y.
                ((l.ppage_id < (m.ppage x y).ppage_id)
                  ⊎ ((l.ppage_id ≡ (m.ppage x y).ppage_id)
                      × (l.log_offset + size ≤ (m.ppage x y).sz_allocated)))
                → l.log_offset + size ≤ page.sz_allocated)
              (sym n_eq) (sym h_eq) (λ b. ground (arith, b, r.later, p_eq)) a.before);
    }

-- `alloc_log` in a valid log, for a thread and a hash key.
module _ (map_file : ℕ → ℕ → ℕ → Option ℕ) (shards : ℕ) (positive : 0 < shards)
    (files : AreSeparate map_file) (m : LogKv) (valid : IsValid map_file shards m)
    (thread hash_key : ℕ) where
  pub alloc_log-Appended :
      (vlen : ℕ)
      → vlen < 2 ^ 16
      → IsRoomy map_file m (get_numa_id thread) (hash_key % shards)
      → (m' : LogKv) × (info : LastLogOffest) × (addr : Option (ℕ × ℕ)) × (alloc_log map_file shards
            m thread hash_key vlen size
          ≡ some (m', info, addr))
        × Appended map_file shards m (hash_key % shards) m' info addr
  unfolding alloc_log alloc
  alloc_log-Appended vlen short roomy =
      let (s, page, run, ready) =
        page-Ready map_file shards files m valid (get_numa_id thread) (hash_key % shards)
          (get_numa_id_lt thread) (mod-lt hash_key positive) roomy in
      (
        _,
        _,
        _,
        rw run refl,
        after-Appended map_file shards files m valid (get_numa_id thread) (hash_key % shards)
            (get_numa_id_lt thread) (mod-lt hash_key positive) s page vlen ready short,
      )
