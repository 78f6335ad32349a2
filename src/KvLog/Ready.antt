-- ===== src/KvLog/Ready.antt =====
-- The first half of `alloc`: a page with room for one more log, in a file that is mapped.
use nali.Prelude.{
  ℕ, ◌+◌, ◌%◌, ◌^◌, ◌≤◌, ◌<◌, ◌≡◌, refl, ◌⊎◌, inl, inr, ◌∙◌, false, ◌&&◌, Option, none, some, ◌==◌,
  if◌then◌else◌, arith, dec_lt,
}
use nali.KvLog.Defs.{
  ppage_size, size, PPage, Pmem, next_ppage, alloc_new_ppage, is_short, put_start, clear_block,
}
use nali.KvLog.Log.{LogKv}
use nali.KvLog.Valid.{IsValid, PageIsValid, max_lof_file_id, IsRoomy}

-- Two files have two blocks.
pub record AreSeparate (map_file : ℕ → ℕ → ℕ → Option ℕ) : Type 0 where
  pub node : (n h p n' h' p' b : ℕ) → map_file n h p ≡ some b → map_file n' h' p' ≡ some b → n ≡ n'
  pub shard : (n h p n' h' p' b : ℕ) → map_file n h p ≡ some b → map_file n' h' p' ≡ some b → h ≡ h'
  pub file : (n h p n' h' p' b : ℕ) → map_file n h p ≡ some b → map_file n' h' p' ≡ some b → p ≡ p'

module _ (map_file : ℕ → ℕ → ℕ → Option ℕ) (shards : ℕ) (files : AreSeparate map_file) (m : LogKv)
    (valid : IsValid map_file shards m) (n h : ℕ) (node : n < 2) (shard : h < shards) where
  abbrev pg : PPage
  pg = m.ppage n h

  page_valid : PageIsValid map_file shards m n h
  page_valid = valid.page n h node shard

  -- A page with room for one more log, in the mapped files `s`.
  pub record Ready (s : Pmem) (page : PPage) : Type 0 where
    pub numa_id : page.numa_id ≡ n
    pub hash_id : page.hash_id ≡ h
    pub room : page.sz_allocated + size ≤ ppage_size
    pub few : page.ppage_id < max_lof_file_id
    pub block : ℕ
    pub start : page.start_addr ≡ some block
    pub mapped : s.start_addr_arr n h page.ppage_id ≡ some block
    pub unused : (p : ℕ) → page.ppage_id < p → s.start_addr_arr n h p ≡ none
    pub kept :
        (n' h' p b : ℕ) → m.pmem.start_addr_arr n' h' p ≡ some b → s.start_addr_arr n' h' p ≡ some b
    pub others :
        (n' h' p : ℕ)
        → ((n == n') && (h == h')) ≡ false
        → s.start_addr_arr n' h' p ≡ m.pmem.start_addr_arr n' h' p
    pub named : (n' h' p b : ℕ) → s.start_addr_arr n' h' p ≡ some b → map_file n' h' p ≡ some b
    pub memory :
        (n' h' p b o : ℕ)
        → m.pmem.start_addr_arr n' h' p ≡ some b
        → s.memory b o ≡ m.pmem.memory b o
    pub later :
        (pg.ppage_id < page.ppage_id)
        ⊎ ((pg.ppage_id ≡ page.ppage_id) × (pg.sz_allocated ≡ page.sz_allocated))

  same_page-Ready : pg.sz_allocated + size ≤ ppage_size → Ready m.pmem pg
  same_page-Ready room = record {
    numa_id = page_valid.numa_id;
    hash_id = page_valid.hash_id;
    room = room;
    few = page_valid.few;
    block = page_valid.there.0;
    start = page_valid.there.1;
    mapped = page_valid.mapped ∙ page_valid.there.1;
    unused = page_valid.unused;
    kept = λ n' h' p b q. q;
    others = λ n' h' p q. refl;
    named = valid.named;
    memory = λ n' h' p b o q. refl;
    later = inr (refl, refl);
  }

  abbrev fresh : ℕ → PPage
  fresh b = record pg {
    ppage_id = pg.ppage_id + 1;
    start_addr = some b;
    sz_allocated = 0;
    sz_freed = 0;
  }

  abbrev next_files : ℕ → Pmem
  next_files b = record {
    start_addr_arr = put_start m.pmem.start_addr_arr n h (pg.ppage_id + 1) (some b);
    memory = clear_block m.pmem.memory b;
  }

  next_ppage-Ready :
      (b : ℕ)
      → pg.ppage_id + 1 < max_lof_file_id
      → map_file n h (pg.ppage_id + 1) ≡ some b
      → (next_ppage map_file m.pmem pg ≡ some (next_files b, fresh b))
        × Ready (next_files b) (fresh b)
  unfolding next_ppage alloc_new_ppage
  next_ppage-Ready b small made =
      let wrap : (pg.ppage_id + 1) % 2 ^ 64 ≡ pg.ppage_id + 1 = omega arith in
      let no_file : m.pmem.start_addr_arr n h (pg.ppage_id + 1) ≡ none =
        page_valid.unused _ (omega arith) in
      (
        rw (page_valid.numa_id, page_valid.hash_id, wrap, made) refl,
        record {
          numa_id = page_valid.numa_id;
          hash_id = page_valid.hash_id;
          room = omega arith;
          few = small;
          block = b;
          start = refl;
          mapped = ground arith;
          unused = λ p q. ground (arith, page_valid.unused p);
          kept = λ n' h' p b' q. ground (arith, no_file);
          others = λ n' h' p q. ground arith;
          named = λ n' h' p b' q. ground (arith, made, valid.named n' h' p b');
          memory = λ n' h' p b' o q. ground (
            arith,
            made,
            valid.named n' h' p b' q,
            files.node n' h' p n h (pg.ppage_id + 1) b,
            files.shard n' h' p n h (pg.ppage_id + 1) b,
            files.file n' h' p n h (pg.ppage_id + 1) b,
            no_file,
          );
          later = inl (omega arith);
        },
      )

  -- The page that `alloc` takes the log from.
  pub page-Ready :
      IsRoomy map_file m n h
      → (s : Pmem) × (page : PPage) × ((if is_short map_file pg size
            then next_ppage map_file m.pmem pg
            else some (m.pmem, pg))
          ≡ some (s, page))
        × Ready s page
  page-Ready (inl room) = (m.pmem, pg, ground arith, same_page-Ready room)
  page-Ready (inr (small, b, made)) = elim (dec_lt ppage_size (pg.sz_allocated + size)) [
    | yes over ↦
        let (run, ready) = next_ppage-Ready b small made in
        (next_files b, fresh b, ground (arith, run, page_valid.filled), ready)
    | no room ↦ (m.pmem, pg, ground (arith, room), same_page-Ready (omega (arith, room)))
  ]
