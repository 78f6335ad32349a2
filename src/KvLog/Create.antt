-- ===== src/KvLog/Create.antt =====
-- The constructors of PPage and LogKV: one page of each node and shard, mapped unless in recovery.
use nali.Prelude.{
  ℕ, zero, suc, ◌+◌, ◌-◌, ◌%◌, ◌^◌, ◌≤◌, ◌<◌, ◌≡◌, refl, ◌⊎◌, inl, inr, Bool, false, ◌&&◌, Option,
  none, some, ◌==◌, if◌then◌else◌, ◌>>=◌, arith, Bool-cases,
}
use mathlib.Core.Path.{subst}
use nali.KvLog.Defs.{Pmem, PPage, put_start, clear_block, alloc_new_ppage, all_ones}
use nali.KvLog.Log.{LogKv, put_page}
use nali.KvLog.Valid.{IsValid, PageIsValid}

abbrev pub numa_node_num : ℕ
numa_node_num = 2

module _ (map_file : ℕ → ℕ → ℕ → Option ℕ) (shards : ℕ) where
  unfoldable pub new_ppage : Pmem → ℕ → ℕ → Bool → Option (Pmem × PPage)
  unfolding alloc_new_ppage
  new_ppage s n h recovery =
      let unset = 2 ^ 64 - 1 in
      if recovery
      then some (
        s,
        record {
          numa_id = n;
          hash_id = h;
          ppage_id = unset;
          sz_allocated = 0;
          sz_freed = 0;
          start_addr = none;
        },
      )
      else (do
        let first = (unset + 1) % 2 ^ 64
        (s', ptr) ← alloc_new_ppage map_file s n h first
        some (
          s',
          record {
            numa_id = n;
            hash_id = h;
            ppage_id = first;
            sz_allocated = 0;
            sz_freed = 0;
            start_addr = some ptr;
          },
        ))

  -- the body of the loops of the constructor
  unfoldable pub add_page : LogKv → ℕ → ℕ → Bool → Option LogKv
  unfolding new_ppage
  add_page m n h recovery = do
    (s, page) ← new_ppage m.pmem n h recovery
    some (record m {
      ppage = put_page m.ppage n h page;
      pmem = record s { start_addr_arr = put_start s.start_addr_arr n h 0 page.start_addr };
    })

  unfoldable pub hash_loop : ℕ → ℕ → ℕ → Bool → LogKv → Option LogKv
  unfolding add_page
  hash_loop zero n h recovery m = some m
  hash_loop (suc rounds) n h recovery m = do
    m' ← add_page m n h recovery
    hash_loop rounds n (suc h) recovery m'

  unfoldable pub numa_loop : ℕ → ℕ → Bool → LogKv → Option LogKv
  unfolding hash_loop
  numa_loop zero n recovery m = some m
  numa_loop (suc rounds) n recovery m = do
    m' ← hash_loop shards n 0 recovery m
    numa_loop rounds (suc n) recovery m'

  abbrev no_page : PPage
  no_page = record {
    numa_id = 0;
    hash_id = 0;
    ppage_id = 0;
    sz_allocated = 0;
    sz_freed = 0;
    start_addr = none;
  }

  -- `new global_ppage_meta()`, with no file mapped
  abbrev pub blank_log : LogKv
  blank_log = record {
    ppage = λ n h. no_page;
    version = λ h. 0;
    pmem = record { start_addr_arr = λ n h p. none; memory = λ b o. all_ones };
  }

  unfoldable pub create : Bool → Option LogKv
  unfolding numa_loop
  create recovery = numa_loop numa_node_num 0 recovery blank_log

  -- The pages below node `n`, and of node `n` those below shard `h`, are made; no other file is mapped.
  record Made (n h : ℕ) (m : LogKv) : Type 0 where
    page :
        (n' h' : ℕ)
        → (n' < n) ⊎ ((n' ≡ n) × (h' < h))
        → h' < shards
        → PageIsValid map_file shards m n' h'
    named : (n' h' p b : ℕ) → m.pmem.start_addr_arr n' h' p ≡ some b → map_file n' h' p ≡ some b
    open_file :
        (n' h' p : ℕ) → (n < n') ⊎ ((n' ≡ n) × (h ≤ h')) → m.pmem.start_addr_arr n' h' p ≡ none

  add_page-Made :
      (n h : ℕ) (m : LogKv) (b : ℕ)
      → map_file n h 0 ≡ some b
      → Made n h m
      → (m' : LogKv) × (add_page m n h false ≡ some m') × Made n (suc h) m'
  unfolding add_page new_ppage alloc_new_ppage
  add_page-Made n h m b made prior =
      let page : PPage = record {
        numa_id = n;
        hash_id = h;
        ppage_id = 0;
        sz_allocated = 0;
        sz_freed = 0;
        start_addr = some b;
      } in
      let arr = put_start (put_start m.pmem.start_addr_arr n h 0 (some b)) n h 0 (some b) in
      let m' : LogKv = record m {
        ppage = put_page m.ppage n h page;
        pmem = record { start_addr_arr = arr; memory = clear_block m.pmem.memory b };
      } in
      (
        m',
        rw made refl,
        record {
          page = λ n' h' q r. elim (Bool-cases ((n == n') && (h == h'))) [
            | inl same ↦ record {
              numa_id = rw same (ground arith);
              hash_id = rw same (ground arith);
              filled = rw same (omega arith);
              few = rw same (omega arith);
              mapped = rw same (ground arith);
              there = rw same (b, refl);
              unused = rw same (λ p u. ground (arith, prior.open_file n' h' p));
            }
            | inr other ↦
                (let v = prior.page n' h' (ground (arith, q, other)) r in
                  record {
                    numa_id = rw other v.numa_id;
                    hash_id = rw other v.hash_id;
                    filled = rw other v.filled;
                    few = rw other v.few;
                    mapped = rw other (ground (arith, v.mapped, other));
                    there = rw other v.there;
                    unused = rw other (λ p u. ground (arith, v.unused p, other));
                  })
          ];
          named = λ n' h' p b' q. ground (arith, made, prior.named n' h' p b');
          open_file = λ n' h' p q. ground (arith, prior.open_file n' h' p, q);
        },
      )

  module _
      (files : (n h : ℕ)
        → n < numa_node_num
        → h < shards
        → (b : ℕ) × (map_file n h 0 ≡ some b)) where
    hash_loop-Made :
        (rounds n h : ℕ) (m : LogKv)
        → n < numa_node_num
        → h + rounds ≡ shards
        → Made n h m
        → (m' : LogKv) × (hash_loop rounds n h false m ≡ some m') × Made n shards m'
    unfolding hash_loop
    hash_loop-Made zero n h m node q made =
        let e : h ≡ shards = omega arith in (m, refl, subst (λ x. Made n x m) e made)
    hash_loop-Made (suc rounds) n h m node q made =
        let (b, file) = files n h node (omega arith) in
        let (m1, run, made1) = add_page-Made n h m b file made in
        let (m2, run2, made2) = hash_loop-Made rounds n (suc h) m1 node (omega arith) made1 in
        (m2, rw (run, run2) refl, made2)

    next_node : (n : ℕ) (m : LogKv) → Made n shards m → Made (suc n) 0 m
    next_node n m made = record {
      page = λ n' h' q r. made.page n' h' (ground (arith, q, r)) r;
      named = made.named;
      open_file = λ n' h' p q. made.open_file n' h' p (ground (arith, q));
    }

    numa_loop-Made :
        (rounds n : ℕ) (m : LogKv)
        → n + rounds ≡ numa_node_num
        → Made n 0 m
        → (m' : LogKv) × (numa_loop rounds n false m ≡ some m') × Made numa_node_num 0 m'
    unfolding numa_loop
    numa_loop-Made zero n m q made =
        let e : n ≡ numa_node_num = omega arith in (m, refl, subst (λ x. Made x 0 m) e made)
    numa_loop-Made (suc rounds) n m q made =
        let (m1, run, made1) = hash_loop-Made shards n 0 m (omega arith) (omega arith) made in
        let (m2, run2, made2) =
          numa_loop-Made rounds (suc n) m1 (omega arith) (next_node n m1 made1) in
        (m2, rw (run, run2) refl, made2)

    pub create-IsValid : (m : LogKv) × (create false ≡ some m) × IsValid map_file shards m
    unfolding create
    create-IsValid =
        let (m, run, made) = numa_loop-Made numa_node_num 0 blank_log refl (record {
          page = λ n' h' q r. absurd (omega (arith, q));
          named = λ n' h' p b q. absurd (cc q);
          open_file = λ n' h' p q. refl;
        }) in
        (m, run, record { page = λ n' h' q r. made.page n' h' (inl q) r; named = made.named })
