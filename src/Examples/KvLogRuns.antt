-- ===== src/Examples/KvLogRuns.antt =====
-- A log of two nodes and four shards, and the files it is mapped to.
use nali.Prelude.{
  ℕ, ◌+◌, ◌*◌, ◌%◌, ◌^◌, ◌≤◌, ◌≡◌, refl, inr, ◌&&◌, Option, none, some, ltb, ◌==◌, if◌then◌else◌,
  arith,
}
use nali.KvLog.Address.{of_uint64, to_uint64, of_uint64-to_uint64, to_uint64-of_uint64}
use nali.KvLog.Defs.{
  insert_op, delete_op, update_op, PairT, all_ones, put_memory, get_numa_id, uint64_max,
}
use nali.KvLog.Log.{LogKv, insert, erase, update_step1, store_persist, load, get_addr, set_version}
use nali.KvLog.Valid.{IsValid, IsRoomy}
use nali.KvLog.Ready.{AreSeparate}
use nali.KvLog.Laws.{
  Logged, Written, Written-load, insert-Logged, erase-Logged, update_step1-Logged,
}

abbrev pub disk : ℕ → ℕ → ℕ → Option ℕ
disk n h p = if ltb n 2 && (ltb h 4 && ltb p 32) then some (n * 128 + h * 32 + p) else none

pub disk-AreSeparate : AreSeparate disk
disk-AreSeparate = record {
  node = λ n h p n' h' p' b q r. ground (arith, q, r);
  shard = λ n h p n' h' p' b q r. ground (arith, q, r);
  file = λ n h p n' h' p' b q r. ground (arith, q, r);
}

-- the log of key 5, in shard 1 of node 0, at offset 64 of the first file
abbrev pub log5 : PairT
log5 = record { op = insert_op; version = 1; key = 5; value = 50; u_offset = uint64_max }

abbrev pub addr5 : ℕ
addr5 = 8 * 2 ^ 48 + 64

abbrev pub log_with : ℕ → LogKv
log_with sz = record {
  ppage = λ n h. record {
    numa_id = n;
    hash_id = h;
    ppage_id = 0;
    sz_allocated = sz;
    sz_freed = 0;
    start_addr = some (n * 128 + h * 32);
  };
  version = λ h. 7;
  pmem = record {
    start_addr_arr =
        λ n h p. if ltb n 2 && (ltb h 4 && (p == 0)) then some (n * 128 + h * 32) else none;
    memory = put_memory (λ b o. all_ones) 32 64 log5;
  };
}

pub log_with-IsValid : (sz : ℕ) → sz ≤ 16777216 → IsValid disk 4 (log_with sz)
log_with-IsValid sz small = record {
  page = λ n h node shard. record {
    numa_id = refl;
    hash_id = refl;
    filled = small;
    few = omega arith;
    mapped = ground (arith, node, shard);
    there = (n * 128 + h * 32, refl);
    unused = λ p u. ground (arith, u);
  };
  named = λ n h p b q. ground (arith, q);
}

-- 96 bytes used, and a page that is nearly full
abbrev pub early : LogKv
early = log_with 96

abbrev pub late : LogKv
late = log_with 16777200

pub early-IsValid : IsValid disk 4 early
early-IsValid = log_with-IsValid 96 (omega arith)

pub late-IsValid : IsValid disk 4 late
late-IsValid = log_with-IsValid 16777200 (omega arith)

pub early-Written : Written disk 4 early 5 addr5 log5
unfolding of_uint64
early-Written = record {
  place = record {
    node = omega arith;
    shard = omega arith;
    fits = record {
      vlen = omega arith;
      numa_id = omega arith;
      ppage_id = omega arith;
      log_offset = omega arith;
    };
    block = 32;
    pointed = refl;
    before = inr (refl, omega arith);
  };
  content = refl;
}

late-IsRoomy : IsRoomy disk late (get_numa_id 3) (5 % 4)
unfolding get_numa_id
late-IsRoomy = inr (omega arith, 33, refl)

of_uint64-to_uint64_example :
    of_uint64 (to_uint64 (record { vlen = 8; numa_id = 1; ppage_id = 31; log_offset = 16777184 }))
    ≡ record { vlen = 8; numa_id = 1; ppage_id = 31; log_offset = 16777184 }
of_uint64-to_uint64_example =
    of_uint64-to_uint64 (record { vlen = 8; numa_id = 1; ppage_id = 31; log_offset = 16777184 })
      (record {
        vlen = omega arith;
        numa_id = omega arith;
        ppage_id = omega arith;
        log_offset = omega arith;
      })

to_uint64-of_uint64_example : to_uint64 (of_uint64 2251799813685312) ≡ 2251799813685312
to_uint64-of_uint64_example = to_uint64-of_uint64 2251799813685312 (omega arith)

Written-load_example : load early (get_addr disk 4 early (of_uint64 addr5) 5) ≡ some log5
Written-load_example = Written-load disk 4 early 5 addr5 log5 early-Written

insert-Logged_example :
    (m' : LogKv) × (addr_info : ℕ) × (insert disk 4 late 3 9 90 5 ≡ some (m', addr_info))
    × Logged disk 4 late m' 5 addr_info (record {
      op = insert_op;
      version = set_version 7;
      key = 9;
      value = 90;
      u_offset = uint64_max;
    })
insert-Logged_example =
    insert-Logged disk 4 (omega arith) disk-AreSeparate late late-IsValid 3 5 late-IsRoomy 9 90

erase-Logged_example :
    (m' : LogKv) × (addr_info : ℕ) × (erase disk 4 late 3 9 5 addr5 0 0 ≡ some m')
    × Logged disk 4 late m' 5 addr_info
        (record { op = delete_op; version = set_version 7; key = 9; value = 0; u_offset = addr5 })
erase-Logged_example =
    erase-Logged disk 4 (omega arith) disk-AreSeparate late late-IsValid 3 5 late-IsRoomy 9 addr5 0
      0 (omega arith)

update_step1-Logged_example :
    (m' : LogKv) × (p' : PairT) × (addr : Option (ℕ × ℕ)) × (addr_info : ℕ) × (m'' : LogKv)
    × (update_step1 disk 4 late 3 5 log5 ≡ some (m', p', addr, addr_info))
    × (store_persist m' addr (record p' { u_offset = addr5 }) ≡ some m'')
    × IsValid disk 4 m'
    × ((h a : ℕ) (q : PairT) → Written disk 4 late h a q → Written disk 4 m' h a q)
    × Logged disk 4 late m'' 5 addr_info
        (record { op = update_op; version = set_version 7; key = 5; value = 50; u_offset = addr5 })
update_step1-Logged_example =
    update_step1-Logged disk 4 (omega arith) disk-AreSeparate late late-IsValid 3 5 late-IsRoomy
      log5 addr5
