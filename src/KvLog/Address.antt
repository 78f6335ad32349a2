-- ===== src/KvLog/Address.antt =====
-- `last_log_offest` of src/nali_kvlog.h: where a log lies, packed into 64 bits.
use nali.Prelude.{ℕ, ◌+◌, ◌*◌, ◌/◌, ◌%◌, ◌^◌, ◌<◌, ◌≡◌, arith}

pub record LastLogOffest : Type 0 where
  pub vlen : ℕ
  pub numa_id : ℕ
  pub ppage_id : ℕ
  pub log_offset : ℕ

-- `(addr_info & vlen_mask) >> 48`, and so on, each cut to the width of its field
unfoldable pub of_uint64 : ℕ → LastLogOffest
of_uint64 addr_info = record {
  vlen = addr_info / 2 ^ 48 % 2 ^ 16;
  numa_id = addr_info / 2 ^ 40 % 2 ^ 8;
  ppage_id = addr_info / 2 ^ 32 % 2 ^ 8;
  log_offset = addr_info % 2 ^ 32;
}

-- The shifted fields share no bits, so `|` of them is their sum.
unfoldable pub to_uint64 : LastLogOffest → ℕ
to_uint64 x = x.vlen * 2 ^ 48 + x.numa_id * 2 ^ 40 + x.ppage_id * 2 ^ 32 + x.log_offset

-- Every field has the width of its type.
pub record Fits (x : LastLogOffest) : Type 0 where
  pub vlen : x.vlen < 2 ^ 16
  pub numa_id : x.numa_id < 2 ^ 8
  pub ppage_id : x.ppage_id < 2 ^ 8
  pub log_offset : x.log_offset < 2 ^ 32

-- An address whose fields have the widths of their types is read back from its packed form.
pub of_uint64-to_uint64 : (x : LastLogOffest) → Fits x → of_uint64 (to_uint64 x) ≡ x
unfolding of_uint64 to_uint64
of_uint64-to_uint64 x f =
    let v = f.vlen in
    let n = f.numa_id in
    let p = f.ppage_id in
    let o = f.log_offset in
    let a = to_uint64 x in
    let v' : a / 2 ^ 48 % 2 ^ 16 ≡ x.vlen = omega arith in
    let n' : a / 2 ^ 40 % 2 ^ 8 ≡ x.numa_id = omega arith in
    let p' : a / 2 ^ 32 % 2 ^ 8 ≡ x.ppage_id = omega arith in
    let o' : a % 2 ^ 32 ≡ x.log_offset = omega arith in
    λ i. record { vlen = v' i; numa_id = n' i; ppage_id = p' i; log_offset = o' i }

-- A number below 2 ^ 64 is the packed form of the address that is read from it.
pub to_uint64-of_uint64 : (n : ℕ) → n < 2 ^ 64 → to_uint64 (of_uint64 n) ≡ n
unfolding of_uint64 to_uint64
to_uint64-of_uint64 n h = omega arith

pub Fits-of_uint64 : (n : ℕ) → Fits (of_uint64 n)
unfolding of_uint64
Fits-of_uint64 n = record {
  vlen = omega arith;
  numa_id = omega arith;
  ppage_id = omega arith;
  log_offset = omega arith;
}

pub to_uint64_lt : (x : LastLogOffest) → Fits x → to_uint64 x < 2 ^ 64
unfolding to_uint64
to_uint64_lt x f =
    let v = f.vlen in let n = f.numa_id in let p = f.ppage_id in let o = f.log_offset in omega arith
