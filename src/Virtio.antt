-- ===== src/Virtio.antt =====
-- labs/week7/EE23B102/xv6-riscv/kernel/virtio_disk.c: the descriptors of the disk, under vdisk_lock.
-- Addresses of the driver's own arrays are parameters. The memory barriers and the registers of the
-- device, the field `disk` of a buffer and the wakeups are left out.
pub mod Chains
pub mod Requests
mod Tests
use cs3500_os.Base.{
  ℕ, zero, suc, ◌+◌, ◌*◌, ◌/◌, ◌%◌, ◌^◌, Bool, true, false, not, Option, none, some, leb, ◌==◌,
  if◌then◌else◌, update, Outcome, ok, panic, ◌>>=◌, ◌>>◌, panic_if,
}

abbrev pub num : ℕ
num = 8

-- struct virtq_desc
pub record Desc : Type 0 where
  pub addr : ℕ
  pub len : ℕ
  pub flags : ℕ
  pub next : ℕ

-- struct virtio_blk_req, but for `reserved`, which is always 0
pub record Req : Type 0 where
  pub kind : ℕ
  pub sector : ℕ

-- struct disk, with info as two arrays. `ring` and `avail_idx` are *disk.avail.
pub record Disk : Type 0 where
  pub desc : ℕ → Desc
  pub free : ℕ → Bool
  pub ops : ℕ → Req
  pub info_b : ℕ → ℕ
  pub info_status : ℕ → ℕ
  pub ring : ℕ → ℕ
  pub avail_idx : ℕ

-- The loop of alloc_desc, from i on.
pub alloc_from : ℕ → ℕ → Disk → Option ℕ × Disk
alloc_from zero i d = (none, d)
alloc_from (suc n) i d =
    let rest = alloc_from n (i + 1) d in
    if d.free i then (some i, record d { free = update d.free i false }) else rest

pub alloc_desc : Disk → Option ℕ × Disk
unfolding alloc_from
alloc_desc d = alloc_from num 0 d

abbrev pub clear_desc : Disk → ℕ → Disk
clear_desc d i = record d {
  desc = update d.desc i (record { addr = 0; len = 0; flags = 0; next = 0 });
  free = update d.free i true;
}

pub free_desc : ℕ → Disk → Outcome Disk
free_desc i d = panic_if (leb num i) >> panic_if (d.free i) >> ok (clear_desc d i)

-- free_chain, on fuel.
pub free_chain : ℕ → ℕ → Disk → Outcome Disk
free_chain zero i d = panic
free_chain (suc fuel) i d = free_desc i d >>= λ d'. elim (not ((d.desc i).flags % 2 == 0)) [
  | true ↦ free_chain fuel (d.desc i).next d'
  | false ↦ ok d'
]

-- idx[0], idx[1] and idx[2]
pub record Idx : Type 0 where
  pub first : ℕ
  pub second : ℕ
  pub third : ℕ

-- The rounds of alloc3_desc, last one first.
pub third_desc : ℕ → ℕ → Option ℕ × Disk → Outcome (Option Idx × Disk)
third_desc i j (none, d) = free_desc i d >>= λ d'. free_desc j d' >>= λ d''. ok (none, d'')
third_desc i j (some k, d) = ok (some (record { first = i; second = j; third = k }), d)

pub second_desc : ℕ → Option ℕ × Disk → Outcome (Option Idx × Disk)
second_desc i (none, d) = free_desc i d >>= λ d'. ok (none, d')
second_desc i (some j, d) = third_desc i j (alloc_desc d)

pub first_desc : Option ℕ × Disk → Outcome (Option Idx × Disk)
first_desc (none, d) = ok (none, d)
first_desc (some i, d) = second_desc i (alloc_desc d)

pub alloc3_desc : Disk → Outcome (Option Idx × Disk)
alloc3_desc d = first_desc (alloc_desc d)

module _ (ops_at status_at : ℕ → ℕ) where
  -- The part of virtio_disk_rw from the descriptors that it got to the request in the avail ring; b is
  -- the buffer, and `bytes` the address of its data.
  pub submit : Bool → ℕ → ℕ → ℕ → Idx → Disk → Disk
  submit write b blockno bytes x d = record {
    desc =
        update
          (update
            (update d.desc x.first
              (record { addr = ops_at x.first; len = 16; flags = 1; next = x.second }))
            x.second
            (record { addr = bytes; len = 1024; flags = if write then 1 else 3; next = x.third }))
          x.third (record { addr = status_at x.first; len = 1; flags = 2; next = 0 });
    free = d.free;
    ops =
        update d.ops x.first
          (record { kind = if write then 1 else 0; sector = blockno * 2 % 2 ^ 32 });
    info_b = update d.info_b x.first b;
    info_status = update d.info_status x.first 255;
    ring = update d.ring (d.avail_idx % num) x.first;
    avail_idx = (d.avail_idx + 1) % 2 ^ 16;
  }

-- The end of virtio_disk_rw
pub finish : ℕ → Disk → Outcome Disk
finish i d = free_chain num i (record d { info_b = update d.info_b i 0 })
