-- ===== src/Virtio/Tests.antt =====
-- Requests to the disk.
use cs3500_os.Base.{ℕ, ◌+◌, ◌*◌, ◌≡◌, refl, true, false, ◌||◌, ◌==◌, if◌then◌else◌, some, arith, ok}
use cs3500_os.Virtio.{
  Disk, Idx, alloc_from, alloc_desc, alloc3_desc, first_desc, second_desc, third_desc, submit,
  finish,
}
use cs3500_os.Virtio.Chains.{Takes, alloc3_desc-Takes}
use cs3500_os.Virtio.Requests.{one_of, finish-submit}

abbrev disk : Disk
disk = record {
  desc = λ i. record { addr = 0; len = 0; flags = 0; next = 0 };
  free = λ i. i == 1 || i == 4 || i == 6;
  ops = λ i. record { kind = 0; sector = 0 };
  info_b = λ i. 0;
  info_status = λ i. 0;
  ring = λ i. 0;
  avail_idx = 65535;
}

abbrev three : Idx
three = record { first = 1; second = 4; third = 6 }

abbrev busy_disk : Disk
busy_disk = record disk { free = λ i. false }

-- The disk once the buffer 9 is to be written to block 5.
abbrev with_request : Disk
with_request = submit (λ i. 4096 + 16 * i) (λ i. 8192 + 16 * i) true 9 5 12288 three busy_disk

alloc3_desc-Takes_example : Takes disk (alloc3_desc disk)
alloc3_desc-Takes_example = alloc3_desc-Takes disk

takes_three : alloc3_desc disk ≡ ok (some three, (alloc_desc (alloc_desc (alloc_desc disk).1).1).1)
unfolding alloc3_desc alloc_desc alloc_from first_desc second_desc third_desc
takes_three = refl

finish-submit_example :
    (d' : Disk) × (finish 1 with_request ≡ ok d')
    × ((k : ℕ) → d'.free k ≡ (if one_of three k then true else with_request.free k))
unfolding submit
finish-submit_example =
    finish-submit (λ i. 4096 + 16 * i) (λ i. 8192 + 16 * i) true 9 5 12288 three
      (record { one_two = ground arith; two_three = ground arith; fits = ground arith }) busy_disk
      with_request (λ k h. refl) (λ k h. refl)
