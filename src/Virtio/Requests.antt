-- ===== src/Virtio/Requests.antt =====
-- virtio_disk.c: the chain of a request is the one that is freed when the request is done.
use cs3500_os.Base.{
  ℕ, suc, ◌%◌, ◌<◌, ◌≡◌, refl, ap, ◌∙◌, Bool, true, false, ◌||◌, ◌==◌, if◌then◌else◌, update, arith,
  ok, ◌>>=◌, eq→==,
}
use cs3500_os.Virtio.{Disk, Idx, clear_desc, free_chain, submit, finish}
use cs3500_os.Virtio.Chains.{free_desc-clear}

chain_next :
    (fuel i : ℕ) (d : Disk)
    → i < 8
    → d.free i ≡ false
    → (d.desc i).flags % 2 ≡ 1
    → free_chain (suc fuel) i d ≡ free_chain fuel (d.desc i).next (clear_desc d i)
unfolding free_chain
chain_next fuel i d lt used odd = rw (free_chain, free_desc-clear d i lt used, ◌>>=◌, odd) refl

chain_last :
    (fuel i : ℕ) (d : Disk)
    → i < 8
    → d.free i ≡ false
    → (d.desc i).flags % 2 ≡ 0
    → free_chain (suc fuel) i d ≡ ok (clear_desc d i)
unfolding free_chain
chain_last fuel i d lt used even = rw (free_chain, free_desc-clear d i lt used, ◌>>=◌, even) refl

-- Three descriptors in their order, as alloc3_desc takes them.
pub record IsIdx (x : Idx) : Type 0 where
  pub one_two : x.first < x.second
  pub two_three : x.second < x.third
  pub fits : x.third < 8

abbrev pub one_of : Idx → ℕ → Bool
one_of x k = x.first == k || x.second == k || x.third == k

module _ (ops_at status_at : ℕ → ℕ) (write : Bool) (b blockno bytes : ℕ) (x : Idx) (v : IsIdx x)
    (d : Disk) where
  abbrev sent : Disk
  sent = submit ops_at status_at write b blockno bytes x d

  ne_12 : (x.first == x.second) ≡ false
  ne_12 = ground (arith, v.one_two)

  ne_23 : (x.second == x.third) ≡ false
  ne_23 = ground (arith, v.two_three)

  ne_21 : (x.second == x.first) ≡ false
  ne_21 = ground (arith, v.one_two)

  ne_31 : (x.third == x.first) ≡ false
  ne_31 = ground (arith, v.one_two, v.two_three)

  ne_32 : (x.third == x.second) ≡ false
  ne_32 = ground (arith, v.two_three)

  link_one : ((sent.desc x.first).flags % 2 ≡ 1) × ((sent.desc x.first).next ≡ x.second)
  unfolding submit
  link_one = rw (ne_31, ne_21, eq→== x.first x.first refl) (refl, refl)

  link_two : ((sent.desc x.second).flags % 2 ≡ 1) × ((sent.desc x.second).next ≡ x.third)
  unfolding submit
  link_two = rw (ne_32, eq→== x.second x.second refl) (odd write, refl)
    where
      odd : (w : Bool) → (if w then 1 else 3) % 2 ≡ 1
      odd true = refl
      odd false = refl

  link_three : (sent.desc x.third).flags % 2 ≡ 0
  unfolding submit
  link_three = rw (eq→== x.third x.third refl) refl

  -- The descriptors that virtio_disk_rw has filled in for a request, at three increasing indexes
  -- below 8, form a chain: in each later state in which these are as it left them and are not
  -- free, the end of virtio_disk_rw returns without a panic, frees these three, and changes no
  -- other descriptor's freedom.
  pub finish-submit :
      (later : Disk)
      → ((k : ℕ) → one_of x k ≡ true → later.desc k ≡ sent.desc k)
      → ((k : ℕ) → one_of x k ≡ true → later.free k ≡ false)
      → (d' : Disk) × (finish x.first later ≡ ok d')
        × ((k : ℕ) → d'.free k ≡ (if one_of x k then true else later.free k))
  unfolding finish
  finish-submit later same used =
      let in_1 : one_of x x.first ≡ true = rw (eq→== x.first x.first refl) refl in
      let in_2 : one_of x x.second ≡ true = rw (ne_12, eq→== x.second x.second refl) refl in
      let in_3 : one_of x x.third ≡ true = ground (arith, v.one_two, v.two_three) in
      let s0 = record later { info_b = update later.info_b x.first 0 } in
      let s1 = clear_desc (record later { info_b = update later.info_b x.first 0 }) x.first in
      let s2 =
        clear_desc (clear_desc (record later { info_b = update later.info_b x.first 0 }) x.first)
          x.second in
      let at_1 = same x.first in_1 in
      let at_2 : s1.desc x.second ≡ sent.desc x.second = rw ne_12 (same x.second in_2) in
      let at_3 : s2.desc x.third ≡ sent.desc x.third = rw (ne_23, ne_13) (same x.third in_3) in
      let u2 : s1.free x.second ≡ false = rw ne_12 (used x.second in_2) in
      let u3 : s2.free x.third ≡ false = rw (ne_23, ne_13) (used x.third in_3) in
      (
        clear_desc s2 x.third,
        chain_next 7 x.first s0 (omega (arith, v.one_two, v.two_three, v.fits)) (used x.first in_1)
              (ap (λ q. q.flags % 2) at_1 ∙ link_one.0)
            ∙ (ap (λ q. free_chain 7 q s1) (ap (λ q. q.next) at_1 ∙ link_one.1)
                ∙ (chain_next 6 x.second s1 (omega (arith, v.two_three, v.fits)) u2
                      (ap (λ q. q.flags % 2) at_2 ∙ link_two.0)
                    ∙ (ap (λ q. free_chain 6 q s2) (ap (λ q. q.next) at_2 ∙ link_two.1)
                        ∙ chain_last 5 x.third s2 v.fits u3
                            (ap (λ q. q.flags % 2) at_3 ∙ link_three)))),
        free_after,
      )
    where
      ne_13 : (x.first == x.third) ≡ false
      ne_13 = ground (arith, v.one_two, v.two_three)

      free_after :
          (k : ℕ)
          → update (update (update later.free x.first true) x.second true) x.third true k
            ≡ (if one_of x k then true else later.free k)
      free_after k = ground arith
