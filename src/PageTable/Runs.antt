-- ===== src/PageTable/Runs.antt =====
-- vm.c: the rounds of the loop of uvmalloc(), as equations.
use cs3500_os.Base.{
  ℕ, zero, suc, ◌+◌, ◌%◌, ◌^◌, bit_or, ◌≡◌, refl, true, false, ltb, ◌==◌, ◌>>=◌, ok,
}
use cs3500_os.Kalloc.{Kmem, kalloc, kfree, memset_page, pgsize}
use cs3500_os.PageTable.{mappages, uvmdealloc, alloc_loop}

module _ (kernel_end fuel root a o newsz xperm : ℕ) (k : Kmem) where
  pub runs_stop :
      ltb a newsz ≡ false → alloc_loop kernel_end fuel root a o newsz xperm k ≡ ok (newsz, k)
  unfolding alloc_loop
  runs_stop stop = go fuel
    where
      go : (n : ℕ) → alloc_loop kernel_end n root a o newsz xperm k ≡ ok (newsz, k)
      go zero = rw stop refl
      go (suc n) = rw (stop, alloc_loop) refl

  pub runs_empty :
      (k' k'' : Kmem) (sz : ℕ)
      → ltb a newsz ≡ true
      → kalloc k ≡ (0, k')
      → uvmdealloc kernel_end root a o k' ≡ ok (sz, k'')
      → alloc_loop kernel_end (suc fuel) root a o newsz xperm k ≡ ok (0, k'')
  unfolding alloc_loop
  runs_empty k' k'' sz more e d = rw (more, alloc_loop, e, e, d, ◌>>=◌) refl

  module _ (k' k2 : Kmem) (x : ℕ) (more : ltb a newsz ≡ true) (e : kalloc k ≡ (x, k'))
      (some_page : (x == 0) ≡ false) where
    pub runs_more :
        mappages root a pgsize x
            (bit_or 18 xperm)
            (record { mem = memset_page k'.mem x 0; freelist = k'.freelist })
          ≡ ok (true, k2)
        → alloc_loop kernel_end (suc fuel) root a o newsz xperm k
          ≡ alloc_loop kernel_end fuel root ((a + pgsize) % 2 ^ 64) o newsz xperm k2
    unfolding alloc_loop
    runs_more m = rw (more, alloc_loop, e, some_page, e, m, ◌>>=◌) refl

    pub runs_full :
        (k3 k4 : Kmem) (sz : ℕ)
        → mappages root a pgsize x
            (bit_or 18 xperm)
            (record { mem = memset_page k'.mem x 0; freelist = k'.freelist })
          ≡ ok (false, k2)
        → kfree kernel_end k2 x ≡ ok k3
        → uvmdealloc kernel_end root a o k3 ≡ ok (sz, k4)
        → alloc_loop kernel_end (suc fuel) root a o newsz xperm k ≡ ok (0, k4)
    unfolding alloc_loop
    runs_full k3 k4 sz m f d =
        rw (more, alloc_loop, e, some_page, e, m, ◌>>=◌, e, f, ◌>>=◌, d, ◌>>=◌) refl
