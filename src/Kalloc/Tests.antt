-- ===== src/Kalloc/Tests.antt =====
-- Tests of kalloc.c, with a kernel that ends at 0x80021000.
use cs3500_os.Base.{ℕ, ◌-◌, ◌/◌, ◌≡◌, refl, [], ◌∷◌, arith, ok, panic}
use cs3500_os.Kalloc.{Kmem, kfree, kinit, phystop, pg_round_up}
use cs3500_os.Kalloc.FreeList.{IsFree, IsPage, descending, kinit-IsFree}

abbrev kernel_end : ℕ
kernel_end = 0x80021000

abbrev empty : Kmem
empty = record { mem = λ a. 0; freelist = 0 }

abbrev one_page : Kmem
one_page = record { mem = λ a. 0; freelist = 0x80022000 }

IsPage-IsPage : IsPage kernel_end 0x80022000
IsPage-IsPage = omega arith

one_page-IsFree : IsFree kernel_end one_page (0x80022000 ∷ [])
one_page-IsFree = record { chain = (refl, refl); pages = (IsPage-IsPage, tt); distinct = (tt, tt) }

kinit-IsFree_example :
    (k' : Kmem) × (kinit kernel_end (λ a. 0) ≡ ok k')
    × IsFree kernel_end k'
        (descending (pg_round_up kernel_end) ((phystop - pg_round_up kernel_end) / 4096))
kinit-IsFree_example = kinit-IsFree kernel_end (λ a. 0) (omega arith)

-- A misaligned address and one below the kernel's end.
kfree_misaligned : kfree kernel_end empty 0x80022008 ≡ panic
unfolding kfree
kfree_misaligned = refl

kfree_kernel : kfree kernel_end empty 0x80020000 ≡ panic
unfolding kfree
kfree_kernel = refl
