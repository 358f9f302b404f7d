-- ===== src/Fs/Tests.antt =====
-- fs.c: a small disk, and paths.
use cs3500_os.Base.{if◌then◌else◌, true, ◌≡◌, refl, ◌&&◌, [], ◌∷◌, map, take, arith, ltb, ◌==◌}
use cs3500_os.Fs.{
  Disk, Superblock, scan_block, balloc_loop, balloc, Str, slash, dirsiz, skip_slashes, element,
  after_element, skipelem, names,
}
use cs3500_os.Fs.Bitmap.{Allocs, balloc-Allocs}
use cs3500_os.Fs.Frees.{IsBitmap}
use cs3500_os.Fs.Inodes.{Itable, iget, IsUnique, Gets, iget-Gets}
use cs3500_os.Fs.Paths.{pieces, solid, names-pieces}

-- Five blocks, of which the second is the bitmap, and the first two are in use.
abbrev five : Superblock
five = record { size = 5; bmapstart = 1 }

abbrev small_disk : Disk
small_disk block i j = (block == 1) && (i == 0) && ltb j 2

small_disk-IsBitmap : IsBitmap five small_disk
small_disk-IsBitmap = record { first = refl; bitmap = λ k lt below. ground arith }

balloc-Allocs_example : Allocs five small_disk 0 (balloc five small_disk)
balloc-Allocs_example = balloc-Allocs five small_disk

takes_two : (balloc five small_disk).0 ≡ 2
unfolding balloc balloc_loop scan_block
takes_two = refl

-- ///a//bb
abbrev path_of_two : Str
path_of_two = slash ∷ slash ∷ slash ∷ 97 ∷ slash ∷ slash ∷ 98 ∷ 98 ∷ []

names-pieces_example : names 8 path_of_two ≡ map (take dirsiz) (solid (pieces path_of_two))
names-pieces_example = names-pieces 8 path_of_two (omega arith)

two_names : names 8 path_of_two ≡ (97 ∷ []) ∷ (98 ∷ 98 ∷ []) ∷ []
unfolding names skipelem skip_slashes element after_element
two_names = refl

-- Slot 1 has inode 7 of device 1.
abbrev one_inode : Itable
one_inode k = record { dev = 1; inum = 7; ref = if k == 1 then 2 else 0; valid = true }

one_inode-IsUnique : IsUnique one_inode
one_inode-IsUnique = λ j k a b pos same. ground (arith, pos, same)

iget-Gets_example : Gets 1 7 one_inode (iget 1 7 one_inode)
iget-Gets_example = iget-Gets 1 7 one_inode one_inode-IsUnique
