-- ===== src/Strings/Tests.antt =====
-- Tests of string.c: memory holds "ab" and a NUL at 100, and "abc" and a NUL at 200.
use cs3500_os.Base.{◌≡◌, ◌==◌, if◌then◌else◌}
use cs3500_os.Strings.{Bytes, memmove}
use cs3500_os.Strings.Moves.{memmove-Moved}

abbrev memory : Bytes
memory a =
    if a == 100
    then 97
    else if a == 101
    then 98
    else if a == 200
    then 97
    else if a == 201
    then 98
    else if a == 202
    then 99
    else 0

-- The ranges overlap, and the byte at 202 was at 201.
memmove_moves : memmove 3 201 200 memory 202 ≡ 98
memmove_moves = memmove-Moved 3 201 200 memory 202
