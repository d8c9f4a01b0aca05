-- ===== src/Nbbio/Fifo.antt =====
-- What nbbio.h promises of `nbbio`: a queue of at most 1023 bytes.
use c10kcode.Common.{ℕ, ◌-◌, List, ◌++◌, ltb, if◌then◌else◌, length, ewouldblock, emsgsize}

-- The bytes that fit: one less than the size of the buffer.
abbrev pub capacity : ℕ
capacity = 1023

-- All the bytes go in, or none and the code says whether they ever could.
unfoldable pub put : List ℕ → List ℕ → ℕ × List ℕ
put q p =
    if ltb (capacity - length q) (length p)
    then (if ltb capacity (length p) then emsgsize else ewouldblock, q)
    else (0, q ++ p)
