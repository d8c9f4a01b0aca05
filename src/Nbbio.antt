-- ===== src/Nbbio.antt =====
-- dkftpbench-0.45/nbbio.h and nbbio.cc: the circular byte buffer between a nonblocking socket and
-- the program. Bytes are numbers. The fields are `m_buf`, `m_getFrom`, `m_putTo`, `m_linelen` and
-- `m_lastchar`; a method that changes them returns the new buffer beside its error code.
pub mod Contents
pub mod Fifo
pub mod Put
pub mod Transfer
pub mod Line
pub mod Readline
pub mod Lines
pub mod Resume
pub mod Progress
mod Tests
use mathlib.Core.Option
use c10kcode.Common.{
  Option, some, none, ℕ, zero, suc, ◌+◌, ◌-◌, ◌%◌, Bool, true, false, ◌&&◌, not, List, [], ◌∷◌,
  ◌++◌, ltb, leb, ◌==◌, if◌then◌else◌, length, take, drop, write, memcpy, ewouldblock, emsgsize,
  enospc, epipe,
}

-- `nbbio_BUFLEN`
abbrev pub buflen : ℕ
buflen = 1024

pub record Nbbio : Type 0 where
  pub buf : ℕ → ℕ
  pub get_from : ℕ
  pub put_to : ℕ
  pub linelen : ℕ
  pub lastchar : ℕ

-- `init` leaves the bytes of the buffer as they are.
unfoldable pub init : Nbbio → Nbbio
init b = record b { get_from = 0; put_to = 0; linelen = 0; lastchar = 0 }

-- `(m_putTo - m_getFrom) & (BUFLEN - 1)`, the mask being a remainder; 1024 is added first, since
-- the difference may be negative.
abbrev pub bytes_used : Nbbio → ℕ
bytes_used b = (b.put_to + buflen - b.get_from) % buflen

abbrev pub bytes_free : Nbbio → ℕ
bytes_free b = buflen - 1 - bytes_used b

abbrev pub is_empty : Nbbio → Bool
is_empty b = b.put_to == b.get_from

abbrev pub is_full : Nbbio → Bool
is_full b = bytes_free b == 0

abbrev pub contig_bytes_used : Nbbio → ℕ
contig_bytes_used b = (if leb b.get_from b.put_to then b.put_to else buflen) - b.get_from

abbrev pub contig_bytes_free : Nbbio → ℕ
contig_bytes_free b =
    (if ltb b.put_to b.get_from then b.get_from - 1 else buflen)
    - b.put_to
    - (if b.get_from == 0 then 1 else 0)

-- The end of `put`, where the index has reached the end of the buffer. The list is what is left.
abbrev pub put_wrap : Nbbio → List ℕ → Nbbio
put_wrap b rest =
    if b.put_to == buflen
    then (if ltb 0 (length rest)
        then record b { buf = memcpy b.buf 0 rest; put_to = length rest }
        else record b { put_to = 0 })
    else b

-- `put(p, n)`, the list being `p[0..n)`
unfoldable pub put : Nbbio → List ℕ → ℕ × Nbbio
put b p =
    if ltb (bytes_free b) (length p)
    then (if leb buflen (length p) then emsgsize else ewouldblock, b)
    else (let ncopy =
          if ltb (length p) (contig_bytes_free b) then length p else contig_bytes_free b in
        (
          0,
          put_wrap
              (record b { buf = memcpy b.buf b.put_to (take ncopy p); put_to = b.put_to + ncopy })
              (drop ncopy p),
        ))

unfoldable pub readc : Nbbio → ℕ × Nbbio
readc b = (b.buf b.get_from, record b { get_from = (b.get_from + 1) % buflen })

-- `if (m_linelen == maxlen) return ENOSPC; return EWOULDBLOCK;`
abbrev pub no_line : Nbbio → ℕ → ℕ
no_line b maxlen = if b.linelen == maxlen then enospc else ewouldblock

abbrev pub is_lf : ℕ → Bool
is_lf c = c == b'\n'

abbrev pub is_cr : ℕ → Bool
is_cr c = c == b'\r'

-- The loop of `readline`, on fuel; `line` is the caller's `linebuf`. `no_line` is also what is
-- returned where the fuel runs out, which is where the buffer is empty.
unfoldable pub read_loop : ℕ → Nbbio → (ℕ → ℕ) → ℕ → ℕ × (ℕ → ℕ) × Nbbio
read_loop zero b line maxlen = (no_line b maxlen, line, b)
read_loop (suc fuel) b line maxlen =
    let (c, b') = readc b in
    let skipped = read_loop fuel b' line maxlen in
    let stored =
      read_loop fuel (record b' { linelen = b.linelen + 1; lastchar = c }) (write line b.linelen c)
        maxlen in
    let ended = record b' { linelen = 0; lastchar = c } in
    if not (is_empty b) && ltb b.linelen maxlen
    then (if is_lf c
        then (if is_cr b.lastchar then skipped else (0, write line b.linelen 0, ended))
        else (if is_cr c then (0, write line b.linelen 0, ended) else stored))
    else (no_line b maxlen, line, b)

-- `readline(linebuf, maxlen)`
unfoldable pub readline : Nbbio → (ℕ → ℕ) → ℕ → ℕ × (ℕ → ℕ) × Nbbio
unfolding read_loop readc
readline b line maxlen =
    if is_empty b then (ewouldblock, line, b) else read_loop (bytes_used b) b line maxlen

-- What `read` and `write` of the operating system answer: some bytes (for `write`, how many it
-- took), or -1 with `errno`.
pub data ReadReply : Type 0 where
  got : List ℕ → ReadReply
  failed : ℕ → ReadReply

pub data WriteReply : Type 0 where
  took : ℕ → WriteReply
  failed : ℕ → WriteReply

-- The bytes at `a[i..i+n)`
abbrev pub slice : (ℕ → ℕ) → ℕ → ℕ → List ℕ
slice a i zero = []
slice a i (suc n) = a i ∷ slice a (i + 1) n

-- What `flushTo` does with the answer of `write`; `again` is its call of itself, which is made
-- where the get index has gone round and bytes are left.
abbrev pub after_write :
    Nbbio → Option (ℕ × List ℕ × Nbbio) → WriteReply → Option (ℕ × List ℕ × Nbbio)
after_write b again (WriteReply.failed e) = some (e, [], b)
after_write b again (took n) =
    if b.get_from + n == buflen
    then (if is_empty (record b { get_from = 0 })
        then some (0, slice b.buf b.get_from n, record b { get_from = 0 })
        else Option.map (λ r. (r.0, slice b.buf b.get_from n ++ r.1, r.2)) again)
    else some (0, slice b.buf b.get_from n, record b { get_from = b.get_from + n })

-- `flushTo(fd)`, on fuel for its call of itself; `Transfer.flush_to_lem` shows that two
-- rounds are enough.
-- `os_write i n` is the answer to its call `i` of `write`, with `n` bytes. The middle of a result is
-- what the descriptor was given.
unfoldable pub flush_loop : (ℕ → ℕ → WriteReply) → ℕ → ℕ → Nbbio → Option (ℕ × List ℕ × Nbbio)
flush_loop os_write zero i b = none
flush_loop os_write (suc fuel) i b =
    let again = flush_loop os_write fuel (i + 1) (record b { get_from = 0 }) in
    if contig_bytes_used b == 0
    then some (0, [], b)
    else after_write b again (os_write i (contig_bytes_used b))

unfoldable pub flush_to : (ℕ → ℕ → WriteReply) → Nbbio → Option (ℕ × List ℕ × Nbbio)
unfolding flush_loop
flush_to os_write b = flush_loop os_write 2 0 b

-- The second half of `fillFrom`, after the first `read` has filled the buffer to its end.
-- The middle of a result is what the descriptor gave.
abbrev pub after_second_read : Nbbio → ReadReply → ℕ × List ℕ × Nbbio
after_second_read b (ReadReply.failed e) = (e, [], b)
after_second_read b (got xs) = (0, xs, record b { buf = memcpy b.buf 0 xs; put_to = length xs })

abbrev pub fill_rest : (ℕ → ℕ → ReadReply) → Nbbio → ℕ × List ℕ × Nbbio
fill_rest os_read b =
    if contig_bytes_free b == 0
    then (0, [], b)
    else after_second_read b (os_read 1 (contig_bytes_free b))

abbrev pub after_first_read : (ℕ → ℕ → ReadReply) → Nbbio → ReadReply → ℕ × List ℕ × Nbbio
after_first_read os_read b (ReadReply.failed e) = (e, [], b)
after_first_read os_read b (got xs) =
    let b' = record b { buf = memcpy b.buf b.put_to xs; put_to = 0 } in
    let more = fill_rest os_read b' in
    if length xs == 0
    then (epipe, [], b)
    else if b.put_to + length xs == buflen
    then (if length xs == contig_bytes_free b then (more.0, xs ++ more.1, more.2) else (0, xs, b'))
    else (0, xs, record b' { put_to = b.put_to + length xs })

-- `fillFrom(fd)`, of a descriptor that is not -1, as it asserts; `os_read i n` is the answer to its
-- call `i` of `read`, for at most `n` bytes.
unfoldable pub fill_from : (ℕ → ℕ → ReadReply) → Nbbio → ℕ × List ℕ × Nbbio
fill_from os_read b =
    if contig_bytes_free b == 0
    then (0, [], b)
    else after_first_read os_read b (os_read 0 (contig_bytes_free b))
