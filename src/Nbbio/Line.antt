-- ===== src/Nbbio/Line.antt =====
-- What `nbbio::readline` does to the queue of bytes: the scan of one line, with the line buffer,
-- its length so far and the last byte stored carried from one call to the next.
use c10kcode.Common.{
  ℕ, ◌+◌, ◌≤◌, ◌<◌, ◌≡◌, ◌≢◌, refl, List, [], ◌∷◌, ◌++◌, arith, ltb, ◌==◌, if◌then◌else◌, length,
  write, memcpy, ewouldblock, enospc,
}
use c10kcode.Nbbio.{is_lf, is_cr}

-- What the scan carries: the line buffer, the bytes in it, and the last byte.
pub record LineState : Type 0 where
  pub line : ℕ → ℕ
  pub len : ℕ
  pub last : ℕ

abbrev pub store : LineState → ℕ → LineState
store s c = record { line = write s.line s.len c; len = s.len + 1; last = c }

-- The end of a line: a NUL behind it, and the buffer is ready for the next.
abbrev pub finish : LineState → ℕ → LineState
finish s c = record { line = write s.line s.len 0; len = 0; last = c }

abbrev pub blocked : LineState → ℕ → ℕ
blocked s maxlen = if s.len == maxlen then enospc else ewouldblock

unfoldable pub scan : List ℕ → LineState → ℕ → ℕ × LineState × List ℕ
scan [] s maxlen = (blocked s maxlen, s, [])
scan (c ∷ cs) s maxlen =
    let skipped = scan cs s maxlen in
    let stored = scan cs (store s c) maxlen in
    if ltb s.len maxlen
    then (if is_lf c
        then (if is_cr s.last then skipped else (0, finish s c, cs))
        else (if is_cr c then (0, finish s c, cs) else stored))
    else (blocked s maxlen, s, c ∷ cs)

-- The bytes of a line: no end of line and no NUL among them.
abbrev pub IsText : List ℕ → Type 0
IsText [] = Unit {0}
IsText (c ∷ cs) = (c ≢ b'\n') × (c ≢ b'\r') × (c ≢ 0) × IsText cs

-- The state after the bytes of `cs` have been stored.
abbrev pub stored : LineState → List ℕ → LineState
stored s [] = s
stored s (c ∷ cs) = stored (store s c) cs

pub len-stored : (s : LineState) (cs : List ℕ) → (stored s cs).len ≡ s.len + length cs
len-stored s [] = omega arith
len-stored s (c ∷ cs) = omega (arith, len-stored (store s c) cs)

pub line-stored : (s : LineState) (cs : List ℕ) → (stored s cs).line ≡ memcpy s.line s.len cs
line-stored s [] = refl
line-stored s (c ∷ cs) = line-stored (store s c) cs

-- Text is stored, and the scan goes on behind it.
pub scan-text :
    (cs rest : List ℕ) (s : LineState) (maxlen : ℕ)
    → IsText cs
    → s.len + length cs ≤ maxlen
    → scan (cs ++ rest) s maxlen ≡ scan rest (stored s cs) maxlen
unfolding scan
scan-text [] rest s maxlen t h = refl
scan-text (c ∷ cs) rest s maxlen t h =
    ground (arith, scan-text cs rest (store s c) maxlen t.3 (omega arith))

-- A carriage return ends a line, whatever follows.
pub scan-cr :
    (rest : List ℕ) (s : LineState) (maxlen : ℕ)
    → s.len < maxlen
    → scan (b'\r' ∷ rest) s maxlen ≡ (0, finish s b'\r', rest)
unfolding scan
scan-cr rest s maxlen h = ground arith

-- A line feed ends a line unless the last byte was a carriage return.
pub scan-lf :
    (rest : List ℕ) (s : LineState) (maxlen : ℕ)
    → s.len < maxlen
    → s.last ≢ b'\r'
    → scan (b'\n' ∷ rest) s maxlen ≡ (0, finish s b'\n', rest)
unfolding scan
scan-lf rest s maxlen h ne = ground arith

pub scan-crlf :
    (rest : List ℕ) (s : LineState) (maxlen : ℕ)
    → s.len < maxlen
    → s.last ≡ b'\r'
    → scan (b'\n' ∷ rest) s maxlen ≡ scan rest s maxlen
unfolding scan
scan-crlf rest s maxlen h e = ground arith

-- A scan that stopped for want of bytes is taken up again by the next one.
pub scan-append :
    (xs ys : List ℕ) (s : LineState) (maxlen : ℕ)
    → s.len ≤ maxlen
    → (scan xs s maxlen).0 ≡ ewouldblock
    → scan (xs ++ ys) s maxlen ≡ scan ys (scan xs s maxlen).1 maxlen
unfolding scan
scan-append [] ys s maxlen room h = refl
scan-append (c ∷ cs) ys s maxlen room h =
    ground (arith, scan-append cs ys s maxlen, scan-append cs ys (store s c) maxlen)

-- Nothing is stored at or behind `maxlen`, and the length stays within it.
pub scan_bounds :
    (cs : List ℕ) (s : LineState) (maxlen i : ℕ)
    → maxlen ≤ i
    → s.len ≤ maxlen
    → ((scan cs s maxlen).1.line i ≡ s.line i) × ((scan cs s maxlen).1.len ≤ maxlen)
unfolding scan
scan_bounds [] s maxlen i h room = (refl, room)
scan_bounds (c ∷ cs) s maxlen i h room =
    ground (arith, scan_bounds cs s maxlen i h room, scan_bounds cs (store s c) maxlen i h)
