-- ===== src/Nbbio/Put.antt =====
-- `nbbio::put` and `readc` against the queue of `Fifo`.
use c10kcode.Common.{
  ℕ, ◌+◌, ◌-◌, ◌%◌, ◌≤◌, ◌<◌, ◌≡◌, refl, ◌∙◌, ap, inl, inr, List, [], ◌∷◌, ◌++◌, append_assoc,
  arith, if◌then◌else◌, length, length-take, length-drop, take, drop, take-append-drop, memcpy,
  Bool-cases, emsgsize, ewouldblock, memcpy_outside, ltb, leb, false, lt→ltb, le→ltb, ltb→lt,
  ltb→le,
}
use c10kcode.Nbbio.{Nbbio, buflen, bytes_free, contig_bytes_free, put_wrap, put, readc, is_empty}
use c10kcode.Nbbio.Contents.{
  IsValid, contents, length-contents, appended, contents-appended, appended-IsValid, contents-taken,
}
use c10kcode.Nbbio.Fifo

-- The copy that does not reach the end of the buffer, and the one that goes round.
put_wrap-once :
    (b : Nbbio) (p : List ℕ)
    → IsValid b
    → length p ≤ contig_bytes_free b
    → put_wrap (record b { buf = memcpy b.buf b.put_to p; put_to = b.put_to + length p }) []
      ≡ appended b p
put_wrap-once b p v h = ground arith

put_wrap-twice :
    (b : Nbbio) (xs ys : List ℕ)
    → IsValid b
    → length xs ≡ contig_bytes_free b
    → 0 < length ys
    → length xs + length ys ≤ bytes_free b
    → put_wrap
        (record b { buf = memcpy b.buf b.put_to xs; put_to = b.put_to + contig_bytes_free b })
        ys
      ≡ appended (appended b xs) ys
put_wrap-twice b xs ys v full more h = ground arith

take-length : (p : List ℕ) → take (length p) p ≡ p
take-length [] = refl
take-length (x ∷ p) = ap (◌∷◌ x) (take-length p)

drop-length : (p : List ℕ) → drop (length p) p ≡ []
drop-length [] = refl
drop-length (x ∷ p) = drop-length p

-- How many bytes the first copy takes.
abbrev first_copy : Nbbio → List ℕ → ℕ
first_copy b p = if ltb (length p) (contig_bytes_free b) then length p else contig_bytes_free b

put_once :
    (b : Nbbio) (p : List ℕ)
    → IsValid b
    → length p ≤ contig_bytes_free b
    → put b p ≡ (0, appended b p)
unfolding put
put_once b p v h =
    let enough : ltb (bytes_free b) (length p) ≡ false = ground arith in
    let all : first_copy b p ≡ length p = ground arith in
    rw (enough, all, take-length p, drop-length p, put_wrap-once b p v h)

put_twice :
    (b : Nbbio) (p : List ℕ)
    → IsValid b
    → contig_bytes_free b < length p
    → length p ≤ bytes_free b
    → put b p
      ≡ (0, appended (appended b (take (contig_bytes_free b) p)) (drop (contig_bytes_free b) p))
unfolding put
put_twice b p v more fits =
    let enough : ltb (bytes_free b) (length p) ≡ false = ground arith in
    let part : first_copy b p ≡ contig_bytes_free b = ground arith in
    let full : length (take (contig_bytes_free b) p) ≡ contig_bytes_free b =
      omega (arith, length-take (contig_bytes_free b) p) in
    let rest : length (drop (contig_bytes_free b) p) ≡ length p - contig_bytes_free b =
      length-drop (contig_bytes_free b) p in
    rw (
      enough,
      part,
      put_wrap-twice b (take (contig_bytes_free b) p) (drop (contig_bytes_free b) p) v full
          (omega arith) (omega arith),
    )

-- Where the bytes go round the end, the first copy goes up to it, and the second has room.
halves :
    (b : Nbbio) (p : List ℕ)
    → IsValid b
    → contig_bytes_free b < length p
    → length p ≤ bytes_free b
    → let first = take (contig_bytes_free b) p in
      let second = drop (contig_bytes_free b) p in
      (length first ≡ contig_bytes_free b)
      × (b.put_to + length first ≡ buflen)
      × (length second ≤ contig_bytes_free (appended b first))
      × (length second ≤ buflen)
halves b p v more fits =
    let full : length (take (contig_bytes_free b) p) ≡ contig_bytes_free b =
      omega (arith, length-take (contig_bytes_free b) p) in
    let rest : length (drop (contig_bytes_free b) p) ≡ length p - contig_bytes_free b =
      length-drop (contig_bytes_free b) p in
    (full, ground arith, ground arith, ground arith)

-- A `put` that fits succeeds, appends exactly the bytes, and keeps the indices in the buffer.
put_fits :
    (b : Nbbio) (p : List ℕ)
    → IsValid b
    → length p ≤ bytes_free b
    → let (e, b') = put b p in (e ≡ 0) × (contents b' ≡ contents b ++ p) × IsValid b'
put_fits b p v fits = elim (Bool-cases (ltb (contig_bytes_free b) (length p))) [
  | inl more ↦
      let first = take (contig_bytes_free b) p in
      let second = drop (contig_bytes_free b) p in
      let v' = appended-IsValid b first v in
      let (full, edge, room, _) = halves b p v (ltb→lt _ _ more) fits in
      rw (put_twice b p v (ltb→lt _ _ more) fits) (
        refl,
        (contents-appended (appended b first) second v' room
            ∙ ap (λ q. q ++ second) (contents-appended b first v (omega arith))
            ∙ append_assoc (contents b) first second
            ∙ ap (◌++◌ (contents b)) (take-append-drop (contig_bytes_free b) p)),
        appended-IsValid (appended b first) second v',
      )
  | inr once ↦
      let h : length p ≤ contig_bytes_free b = ltb→le _ _ once in
      rw (put_once b p v h) (refl, contents-appended b p v h, appended-IsValid b p v)
]

put_refused :
    (b : Nbbio) (p : List ℕ)
    → bytes_free b < length p
    → put b p ≡ (if leb buflen (length p) then emsgsize else ewouldblock, b)
unfolding put
put_refused b p h = rw (lt→ltb _ _ h)

-- `put` is the queue's `put`: it returns the same code and leaves the same bytes, in order; and it
-- keeps the indices inside the buffer.
pub put_refines :
    (b : Nbbio) (p : List ℕ)
    → IsValid b
    → let (e, b') = put b p in ((e, contents b') ≡ Fifo.put (contents b) p) × IsValid b'
unfolding Fifo.put
put_refines b p v = elim (Bool-cases (ltb (bytes_free b) (length p))) [
  | inl more ↦
      let h : bytes_free b < length p = ltb→lt _ _ more in
      rw (put_refused b p h) (ground (arith, length-contents b), v)
  | inr fits ↦
      let h : ltb (Fifo.capacity - length (contents b)) (length p) ≡ false =
        le→ltb _ _ (omega (arith, length-contents b, ltb→le _ _ fits)) in
      let (e, same, v') = put_fits b p v (ltb→le _ _ fits) in rw h (ground arith, v')
]

-- No byte is written past the end of the buffer.
pub put_in_bounds :
    (b : Nbbio) (p : List ℕ) (i : ℕ) → IsValid b → buflen ≤ i → (put b p).1.buf i ≡ b.buf i
put_in_bounds b p i v h = elim (Bool-cases (ltb (bytes_free b) (length p))) [
  | inl more ↦ rw (put_refused b p (ltb→lt _ _ more))
  | inr fits ↦ elim (Bool-cases (ltb (contig_bytes_free b) (length p))) [
    | inl twice ↦
        let first = take (contig_bytes_free b) p in
        let second = drop (contig_bytes_free b) p in
        let (full, edge, _, room) = halves b p v (ltb→lt _ _ twice) (ltb→le _ _ fits) in
        rw (put_twice b p v (ltb→lt _ _ twice) (ltb→le _ _ fits)) (
          memcpy_outside (memcpy b.buf b.put_to first) ((b.put_to + length first) % buflen) second i
            (omega arith)
          ∙ memcpy_outside b.buf b.put_to first i (omega arith))
    | inr once ↦
        rw (put_once b p v (ltb→le _ _ once)) (memcpy_outside b.buf b.put_to p i (ground arith))
  ]
]

-- Reading a byte takes the oldest.
pub readc_refines :
    (b : Nbbio)
    → IsValid b
    → is_empty b ≡ false
    → let (c, b') = readc b in (contents b ≡ c ∷ contents b') × IsValid b'
unfolding readc
readc_refines b v h = (contents-taken b 1 v (ground arith), omega arith)
