-- ===== src/Nbbio/Transfer.antt =====
-- `nbbio::fillFrom` and `flushTo`: no byte is lost, made up or put out of order between the buffer
-- and the descriptor, whatever the operating system answers.
use mathlib.Core.Option
use c10kcode.Common.{
  Option, some, none, ℕ, zero, suc, ◌+◌, ◌≤◌, ◌<◌, ◌≡◌, ◌≢◌, refl, sym, subst, ◌∙◌, ap, inl, inr,
  List, [], ◌++◌, append_assoc, append-nil, arith, length, memcpy, Bool-cases, ◌==◌, ==→ne, epipe,
}
use c10kcode.Nbbio.{
  Nbbio, buflen, contig_bytes_free, contig_bytes_used, ReadReply, WriteReply, got, took, fill_rest,
  after_second_read, after_first_read, after_write, fill_from, flush_loop, flush_to, slice,
  is_empty,
}
use c10kcode.Nbbio.Contents.{
  IsValid, contents, appended, contents-appended, appended-IsValid, taken, contents-taken,
}

-- `read` gives no more bytes than it is asked for.
abbrev pub ReadsAtMost : (ℕ → ℕ → ReadReply) → Type 0
ReadsAtMost os_read = (i n : ℕ) (xs : List ℕ) → os_read i n ≡ got xs → length xs ≤ n

-- What a filled buffer is, for the bytes that came.
abbrev pub Filled : Nbbio → ℕ × List ℕ × Nbbio → Type 0
Filled b (e, xs, b') = (contents b' ≡ contents b ++ xs) × IsValid b'

nothing_read : (b : Nbbio) (e : ℕ) → IsValid b → Filled b (e, [], b)
nothing_read b e v = (sym (append-nil (contents b)), v)

appended-Filled :
    (b : Nbbio) (e : ℕ) (xs : List ℕ) (b' : Nbbio)
    → IsValid b
    → length xs ≤ contig_bytes_free b
    → appended b xs ≡ b'
    → Filled b (e, xs, b')
appended-Filled b e xs b' v h same =
    subst (λ c. Filled b (e, xs, c)) same (contents-appended b xs v h, appended-IsValid b xs v)

module _ (os_read : ℕ → ℕ → ReadReply) (most : ReadsAtMost os_read) where
  after_second_read-Filled :
      (b : Nbbio) (r : ReadReply)
      → os_read 1 (contig_bytes_free b) ≡ r
      → IsValid b
      → b.put_to ≡ 0
      → contig_bytes_free b ≢ 0
      → Filled b (after_second_read b r)
  after_second_read-Filled b (ReadReply.failed e) h v start room = nothing_read b e v
  after_second_read-Filled b (got xs) h v start room =
      let fits = most 1 (contig_bytes_free b) xs h in appended-Filled b 0 xs _ v fits (ground arith)

  fill_rest-Filled : (b : Nbbio) → IsValid b → b.put_to ≡ 0 → Filled b (fill_rest os_read b)
  fill_rest-Filled b v start = elim (Bool-cases (contig_bytes_free b == 0)) [
    | inl full ↦ rw (full, fill_rest) (nothing_read b 0 v)
    | inr room ↦ rw (room, fill_rest) (after_second_read-Filled b _ refl v start (==→ne _ _ room))
  ]

  after_first_read-Filled :
      (b : Nbbio) (r : ReadReply)
      → os_read 0 (contig_bytes_free b) ≡ r
      → IsValid b
      → contig_bytes_free b ≢ 0
      → Filled b (after_first_read os_read b r)
  after_first_read-Filled b (ReadReply.failed e) h v room = nothing_read b e v
  after_first_read-Filled b (got xs) h v room =
      let b' = record b { buf = memcpy b.buf b.put_to xs; put_to = 0 } in
      let fits = most 0 (contig_bytes_free b) xs h in
      elim (Bool-cases (length xs == 0)) [
        | inl eof ↦ rw (eof, after_first_read) (nothing_read b epipe v)
        | inr some_read ↦ elim (Bool-cases (b.put_to + length xs == buflen)) [
          | inl edge ↦
              let (first, v') = appended-Filled b 0 xs b' v fits (ground arith) in
              elim (Bool-cases (length xs == contig_bytes_free b)) [
                | inl all ↦
                    let (second, v'') = fill_rest-Filled b' v' refl in
                    rw (some_read, edge, all, after_first_read)
                      (
                        second
                            ∙ ap (λ q. q ++ (fill_rest os_read b').1) first
                            ∙ append_assoc (contents b) xs (fill_rest os_read b').1,
                        v'',
                      )
                | inr part ↦ rw (some_read, edge, part, after_first_read) (first, v')
              ]
          | inr inside ↦
              rw (some_read, inside, after_first_read)
                (appended-Filled b 0 xs _ v fits (ground arith))
        ]
      ]

  -- Filling a buffer puts behind its bytes exactly those that the descriptor gave, also where one
  -- of the two reads fails, and keeps the indices inside the buffer.
  pub fill_from_lem : (b : Nbbio) → IsValid b → Filled b (fill_from os_read b)
  unfolding fill_from
  fill_from_lem b v = elim (Bool-cases (contig_bytes_free b == 0)) [
    | inl full ↦ rw full (nothing_read b 0 v)
    | inr room ↦ rw room (after_first_read-Filled b _ refl v (==→ne _ _ room))
  ]

-- `write` takes no more bytes than it is given.
abbrev pub WritesAtMost : (ℕ → ℕ → WriteReply) → Type 0
WritesAtMost os_write = (i n m : ℕ) → os_write i n ≡ took m → m ≤ n

-- What a flushed buffer is, for the bytes that went out.
abbrev pub Flushed : Nbbio → Option (ℕ × List ℕ × Nbbio) → Type 0
Flushed b none = ⊥
Flushed b (some (e, xs, b')) = (contents b ≡ xs ++ contents b') × IsValid b'

module _ (os_write : ℕ → ℕ → WriteReply) (most : WritesAtMost os_write) where
  taken-Flushed :
      (b : Nbbio) (n : ℕ) (b' : Nbbio)
      → IsValid b
      → n ≤ contig_bytes_used b
      → taken b n ≡ b'
      → Flushed b (some (0, slice b.buf b.get_from n, b'))
  taken-Flushed b n b' v h same =
      subst (λ c. Flushed b (some (0, slice b.buf b.get_from n, c))) same
        (contents-taken b n v h, omega arith)

  again-Flushed :
      (b b' : Nbbio) (xs : List ℕ) (r : Option (ℕ × List ℕ × Nbbio))
      → contents b ≡ xs ++ contents b'
      → Flushed b' r
      → Flushed b (Option.map (λ s. (s.0, xs ++ s.1, s.2)) r)
  again-Flushed b b' xs none h f = f
  again-Flushed b b' xs (some (e, ys, b'')) h (f, v) =
      (h ∙ ap (◌++◌ xs) f ∙ sym (append_assoc xs ys (contents b'')), v)

  after_write-Flushed :
      (b : Nbbio) (i : ℕ) (again : Option (ℕ × List ℕ × Nbbio)) (r : WriteReply)
      → os_write i (contig_bytes_used b) ≡ r
      → IsValid b
      → (b.put_to < b.get_from → Flushed (record b { get_from = 0 }) again)
      → Flushed b (after_write b again r)
  after_write-Flushed b i again (WriteReply.failed e) h v next = (refl, v)
  after_write-Flushed b i again (took n) h v next =
      let fits = most i (contig_bytes_used b) n h in
      let b' = record b { get_from = 0 } in
      elim (Bool-cases (b.get_from + n == buflen)) [
        | inl edge ↦
            let (first, v') = taken-Flushed b n b' v fits (ground arith) in
            elim (Bool-cases (is_empty b')) [
              | inl done ↦ rw (edge, done, after_write) (first, v')
              | inr more ↦
                  rw (edge, more, after_write)
                    (again-Flushed b b' (slice b.buf b.get_from n) again first
                      (next (ground arith)))
            ]
        | inr inside ↦ rw (inside, after_write) (taken-Flushed b n _ v fits (ground arith))
      ]

  flush_loop-Flushed :
      (fuel i : ℕ) (b : Nbbio)
      → IsValid b
      → (b.put_to < b.get_from → 1 < fuel)
      → 0 < fuel
      → Flushed b (flush_loop os_write fuel i b)
  unfolding flush_loop
  flush_loop-Flushed zero i b v h pos = absurd (omega arith)
  flush_loop-Flushed (suc fuel) i b v h pos = elim (Bool-cases (contig_bytes_used b == 0)) [
    | inl drained ↦ rw drained (refl, v)
    | inr more ↦ rw more (
        after_write-Flushed b i _ _ refl v (λ wrapped.
          flush_loop-Flushed fuel (i + 1) (record b { get_from = 0 }) (omega arith)
            (λ lt. absurd (omega arith)) (omega (arith, h wrapped))))
  ]

  -- Flushing a buffer ends, gives the descriptor exactly the oldest bytes of it, in order, also
  -- where one of the two writes fails or takes less, and leaves the others.
  pub flush_to_lem : (b : Nbbio) → IsValid b → Flushed b (flush_to os_write b)
  unfolding flush_to
  flush_to_lem b v = flush_loop-Flushed 2 0 b v (λ _. omega arith) (omega arith)
