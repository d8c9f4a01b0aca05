-- ===== src/Nbbio/Contents.antt =====
-- nbbio.h: what a buffer holds, as the queue of its bytes, and the invariant of its indices.
use c10kcode.Common.{
  ℕ, zero, suc, ◌+◌, ◌-◌, ◌%◌, ◌≤◌, ◌<◌, ◌≡◌, ◌≢◌, refl, sym, ◌∙◌, ap, ap₂, List, [], ◌∷◌, ◌++◌,
  append_assoc, arith, length, write, memcpy, append-nil, eq→==, ==→eq, ◌↔◌, ◌⊎◌, true,
}
use c10kcode.Nbbio.{
  Nbbio, buflen, bytes_used, bytes_free, is_empty, is_full, contig_bytes_free, contig_bytes_used,
  init, slice,
}

-- Both indices stay inside the buffer.
pub record IsValid (b : Nbbio) : Type 0 where
  pub get_in : b.get_from < buflen
  pub put_in : b.put_to < buflen

-- The `n` bytes from index `h` on, going round at the end.
abbrev pub window : (ℕ → ℕ) → ℕ → ℕ → List ℕ
window a h zero = []
window a h (suc n) = a h ∷ window a ((h + 1) % buflen) n

-- The bytes of a buffer, oldest first.
abbrev pub contents : Nbbio → List ℕ
contents b = window b.buf b.get_from (bytes_used b)

pub length-window : (a : ℕ → ℕ) (h n : ℕ) → length (window a h n) ≡ n
length-window a h zero = refl
length-window a h (suc n) = ap suc (length-window a ((h + 1) % buflen) n)

-- A write outside a window is not seen in it.
window-write :
    (a : ℕ → ℕ) (i v h n : ℕ)
    → h < buflen
    → ((k : ℕ) → k < n → (h + k) % buflen ≢ i)
    → window (write a i v) h n ≡ window a h n
window-write a i v h zero hh out = refl
window-write a i v h (suc n) hh out = ground (
  arith,
  out 0,
  window-write a i v ((h + 1) % buflen) n (omega arith)
      (λ k lt e. out (suc k) (omega arith) (omega arith)),
)

window-snoc :
    (a : ℕ → ℕ) (h n : ℕ)
    → h < buflen
    → window a h (suc n) ≡ window a h n ++ (a ((h + n) % buflen) ∷ [])
window-snoc a h zero hh = ap (λ k. a k ∷ []) (omega arith)
window-snoc a h (suc n) hh = ap (◌∷◌ (a h)) (
    window-snoc a ((h + 1) % buflen) n (omega arith)
    ∙ ap (λ k. window a ((h + 1) % buflen) n ++ (a k ∷ [])) (omega arith))

-- Copying just past a window extends it by what is copied.
pub window-memcpy :
    (a : ℕ → ℕ) (i h n : ℕ) (xs : List ℕ)
    → h < buflen
    → n + length xs < buflen
    → i + length xs ≤ buflen
    → i % buflen ≡ (h + n) % buflen
    → window (memcpy a i xs) h (n + length xs) ≡ window a h n ++ xs
window-memcpy a i h n [] hh room fits at =
    ap (window a h) (omega arith) ∙ sym (append-nil (window a h n))
window-memcpy a i h n (x ∷ xs) hh room fits at =
    ap (window (memcpy (write a i x) (i + 1) xs) h) (omega arith)
    ∙ window-memcpy (write a i x) (i + 1) h (suc n) xs hh (omega arith) (omega arith) (omega arith)
    ∙ ap (λ w. w ++ xs) (window-snoc (write a i x) h n hh)
    ∙ rw (
      window-write a i x h n hh (λ k lt e. omega arith),
      eq→== ((h + n) % buflen) i (omega arith),
      append_assoc (window a h n),
    )

-- A window split at `m`.
pub window-append :
    (a : ℕ → ℕ) (h m n : ℕ)
    → h < buflen
    → window a h (m + n) ≡ window a h m ++ window a ((h + m) % buflen) n
window-append a h zero n hh =
    let e : h ≡ (h + 0) % buflen = omega arith in
    let f : 0 + n ≡ n = omega arith in ap₂ (window a) e f
window-append a h (suc m) n hh =
    let e : suc m + n ≡ suc (m + n) = omega arith in
    let f : ((h + 1) % buflen + m) % buflen ≡ (h + suc m) % buflen = omega arith in
    ap (window a h) e
    ∙ ap (◌∷◌ (a h)) (
        window-append a ((h + 1) % buflen) m n (omega arith)
        ∙ ap (λ k. window a ((h + 1) % buflen) m ++ window a k n) f)

-- Up to the end of the buffer a window is a slice of it.
pub window-slice : (a : ℕ → ℕ) (h n : ℕ) → h + n ≤ buflen → window a h n ≡ slice a h n
window-slice a h zero fits = refl
window-slice a h (suc zero) fits = refl
window-slice a h (suc (suc n)) fits =
    ap (◌∷◌ (a h))
      (ap (λ k. window a k (suc n)) (omega arith) ∙ window-slice a (h + 1) (suc n) (omega arith))

-- The constructor leaves an empty buffer with valid indices.
pub init_lem :
    (b : Nbbio) → IsValid (init b) × (contents (init b) ≡ []) × (is_empty (init b) ≡ true)
unfolding init
init_lem b = (record { get_in = omega arith; put_in = omega arith }, refl, refl)

pub length-contents : (b : Nbbio) → length (contents b) ≡ bytes_used b
length-contents b = length-window b.buf b.get_from (bytes_used b)

-- `isEmpty` and `isFull` tell of the queue what they say, and the counts of bytes used and free
-- make up one less than the size of the buffer.
pub counts_lem :
    (b : Nbbio)
    → IsValid b
    → (bytes_used b ≡ length (contents b))
      × (bytes_used b + bytes_free b ≡ buflen - 1)
      × ((is_empty b ≡ true) ↔ (contents b ≡ []))
      × ((is_full b ≡ true) ↔ (length (contents b) ≡ buflen - 1))
counts_lem b v = (
  sym (length-contents b),
  omega arith,
  (
    λ e.
        let none_used : bytes_used b ≡ 0 = omega (arith, ==→eq b.put_to b.get_from e) in
        ap (window b.buf b.get_from) none_used,
    λ e. eq→== b.put_to b.get_from (omega (arith, length-contents b, ap length e)),
  ),
  (
    λ e. omega (arith, length-contents b, ==→eq (bytes_free b) 0 e),
    λ e. eq→== (bytes_free b) 0 (omega (arith, length-contents b)),
  ),
)

-- What may be transferred in one call lies inside the buffer, is all of it unless the end of the
-- buffer is in the way, and is nothing only of a buffer that is empty, or full.
pub contig_lem :
    (b : Nbbio)
    → IsValid b
    → (b.get_from + contig_bytes_used b ≤ buflen)
      × (b.put_to + contig_bytes_free b ≤ buflen)
      × (contig_bytes_used b ≤ bytes_used b)
      × (contig_bytes_free b ≤ bytes_free b)
      × (contig_bytes_used b ≡ bytes_used b ⊎ b.get_from + contig_bytes_used b ≡ buflen)
      × (contig_bytes_free b ≡ bytes_free b ⊎ b.put_to + contig_bytes_free b ≡ buflen)
      × (contig_bytes_used b ≡ 0 → bytes_used b ≡ 0)
      × (contig_bytes_free b ≡ 0 → bytes_free b ≡ 0)
contig_lem b v = ground arith

-- `b` after `xs` has been copied in at the put index.
abbrev pub appended : Nbbio → List ℕ → Nbbio
appended b xs = record b {
  buf = memcpy b.buf b.put_to xs;
  put_to = (b.put_to + length xs) % buflen;
}

pub contents-appended :
    (b : Nbbio) (xs : List ℕ)
    → IsValid b
    → length xs ≤ contig_bytes_free b
    → contents (appended b xs) ≡ contents b ++ xs
contents-appended b xs v fits =
    let e : bytes_used (appended b xs) ≡ bytes_used b + length xs = ground arith in
    ap (window (memcpy b.buf b.put_to xs) b.get_from) e
    ∙ window-memcpy b.buf b.put_to b.get_from (bytes_used b) xs v.get_in (ground arith)
        (ground arith) (omega arith)

pub appended-IsValid : (b : Nbbio) (xs : List ℕ) → IsValid b → IsValid (appended b xs)
appended-IsValid b xs v = omega arith

-- `b` after its first `n` bytes have been taken.
abbrev pub taken : Nbbio → ℕ → Nbbio
taken b n = record b { get_from = (b.get_from + n) % buflen }

pub contents-taken :
    (b : Nbbio) (n : ℕ)
    → IsValid b
    → n ≤ contig_bytes_used b
    → contents b ≡ slice b.buf b.get_from n ++ contents (taken b n)
contents-taken b n v fits =
    let e : bytes_used b ≡ n + bytes_used (taken b n) = ground arith in
    ap (window b.buf b.get_from) e
    ∙ window-append b.buf b.get_from n (bytes_used (taken b n)) v.get_in
    ∙ ap (λ w. w ++ contents (taken b n)) (window-slice b.buf b.get_from n (ground arith))
