-- ===== src/Sked/Order.antt =====
-- The order of a binary heap from index 1 on, as statements about the keys alone: what one swap of
-- `siftUp`, `siftDown` and `remove` in Sked.cc does to it.
use c10kcode.Common.{ℕ, ◌+◌, ◌*◌, ◌/◌, ◌≤◌, ◌≡◌, ◌≢◌, ◌⊎◌, arith, ◌==◌, if◌then◌else◌}

-- The keys after the elements at `p` and `i` have changed places.
abbrev pub swapped : (ℕ → ℕ) → ℕ → ℕ → ℕ → ℕ
swapped k p i j = if j == i then k p else if j == p then k i else k j

-- The element at `j` is no less than its parent.
abbrev pub Above : (ℕ → ℕ) → ℕ → Type 0
Above k j = k (j / 2) ≤ k j

abbrev pub IsHeap : (ℕ → ℕ) → ℕ → Type 0
IsHeap k n = (j : ℕ) → 2 ≤ j → j ≤ n → Above k j

-- The children of `i` are no less than the parent of `i`.
abbrev Bridges : (ℕ → ℕ) → ℕ → ℕ → Type 0
Bridges k n i = (j : ℕ) → 2 ≤ i → j ≤ n → j / 2 ≡ i → k (i / 2) ≤ k j

-- A heap but for the place of `i` under its parent.
pub record UpTo (k : ℕ → ℕ) (n i : ℕ) : Type 0 where
  pub above : (j : ℕ) → 2 ≤ j → j ≤ n → j ≢ i → Above k j
  pub bridge : (j : ℕ) → 2 ≤ i → j ≤ n → j / 2 ≡ i → k (i / 2) ≤ k j

-- A heap but for the place of `i` over its children.
pub record DownTo (k : ℕ → ℕ) (n i : ℕ) : Type 0 where
  pub above : (j : ℕ) → 2 ≤ j → j ≤ n → j / 2 ≢ i → Above k j
  pub bridge : (j : ℕ) → 2 ≤ i → j ≤ n → j / 2 ≡ i → k (i / 2) ≤ k j

-- A heap but for the place of `i` between its parent and its children.
pub record Around (k : ℕ → ℕ) (n i : ℕ) : Type 0 where
  pub above : (j : ℕ) → 2 ≤ j → j ≤ n → j ≢ i → j / 2 ≢ i → Above k j
  pub bridge : (j : ℕ) → 2 ≤ i → j ≤ n → j / 2 ≡ i → k (i / 2) ≤ k j

module _ (k : ℕ → ℕ) (n i : ℕ) where
  pub UpTo-swapped :
      2 ≤ i → i ≤ n → k i ≤ k (i / 2) → UpTo k n i → UpTo (swapped k (i / 2) i) n (i / 2)
  UpTo-swapped low high le h = record {
    above = λ j lj hj ne. ground (arith, h.above j lj hj, h.bridge j low hj, h.above (i / 2));
    bridge = λ j l2 hj e. ground (arith, h.above j, h.above (i / 2), h.above i);
  }

  pub Around-swapped : 2 ≤ i → i ≤ n → Around k n i → Around (swapped k (i / 2) i) n (i / 2)
  Around-swapped low high h = record {
    above = λ j lj hj ne ne2. ground (arith, h.above j lj hj, h.bridge j low hj);
    bridge = λ j l2 hj e. ground (arith, h.above j, h.above (i / 2));
  }

  -- `c` is a least child of `i`.
  pub DownTo-swapped :
      (c : ℕ)
      → 1 ≤ i
      → c ≤ n
      → c / 2 ≡ i
      → ((j : ℕ) → j ≤ n → j / 2 ≡ i → k c ≤ k j)
      → k c ≤ k i
      → DownTo k n i
      → DownTo (swapped k c i) n c
  DownTo-swapped c low high e least le h = record {
    above = λ j lj hj ne. ground (arith, h.above j lj hj, least j hj, h.bridge c);
    bridge = λ j l2 hj e2. ground (arith, h.above j, least j hj);
  }

  -- Where the sift stops, the heap is in order.
  pub UpTo-IsHeap : (2 ≤ i → k (i / 2) ≤ k i) → UpTo k n i → IsHeap k n
  UpTo-IsHeap le h j lj hj = ground (arith, le, h.above j lj hj)

  pub DownTo-IsHeap : ((j : ℕ) → j ≤ n → j / 2 ≡ i → k i ≤ k j) → DownTo k n i → IsHeap k n
  DownTo-IsHeap le h j lj hj = ground (arith, le j hj, h.above j lj hj)

  -- One child is least if it is no more than the other.
  pub left_least :
      (i * 2 + 1 ≤ n → k (i * 2) ≤ k (i * 2 + 1)) → (j : ℕ) → j ≤ n → j / 2 ≡ i → k (i * 2) ≤ k j
  left_least le j hj e =
      let child : (j ≡ i * 2) ⊎ (j ≡ i * 2 + 1) = omega arith in ground (arith, le)

  pub right_least : k (i * 2 + 1) ≤ k (i * 2) → (j : ℕ) → j ≤ n → j / 2 ≡ i → k (i * 2 + 1) ≤ k j
  right_least le j hj e = let child : (j ≡ i * 2) ⊎ (j ≡ i * 2 + 1) = omega arith in ground arith
