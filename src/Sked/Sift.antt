-- ===== src/Sked/Sift.antt =====
-- `siftUp`, `siftDown` and the loop of `remove` in Sked.cc: each ends, rearranges the records
-- without losing one, and leaves the heap in order.
use mathlib.Core.Path.{fun_ext}
use c10kcode.Common.{
  ℕ, zero, suc, ◌+◌, ◌*◌, ◌/◌, ◌≤◌, ◌<◌, ◌≡◌, ◌≢◌, refl, sym, subst, ◌∙◌, some, arith, ltb,
  Bool-cases, inl, inr, ltb→lt, ltb→le,
}
use c10kcode.Eclock.{word, eclock_after}
use c10kcode.Eclock.Window.{age, InWindow, eclock_after-age}
use c10kcode.Sked.{Sked, client_at, when_at, swap, sift_up_loop, sift_down_loop, least_child}
use c10kcode.Sked.Order.{
  swapped, IsHeap, UpTo, DownTo, UpTo-swapped, DownTo-swapped, UpTo-IsHeap, DownTo-IsHeap,
  left_least, right_least,
}
use c10kcode.Sked.Links.{scheduled, Linked, Same, Same-trans, swap-Linked, swap-Same}

-- The key of the record at `j`: the ticks from `base` to its time.
abbrev pub key : ℕ → Sked → ℕ → ℕ
key base s j = age base (when_at s j)

-- The records up to `high` are linked with the clients in `P`, and their times lie in one window.
pub record IsGood (P : ℕ → Type 0) (base high : ℕ) (s : Sked) : Type 0 where
  pub links : Linked P 1 high s
  pub window : (c w : ℕ) → P c → scheduled s c ≡ some w → InWindow base w
  pub start : base < word

pub key-swap : (base : ℕ) (s : Sked) (p i : ℕ) → key base (swap s p i) ≡ swapped (key base s) p i
unfolding swap
key-swap base s p i = fun_ext λ j. ground arith

pub used-swap : (s : Sked) (p i : ℕ) → (swap s p i).used ≡ s.used
unfolding swap
used-swap s p i = refl

-- What a sift makes of `s`.
pub record Sifted (P : ℕ → Type 0) (base high : ℕ) (s t : Sked) : Type 0 where
  pub good : IsGood P base high t
  pub same : Same P s t
  pub heap : IsHeap (key base t) high

module _ {P : ℕ → Type 0} {base high : ℕ} where
  pub in_window :
      (s : Sked) (i : ℕ) → IsGood P base high s → 1 ≤ i → i ≤ high → InWindow base (when_at s i)
  in_window s i g low le =
      g.window (client_at s i) (when_at s i) (g.links.held i low le)
        (ground (arith, g.links.indexed i low le))

  pub after-key :
      (s : Sked) (i j : ℕ)
      → IsGood P base high s
      → 1 ≤ i
      → i ≤ high
      → 1 ≤ j
      → j ≤ high
      → eclock_after (when_at s i) (when_at s j) ≡ ltb (key base s j) (key base s i)
  after-key s i j g i1 i2 j1 j2 =
      eclock_after-age _ _ g.start (in_window s i g i1 i2) (in_window s j g j1 j2)

  pub swap-IsGood :
      (s : Sked) (p i : ℕ)
      → IsGood P base high s
      → 1 ≤ p
      → p ≤ high
      → 1 ≤ i
      → i ≤ high
      → p ≢ i
      → IsGood P base high (swap s p i)
  swap-IsGood s p i g p1 p2 i1 i2 ne = record {
    links = swap-Linked s p i g.links p1 p2 i1 i2 ne;
    window = λ c w h e.
        g.window c w h (sym ((swap-Same s p i g.links p1 p2 i1 i2 ne).scheduled c h) ∙ e);
    start = g.start;
  }

  Sifted-after_swap :
      (s : Sked) (p i : ℕ) {t : Sked}
      → IsGood P base high s
      → 1 ≤ p
      → p ≤ high
      → 1 ≤ i
      → i ≤ high
      → p ≢ i
      → Sifted P base high (swap s p i) t
      → Sifted P base high s t
  Sifted-after_swap s p i g p1 p2 i1 i2 ne r = record {
    good = r.good;
    same = Same-trans (swap-Same s p i g.links p1 p2 i1 i2 ne) r.same;
    heap = r.heap;
  }

  stays : (s : Sked) → IsGood P base high s → IsHeap (key base s) high → Sifted P base high s s
  stays s g h = record {
    good = g;
    same = record { used = refl; allocated = refl; scheduled = λ c _. refl };
    heap = h;
  }

  pub sift_up_loop-Sifted :
      (fuel : ℕ) (s : Sked) (i : ℕ)
      → IsGood P base high s
      → 1 ≤ i
      → i ≤ high
      → i ≤ fuel
      → UpTo (key base s) high i
      → Sifted P base high s (sift_up_loop fuel s i)
  unfolding sift_up_loop
  sift_up_loop-Sifted zero s i g i1 i2 f u = absurd (omega arith)
  sift_up_loop-Sifted (suc fuel) s i g i1 i2 f u = elim (Bool-cases (ltb 1 i)) [
    | inr at_top ↦ rw at_top (
        stays s g
          (UpTo-IsHeap (key base s) high i (λ l2. absurd (omega (arith, ltb→le 1 i at_top))) u))
    | inl below ↦
        let low : 1 < i = ltb→lt 1 i below in
        let cmp = after-key s i (i / 2) g i1 i2 (omega arith) (omega arith) in
        elim (Bool-cases (eclock_after (when_at s i) (when_at s (i / 2)))) [
          | inl after ↦
              rw (below, after)
                (stays s g (
                  UpTo-IsHeap (key base s) high i (λ _. omega (arith, ltb→lt _ _ (sym cmp ∙ after)))
                    u))
          | inr not_after ↦
              let le : key base s i ≤ key base s (i / 2) = ltb→le _ _ (sym cmp ∙ not_after) in
              rw (below, not_after)
                (Sifted-after_swap s (i / 2) i g (omega arith) (omega arith) i1 i2 (omega arith) (
                  sift_up_loop-Sifted fuel (swap s (i / 2) i) (i / 2)
                    (swap-IsGood s (i / 2) i g (omega arith) (omega arith) i1 i2 (omega arith))
                    (omega arith) (omega arith) (omega arith)
                    (subst (λ k. UpTo k high (i / 2)) (sym (key-swap base s (i / 2) i))
                      (UpTo-swapped (key base s) high i low i2 le u))))
        ]
  ]

  -- The child that `siftDown` takes is one, and the other is no less.
  least_child_lem :
      (s : Sked) (i : ℕ)
      → IsGood P base high s
      → s.used ≡ high
      → 1 ≤ i
      → i * 2 ≤ high
      → (least_child s i ≤ high)
        × (least_child s i / 2 ≡ i)
        × ((j : ℕ) → j ≤ high → j / 2 ≡ i → key base s (least_child s i) ≤ key base s j)
  least_child_lem s i g n i1 i2 = elim (Bool-cases (ltb (i * 2) s.used)) [
    | inl two ↦
        let lt : i * 2 < s.used = ltb→lt _ _ two in
        let cmp = after-key s (i * 2 + 1) (i * 2) g (omega arith) (omega arith) (omega arith) i2 in
        elim (Bool-cases (eclock_after (when_at s (i * 2 + 1)) (when_at s (i * 2)))) [
          | inl right_after ↦
              rw (two, right_after)
                (
                  i2,
                  omega arith,
                  left_least (key base s) high i
                      λ _. omega (arith, ltb→lt _ _ (sym cmp ∙ right_after)),
                )
          | inr not_after ↦
              rw (two, not_after)
                (
                  omega arith,
                  omega arith,
                  right_least (key base s) high i (ltb→le _ _ (sym cmp ∙ not_after)),
                )
        ]
    | inr one ↦ rw one (
      i2,
      omega arith,
      left_least (key base s) high i λ h. absurd (omega (arith, ltb→le _ _ one)),
    )
  ]

  pub sift_down_loop-Sifted :
      (fuel : ℕ) (s : Sked) (i : ℕ)
      → IsGood P base high s
      → s.used ≡ high
      → 1 ≤ i
      → i ≤ high
      → high < i + fuel
      → DownTo (key base s) high i
      → Sifted P base high s (sift_down_loop fuel s i)
  unfolding sift_down_loop
  sift_down_loop-Sifted zero s i g n i1 i2 f d = absurd (omega arith)
  sift_down_loop-Sifted (suc fuel) s i g n i1 i2 f d = elim (Bool-cases (ltb s.used (i * 2))) [
    | inl leaf ↦ rw leaf (
        stays s g
          (DownTo-IsHeap (key base s) high i (λ j hj e. absurd (omega (arith, ltb→lt _ _ leaf))) d))
    | inr inner ↦
        let c = least_child s i in
        let (c2, e, least) = least_child_lem s i g n i1 (omega (arith, ltb→le _ _ inner)) in
        let c1 : i < c = omega arith in
        let cmp = after-key s c i g (omega arith) c2 i1 i2 in
        elim (Bool-cases (eclock_after (when_at s c) (when_at s i))) [
          | inl after ↦
              let lt : key base s i < key base s c = ltb→lt _ _ (sym cmp ∙ after) in
              rw (inner, after)
                (stays s g
                  (DownTo-IsHeap (key base s) high i (λ j hj e'. omega (arith, least j hj e')) d))
          | inr not_after ↦
              let le : key base s c ≤ key base s i = ltb→le _ _ (sym cmp ∙ not_after) in
              rw (inner, not_after)
                (Sifted-after_swap s c i g (omega arith) c2 i1 i2 (omega arith) (
                  sift_down_loop-Sifted fuel (swap s c i) c
                    (swap-IsGood s c i g (omega arith) c2 i1 i2 (omega arith)) (used-swap s c i ∙ n)
                    (omega arith) c2 (omega arith)
                    (subst (λ k. DownTo k high c) (sym (key-swap base s c i))
                      (DownTo-swapped (key base s) high i c i1 c2 e least le d))))
        ]
  ]
