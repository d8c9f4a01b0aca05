-- ===== src/Poller/Draining.antt =====
-- dkftpbench-0.45/Poller.cc: the client of the wake-up pipe empties it.
use c10kcode.Common.{
  ℕ, zero, suc, ◌+◌, ◌*◌, ◌/◌, ◌-◌, ◌<◌, ◌≤◌, ◌≡◌, ◌≢◌, refl, Bool-cases, inl, inr, ==→eq, ==→ne,
  ◌∙◌, true, false, arith, ◌==◌, if◌then◌else◌, if_then, if_else, ◌∷◌, ltb,
}
use c10kcode.Nbbio.{ReadReply}
use c10kcode.Pipe.{returned, has, pollin, pollerr}
use c10kcode.Poller.{WakePipe, cleared, amount, drain, notify_wake_up}

-- What a pipe with `n` bytes in it gives to reads of 64 bytes, while nobody writes: all that is there.
abbrev pub Holds : (ℕ → ℕ → ReadReply) → ℕ → Type 0
Holds reads n = (i : ℕ) → amount (reads i 64) ≡ (if ltb (64 * i + 64) n then 64 else n - 64 * i)

-- What the first `k` reads take
pub taken : (ℕ → ℕ → ReadReply) → ℕ → ℕ
taken reads zero = 0
taken reads (suc k) = taken reads k + amount (reads k 64)

start : (reads : ℕ → ℕ → ReadReply) → taken reads 0 ≡ 64 * 0
unfolding taken
start reads = refl

full : (a i n : ℕ) → a ≡ (if ltb (64 * i + 64) n then 64 else n - 64 * i) → a ≡ 64 → 64 * suc i ≤ n
full a i n h l = ground arith

short :
    (a i n : ℕ)
    → a ≡ (if ltb (64 * i + 64) n then 64 else n - 64 * i)
    → a ≢ 64
    → 64 * i ≤ n
    → (a + 64 * i ≡ n) × (n < 64 * i + 64)
short a i n h l m = ground arith

-- What the loop comes to.
abbrev pub Drained : (ℕ → ℕ → ReadReply) → ℕ → ℕ → Type 0
Drained reads n k = (taken reads k ≡ n) × (64 * k ≤ n + 64)

drain_lem :
    (reads : ℕ → ℕ → ReadReply) (n fuel i : ℕ)
    → Holds reads n
    → 64 * i ≤ n
    → n < 64 * (i + fuel)
    → taken reads i ≡ 64 * i
    → (k : ℕ) × (drain reads fuel i ≡ returned k) × Drained reads n k
unfolding drain taken
drain_lem reads n zero i h l m t = absurd (omega (arith, l, m))
drain_lem reads n (suc fuel) i h l m t = elim (Bool-cases (amount (reads i 64) == 64)) [
  | inl whole ↦
      let a : amount (reads i 64) ≡ 64 = ==→eq (amount (reads i 64)) 64 whole in
      let (k, run, done) =
        drain_lem reads n fuel (suc i) h (full _ i n (h i) a) (omega (arith, m))
          (omega (arith, t, a)) in
      (
        k,
        if_then (amount (reads i 64) == 64) (drain reads fuel (suc i)) (returned (suc i)) whole
            ∙ run,
        done,
      )
  | inr part ↦
      let (all, few) = short _ i n (h i) (==→ne (amount (reads i 64)) 64 part) l in
      (
        suc i,
        if_else (amount (reads i 64) == 64) (drain reads fuel (suc i)) (returned (suc i)) part,
        (omega (arith, t, all), omega (arith, l)),
      )
]

-- However often the poller was woken up before, one event that says that the pipe can be read, and
-- no error, empties it: where it holds `n` bytes and nobody writes during the call, the loop ends
-- with at most n / 64 + 1 reads, which take all `n` bytes, and the readiness is cleared once,
-- behind them.
pub notify_wake_up-Drained :
    (reads : ℕ → ℕ → ReadReply) (n fd revents : ℕ) (p : WakePipe)
    → Holds reads n
    → has pollerr revents ≡ false
    → has pollin revents ≡ true
    → (k : ℕ) × (notify_wake_up reads (n / 64 + 1) fd revents p
        ≡ returned (k, record p { effects = cleared fd pollin ∷ p.effects }))
      × Drained reads n k
unfolding notify_wake_up
notify_wake_up-Drained reads n fd revents p h fine ready =
    let (k, run, done) =
      drain_lem reads n (n / 64 + 1) 0 h (omega arith) (omega arith) (start reads) in
    (k, rw (notify_wake_up, fine, ready, run) refl, done)
