-- ===== src/Poller/Tests.antt =====
-- dkftpbench-0.45/Poller.cc: a pipe with a hundred bytes in it is emptied.
use c10kcode.Common.{
  ℕ, zero, suc, ◌+◌, ◌*◌, ◌-◌, ◌≡◌, refl, sym, true, some, List, [], ◌∷◌, arith, ◌==◌,
  if◌then◌else◌, if_both, ltb, ==→eq, length, ewouldblock,
}
use c10kcode.Nbbio.{ReadReply, got}
use c10kcode.Pipe.{returned, pollin}
use c10kcode.Poller.{WakePipe, cleared, amount, notify_wake_up}
use c10kcode.Poller.Draining.{Holds, Drained, notify_wake_up-Drained}

abbrev ones : ℕ → List ℕ
ones zero = []
ones (suc n) = 97 ∷ ones n

length-ones : (n : ℕ) → length (ones n) ≡ n
length-ones zero = refl
length-ones (suc n) = omega (arith, length-ones n)

-- A pipe that holds `n` bytes
abbrev left : ℕ → ℕ → ℕ
left n i = if ltb (64 * i + 64) n then 64 else n - 64 * i

abbrev holding : ℕ → ℕ → ℕ → ReadReply
holding n i size = if left n i == 0 then ReadReply.failed ewouldblock else got (ones (left n i))

holding-Holds : (n : ℕ) → Holds (holding n) n
holding-Holds n i =
    if_both (λ r. amount r ≡ left n i) (left n i == 0) (ReadReply.failed ewouldblock)
      (got (ones (left n i))) (λ e. sym (==→eq (left n i) 0 e)) (λ e. length-ones (left n i))

abbrev waking : WakePipe
waking = record { read_end = some 5; write_end = some 6; owned = true; effects = [] }

notify_wake_up-Drained_example :
    (k : ℕ) × (notify_wake_up (holding 100) 2 5 1 waking
      ≡ returned (k, record waking { effects = cleared 5 pollin ∷ [] }))
    × Drained (holding 100) 100 k
notify_wake_up-Drained_example =
    notify_wake_up-Drained (holding 100) 100 5 1 waking (holding-Holds 100) refl refl
