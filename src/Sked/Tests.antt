-- ===== src/Sked/Tests.antt =====
-- Runs of the scheduler of Sked.cc, and the theorems about it at concrete schedulers.
use c10kcode.Common.{
  ℕ, ◌+◌, ◌==◌, if◌then◌else◌, if_cases, ap, sym, ◌∙◌, inl, inr, Bool-cases, ==→eq, ◌<◌, ◌≡◌, refl,
  some, arith, write, true, false, enomem,
}
use mathlib.Core.Bool.{true≢false}
use c10kcode.Eclock.{eclock_after}
use c10kcode.Eclock.Window.{InWindow}
use c10kcode.Sked.{
  Sked, Outcome, aborted, unfinished, returned, add_client, sift_up, sift_up_loop, swap, pop,
  del_client, run_all,
}
use c10kcode.Sked.Links.{scheduled}
use c10kcode.Sked.Valid.{IsValid}
use c10kcode.Sked.Add.{Adds, add_client_lem, add_client-enomem}
use c10kcode.Sked.Pop.{Drops, pop_lem}
use c10kcode.Sked.Del.{Deletes, del_client_lem}
use c10kcode.Sked.Run.{Behaves, RunsDue, run_all-RunsDue}
use c10kcode.Sked.InOrder.{CalledFrom, run_all_in_order}

abbrev blank : Sked
blank = record {
  records = λ _. record { skc = 0; when = 0 };
  allocated = 0;
  used = 0;
  sked_index = λ _. 0;
}

-- Clients 7 and 8, for the readings 5 and 3, in an array of `n`.
abbrev two_queued : ℕ → Sked
two_queued n = record {
  records =
      write (write (λ _. record { skc = 0; when = 0 }) 1 (record { skc = 8; when = 3 })) 2
        (record { skc = 7; when = 5 });
  allocated = n;
  used = 2;
  sked_index = write (write (λ _. 0) 8 1) 7 2;
}

two_queued-IsValid : (n : ℕ) → 2 < n → IsValid 0 (two_queued n)
two_queued-IsValid n h = record {
  good = record {
    links = record {
      held = λ i a b. tt;
      indexed = λ i a b. ground arith;
      from = λ c h nz. ground arith;
      to = λ c h nz. ground arith;
      back = λ c h nz. ground arith;
    };
    window = λ c w h e. ground arith;
    start = omega arith;
  };
  heap = λ j a b. ground arith;
  room = h;
}

near : (w : ℕ) → w < 100000 → InWindow 0 w
near w h = omega arith

add_client_run :
    scheduled
      (sift_up
        (record (two_queued 3) {
          used = 3;
          records = write (two_queued 3).records 3 (record { skc = 9; when = 2 });
          sked_index = write (two_queued 3).sked_index 9 3;
        })
        3)
      9
    ≡ some 2
unfolding sift_up sift_up_loop swap eclock_after
add_client_run = refl

-- The array is full, and is made larger.
add_client_lem_example : Adds 0 (two_queued 3) 9 4 (add_client true (two_queued 3) 9 4)
add_client_lem_example =
    add_client_lem true (two_queued 3) 9 4 (two_queued-IsValid 3 (omega arith)) refl
      (near 4 (omega arith)) (λ e. refl)

add_client-enomem_example : add_client false (two_queued 3) 9 4 ≡ returned (enomem, two_queued 3)
add_client-enomem_example =
    add_client-enomem false (two_queued 3) 9 4 (two_queued-IsValid 3 (omega arith)) refl refl refl

pop_lem_example : Drops 0 (two_queued 9) 8 (pop (two_queued 9))
pop_lem_example = pop_lem (two_queued 9) (two_queued-IsValid 9 (omega arith)) (omega arith)

del_client_lem_example : Deletes 0 (two_queued 9) 8 (del_client (two_queued 9) 8)
del_client_lem_example = del_client_lem (two_queued 9) 8 (two_queued-IsValid 9 (omega arith))

-- A client that schedules itself anew, five seconds later, when it is called.
abbrev result : Sked → Outcome (ℕ × Sked) → Sked
result s (returned (e, t)) = t
result s aborted = s
result s unfinished = s

abbrev again : ℕ → ℕ → Sked → Sked
again c now s = result s (add_client true s c (now + 50000))

abbrev IsKept : Sked → Sked → Type 0
IsKept s t =
    IsValid 0 t
    × ((d w : ℕ) → scheduled t d ≡ some w → eclock_after w 6 ≡ false → scheduled s d ≡ some w)

later : eclock_after 50006 6 ≡ true
unfolding eclock_after
later = refl

same_time : (a b : ℕ) → some a ≡ some b → a ≡ b
same_time a b e = ground arith

kept_due :
    (s t : Sked) (c d w : ℕ)
    → scheduled t d ≡ some w
    → eclock_after w 6 ≡ false
    → scheduled t d ≡ (if d == c then some 50006 else scheduled s d)
    → scheduled s d ≡ some w
kept_due s t c d w q due h = elim (if_cases (d == c) (some 50006) (scheduled s d) (sym h ∙ q)) [
  | inl new ↦
      absurd (true≢false (sym later ∙ ap (λ x. eclock_after x 6) (same_time 50006 w new) ∙ due))
  | inr kept ↦ kept
]

added-IsKept :
    (s : Sked) (c : ℕ) (o : Outcome (ℕ × Sked)) → Adds 0 s c 50006 o → IsKept s (result s o)
added-IsKept s c aborted a = absurd a
added-IsKept s c unfinished a = absurd a
added-IsKept s c (returned (e, t)) (_, v, all) = (v, λ d w q due. kept_due s t c d w q due (all d))

again-IsKept : (c : ℕ) (s : Sked) → IsValid 0 s → IsKept s (again c 6 s)
unfolding add_client
again-IsKept c s v = elim (Bool-cases (s.sked_index c == 0)) [
  | inl idle ↦
      added-IsKept s c (add_client true s c 50006)
        (add_client_lem true s c 50006 v (==→eq _ _ idle) (near 50006 (omega arith)) (λ e. refl))
  | inr busy ↦ rw busy (v, λ d w q due. q)
]

again-Behaves : Behaves 0 6 again
again-Behaves = record {
  valid = λ c s v. (again-IsKept c s v).0;
  no_new_due = λ c s v. (again-IsKept c s v).1;
}

-- At reading 6 both clients are due, and each schedules itself for later.
run_all-RunsDue_example : RunsDue 0 6 (run_all again 5 (two_queued 9) 6)
run_all-RunsDue_example =
    run_all-RunsDue again again-Behaves (near 6 (omega arith)) 5 (two_queued 9)
      (two_queued-IsValid 9 (omega arith)) (omega arith)

run_all_in_order_example : CalledFrom 0 0 (run_all again 5 (two_queued 9) 6)
run_all_in_order_example =
    run_all_in_order again again-Behaves (near 6 (omega arith)) 5 (two_queued 9)
      (two_queued-IsValid 9 (omega arith)) (omega arith)
