-- ===== src/PollerPoll/Tests.antt =====
-- Runs of the poller of Poller_poll.cc, and the theorems about it at concrete pollers.
use Prim.Native.Nat.{bit_and, bit_or}
use c10kcode.Common.{ℕ, ◌≡◌, refl, ◌∙◌, true, none, some, [], ◌∷◌}
use c10kcode.CText.{pos}
use c10kcode.PollerPoll.{
  PollerPoll, ready, init, add, del, set_mask, or_mask, and_mask, wait_for_events,
}
use c10kcode.PollerPoll.Valid.{IsValid, registered, init_clean}
use c10kcode.PollerPoll.Add.{Watches, add_lem}
use c10kcode.PollerPoll.Del.{Deletes, del_lem}
use c10kcode.PollerPoll.Masks.{HasMask, masks_lem}
use c10kcode.PollerPoll.Events.{drain, Gives, events_delivered}

-- Memory that holds -1 in the table of descriptors.
abbrev blank : PollerPoll
blank = record {
  fd_used = 0;
  fd_alloc = 0;
  pfds = λ _. record { fd = none; events = 0; revents = 0 };
  clients = λ _. none;
  pfds_used = 0;
  pfds_alloc = 0;
  fd_to_pfd = λ _. none;
  rfds = pos 0;
  cur_pfdnum = pos 0;
}

blank-IsValid : IsValid (init blank) × ((f : ℕ) → registered (init blank) f ≡ none)
blank-IsValid = init_clean blank (λ f h. refl)

-- Descriptor 20 is beyond the table.
add_lem_example : Watches (init blank) 20 7 1 (add true true (init blank) 20 7 1)
add_lem_example = add_lem (init blank) 20 7 1 blank-IsValid.0 (blank-IsValid.1 20)

-- The poller that watches descriptor 20, and the one that watches 20 and 3.
abbrev one : PollerPoll
one = (add true true (init blank) 20 7 1).1

one-IsValid : IsValid one
one-IsValid = add_lem_example.1

abbrev two : PollerPoll
two = (add true true one 3 8 4).1

two-Watches : Watches one 3 8 4 (add true true one 3 8 4)
two-Watches = add_lem one 3 8 4 one-IsValid (add_lem_example.2 3 ∙ blank-IsValid.1 3)

del_lem_example : Deletes two 20 (del two (pos 20))
del_lem_example = del_lem two 20 (some 7, 1) two-Watches.1 (two-Watches.2 20 ∙ add_lem_example.2 20)

masks_lem_example :
    HasMask two 20 (some 7) 4 (set_mask two 20 4)
    × HasMask two 20 (some 7) (bit_or 1 4) (or_mask two 20 4)
    × HasMask two 20 (some 7) (bit_and 1 4) (and_mask two 20 4)
masks_lem_example =
    masks_lem two 20 4 (some 7) 1 two-Watches.1 (two-Watches.2 20 ∙ add_lem_example.2 20)

-- Both entries are ready.
abbrev both : ℕ → ℕ
both _ = 1

events_delivered_example :
    let (err, q) = wait_for_events two (ready 2 both) in
    (err ≡ 0) × Gives ((some 3, 1, some 8) ∷ (some 20, 1, some 7) ∷ []) (drain 3 q)
unfolding add init
events_delivered_example = events_delivered two both 2 two-Watches.1 refl

-- One entry is said to be ready, and none is.
abbrev miscounted : PollerPoll
miscounted = record blank { pfds_used = 1; rfds = pos 1; cur_pfdnum = pos 1 }
