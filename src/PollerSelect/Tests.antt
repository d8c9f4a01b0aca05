-- ===== src/PollerSelect/Tests.antt =====
-- Runs of the poller of Poller_select.cc, and the theorems about it at concrete pollers.
use c10kcode.Common.{refl, true, none, some, arith, write}
use c10kcode.CText.{pos}
use c10kcode.PollerSelect.{PollerSelect, add, del, get_next_event, none_set}
use c10kcode.PollerSelect.Valid.{IsValid, Changes, add-Changes}
use c10kcode.PollerSelect.Del.{del-Changes}
use c10kcode.PollerSelect.Events.{GivesNext, get_next_event-GivesNext}

-- Descriptor 5 of client 7 is watched, and `select` has set it for reading.
abbrev one : PollerSelect
one = record {
  clients = write (λ _. none) 5 (some 7);
  fd_limit = 6;
  rbits = pos 1;
  next_fd = 0;
  read_fds = write none_set 5 true;
  write_fds = none_set;
  test_read = write none_set 5 true;
  test_write = none_set;
}

one-IsValid : IsValid one
one-IsValid = record {
  below = λ f c e. ground arith;
  unread = λ f n. ground arith;
  unwritten = λ f n. refl;
  inside = omega arith;
}

add-Changes_example : Changes one 3 (some (8, true, true)) (add one (pos 3) 8 5)
add-Changes_example = add-Changes one 3 8 5 one-IsValid (omega arith) refl

del-Changes_example : Changes one 5 none (del one (pos 5))
del-Changes_example = del-Changes one 5 7 one-IsValid refl

get_next_event-GivesNext_example : GivesNext one (get_next_event one)
get_next_event-GivesNext_example = get_next_event-GivesNext one refl
