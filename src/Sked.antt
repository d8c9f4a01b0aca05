-- ===== src/Sked.antt =====
-- dkftpbench-0.45/Sked.h and Sked.cc: the scheduler, a binary heap over an array from index 1 on,
-- each client knowing its place in it. A client is a number; `sked_index` holds the `skedIndex` of
-- every client. An allocation's success is an argument, and a failed `assert` is `aborted`.
pub mod Order
pub mod Links
pub mod Sift
pub mod Replace
pub mod Valid
pub mod Add
pub mod Pop
pub mod Del
pub mod Covered
pub mod Run
pub mod InOrder
mod Tests
use c10kcode.Common.{
  ℕ, zero, suc, ◌+◌, ◌-◌, ◌*◌, ◌/◌, Bool, true, false, ◌&&◌, ◌||◌, not, Option, none, some, List,
  [], ◌∷◌, ltb, leb, ◌==◌, if◌then◌else◌, write, enomem, einval,
}
use c10kcode.Eclock.{eclock_after}

pub record SkedRecord : Type 0 where
  pub skc : ℕ
  pub when : ℕ

pub record Sked : Type 0 where
  pub records : ℕ → SkedRecord
  pub allocated : ℕ
  pub used : ℕ
  pub sked_index : ℕ → ℕ

-- How a call ends: an `assert` fails, a loop runs out of fuel, or it returns.
pub data Outcome {ℓ} (A : Type ℓ) : Type ℓ where
  aborted : Outcome A
  unfinished : Outcome A
  returned : A → Outcome A

infixl 5 ◌>>=◌
abbrev pub ◌>>=◌ {ℓ κ} : {A : Type ℓ} {B : Type κ} → Outcome A → (A → Outcome B) → Outcome B
aborted >>= f = aborted
unfinished >>= f = unfinished
returned a >>= f = f a

-- `assert(b);` and what follows it.
abbrev pub asserted {ℓ} : {A : Type ℓ} → Bool → Outcome A → Outcome A
asserted b k = if b then k else aborted

abbrev pub client_at : Sked → ℕ → ℕ
client_at s i = (s.records i).skc

abbrev pub when_at : Sked → ℕ → ℕ
when_at s i = (s.records i).when

-- The macro `storeAt(i, r)`.
abbrev pub store_at : Sked → ℕ → SkedRecord → Sked
store_at s i r = record s { records = write s.records i r; sked_index = write s.sked_index r.skc i }

-- `tmp = m_records[p]; storeAt(p, m_records[i]); storeAt(i, tmp);`
pub swap : Sked → ℕ → ℕ → Sked
swap s p i = store_at (store_at s p (s.records i)) i (s.records p)

abbrev pub empty : Sked → Bool
empty s = s.used == 0

abbrev pub top : Sked → Option SkedRecord
top s = if empty s then none else some (s.records 1)

abbrev pub next_time : Sked → ℕ → ℕ
next_time s defval = if empty s then defval else when_at s 1

-- `init`, the argument being whether `malloc` succeeds.
pub init : Bool → Sked → ℕ × Sked
init ok s =
    if ok
    then (0, record s { allocated = 256; used = 0 })
    else (enomem, record s { allocated = 0; used = 0 })

-- The loop of `siftUp`. The first argument is fuel.
pub sift_up_loop : ℕ → Sked → ℕ → Sked
sift_up_loop zero s index = s
sift_up_loop (suc fuel) s index =
    let parent = index / 2 in
    let next = sift_up_loop fuel (swap s parent index) parent in
    if ltb 1 index
    then (if eclock_after (when_at s index) (when_at s parent) then s else next)
    else s

pub sift_up : Sked → ℕ → Sked
sift_up s index = sift_up_loop index s index

-- The lesser child of `index`, the right one where they are equal.
abbrev pub least_child : Sked → ℕ → ℕ
least_child s index =
    if ltb (index * 2) s.used
      && not (eclock_after (when_at s (index * 2 + 1)) (when_at s (index * 2)))
    then index * 2 + 1
    else index * 2

-- The loop of `siftDown`. The first argument is fuel.
pub sift_down_loop : ℕ → Sked → ℕ → Sked
sift_down_loop zero s index = s
sift_down_loop (suc fuel) s index =
    let child = least_child s index in
    let next = sift_down_loop fuel (swap s child index) child in
    if ltb s.used (index * 2)
    then s
    else if eclock_after (when_at s child) (when_at s index)
    then s
    else next

pub sift_down : Sked → ℕ → Sked
sift_down s index = sift_down_loop s.used s index

-- The loop of `remove` that takes the record at `index` to the top. The first argument is fuel.
pub float_loop : ℕ → Sked → ℕ → Sked
float_loop zero s index = s
float_loop (suc fuel) s index =
    let next = float_loop fuel (swap s (index / 2) index) (index / 2) in
    if ltb 1 index then next else s

-- `storeAt(1, m_records[m_used+1])`, and the sift of the new top.
pub replace_top : Sked → Sked
replace_top s =
    let t = store_at s 1 (s.records (s.used + 1)) in if ltb 1 s.used then sift_down t 1 else t

pub remove : Sked → ℕ → Outcome Sked
remove s index = asserted (leb index s.used) (
    returned (
      if ltb 1 s.used
      then replace_top (record (float_loop index s index) { used = s.used - 1 })
      else record s { used = s.used - 1 }))

-- `push`, the argument being whether `realloc` succeeds.
pub push : Bool → Sked → SkedRecord → ℕ × Sked
push ok s r =
    let full = s.used + 1 == s.allocated in
    let s1 = if full then record s { allocated = s.allocated * 2 } else s in
    let s2 = store_at (record s1 { used = s.used + 1 }) (s.used + 1) r in
    if full && not ok then (enomem, s) else (0, sift_up s2 (s.used + 1))

pub pop : Sked → Outcome Sked
pop s =
    let c = client_at s 1 in
    let s1 = record s { sked_index = write s.sked_index c 0; used = s.used - 1 } in
    let s2 = replace_top s1 in
    if empty s
    then returned s
    else asserted (s.sked_index c == 1) (
        if ltb 0 s1.used
        then asserted (s2.sked_index (client_at s2 1) == 1) (returned s2)
        else returned s1)

pub add_client : Bool → Sked → ℕ → ℕ → Outcome (ℕ × Sked)
add_client ok s c w =
    asserted (s.sked_index c == 0) (returned (push ok s (record { skc = c; when = w })))

pub del_client : Sked → ℕ → Outcome (ℕ × Sked)
del_client s c =
    if s.sked_index c == 0
    then returned (0, s)
    else asserted (ltb 0 s.used) (
        remove s (s.sked_index c) >>= λ t.
        returned (0, record t { sked_index = write t.sked_index c 0 }))

-- `runAll(now)`. The first number is fuel; `callback c now s` is the scheduler after client `c`'s
-- `skedCallback`, which may call the public methods. The middle of a result is the records whose
-- clients were called, in order.
pub run_all : (ℕ → ℕ → Sked → Sked) → ℕ → Sked → ℕ → Outcome (ℕ × List SkedRecord × Sked)
run_all callback zero s now = unfinished
run_all callback (suc fuel) s now =
    let p = s.records 1 in
    let i = s.sked_index p.skc in
    let next = pop s >>= λ t.
    asserted (t.sked_index p.skc == 0)
      (run_all callback fuel (callback p.skc now t) now >>= λ r. returned (r.0, p ∷ r.1, r.2)) in
    if empty s || eclock_after p.when now
    then returned (0, [], s)
    else if ltb i 1 || ltb s.used i || not (client_at s i == p.skc)
    then returned (einval, [], s)
    else asserted (i == 1) next
