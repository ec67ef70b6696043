-- ===== src/RunQueue.antt =====
-- kernel/sched.c: the run queue of a processor, from `runq_push` to `sched_refresh_deadline` and from
-- `sched_prepare_enqueue_locked` to `runq_remove_first_eligible`. `queue` are the threads from `head` on,
-- by `run_next`; a pointer to a thread is the number `at`. A function here is what runs under the lock
-- of the queue. `idle` and the fields that only feed statistics elsewhere are left out.
pub mod Order
pub mod Laws
pub mod Removal
pub mod Runs
pub mod Deadline
mod Tests
use bunix.Common.{
  ℕ, ◌+◌, ◌-◌, ◌*◌, ◌/◌, ◌%◌, ◌^◌, Bool, true, false, not, ◌&&◌, ◌||◌, Option, none, some, List, [],
  ◌∷◌, ◌++◌, ltb, leb, ◌==◌, if◌then◌else◌, add64, sub64, mul64, add32, sub32,
}

pub record Thread : Type 0 where
  pub at : ℕ
  pub tid : ℕ
  pub weight : ℕ
  pub sched_class : ℕ
  pub affinity_mask : ℕ
  pub vruntime : ℕ
  pub virtual_deadline : ℕ
  pub eligible_time : ℕ
  pub enqueue_seq : ℕ
  pub enqueue_tick : ℕ
  pub blocked_since_tick : ℕ
  pub wake_ready_tick : ℕ
  pub wakeups : ℕ

pub record RunQueue : Type 0 where
  pub queue : List Thread
  pub tail : ℕ
  pub count : ℕ
  pub min_vruntime : ℕ
  pub enqueue_seq : ℕ

-- Whether the thread goes behind the one queued.
unfoldable pub after : Thread → Thread → Bool
after t q =
    ltb q.virtual_deadline t.virtual_deadline
    || (t.virtual_deadline == q.virtual_deadline && ltb q.eligible_time t.eligible_time)
    || (t.virtual_deadline == q.virtual_deadline
        && t.eligible_time == q.eligible_time
        && ltb q.enqueue_seq t.enqueue_seq)
    || (t.virtual_deadline == q.virtual_deadline
        && t.eligible_time == q.eligible_time
        && t.enqueue_seq == q.enqueue_seq
        && ltb q.tid t.tid)

-- The threads that the loop of `runq_push` passes, and the others.
unfoldable pub place : Thread → List Thread → List Thread × List Thread
unfolding after
place t [] = ([], [])
place t (q ∷ qs) =
    let rest = place t qs in elim (after t q) [ true ↦ (q ∷ rest.0, rest.1) | false ↦ ([], q ∷ qs) ]

abbrev pub no_threads : List Thread → Bool
no_threads [] = true
no_threads (t ∷ ts) = false

abbrev pub push_tail : ℕ → ℕ → List Thread → ℕ
push_tail at tail behind =
    let now = if no_threads behind then at else tail in if now == 0 then at else now

unfoldable pub runq_push : RunQueue → Thread → RunQueue
unfolding place
runq_push q t =
    let found = place t q.queue in
    record q {
      queue = found.0 ++ (t ∷ found.1);
      tail = push_tail t.at q.tail found.1;
      count = add32 q.count 1;
    }

unfoldable pub pop_from : RunQueue → List Thread → Option Thread × RunQueue
pop_from q [] = (none, q)
pop_from q (t ∷ rest) = (
  some t,
  record q {
    queue = rest;
    tail = if no_threads rest then 0 else q.tail;
    count = sub32 q.count 1;
    min_vruntime = if ltb q.min_vruntime t.vruntime then t.vruntime else q.min_vruntime;
  },
)

unfoldable pub runq_pop : RunQueue → Option Thread × RunQueue
unfolding pop_from
runq_pop q = pop_from q q.queue

-- The loop that looks for the tail again.
abbrev pub last_thread : ℕ → List Thread → ℕ
last_thread tail [] = tail
last_thread tail (t ∷ ts) = last_thread t.at ts

-- What both removals do with a thread that they found, once it is out of the list.
abbrev pub unlinked : RunQueue → ℕ → List Thread → RunQueue
unlinked q at queue = record q {
  queue = queue;
  tail = if q.tail == at then last_thread 0 queue else q.tail;
  count = if ltb 0 q.count then q.count - 1 else q.count;
}

-- The list without the thread; `none` if it is not in the list.
unfoldable pub without_thread : ℕ → List Thread → Option (List Thread)
without_thread at [] = none
without_thread at (t ∷ ts) =
    let rest = without_thread at ts in
    elim (t.at == at) [
      | true ↦ some ts
      | false ↦ elim rest [ none ↦ none | some us ↦ some (t ∷ us) ]
    ]

unfoldable pub runq_remove : RunQueue → ℕ → Bool × RunQueue
unfolding without_thread
runq_remove q at = elim (without_thread at q.queue) [
  | none ↦ (false, q)
  | some ts ↦ (true, unlinked q at ts)
]

-- User threads are class 3, batch threads class 4. Bit `cpu` of the affinity mask.
unfoldable pub can_move : ℕ → Thread → Bool
can_move cpu t = (t.sched_class == 3 || t.sched_class == 4) && t.affinity_mask / 2 ^ cpu % 2 == 1

unfoldable pub first_eligible : ℕ → List Thread → Option (Thread × List Thread)
unfolding can_move
first_eligible cpu [] = none
first_eligible cpu (t ∷ ts) =
    let rest = first_eligible cpu ts in
    elim (can_move cpu t) [
      | true ↦ some (t, ts)
      | false ↦ elim rest [ none ↦ none | some found ↦ some (found.0, t ∷ found.1) ]
    ]

unfoldable pub runq_remove_first_eligible : ℕ → RunQueue → ℕ → Option Thread × RunQueue
unfolding first_eligible
runq_remove_first_eligible sched_cpu_count q dst_cpu_id =
    if leb sched_cpu_count dst_cpu_id then (none, q) else elim (first_eligible dst_cpu_id q.queue) [
      | none ↦ (none, q)
      | some found ↦ (some found.0, unlinked q found.0.at found.1)
    ]

-- The base weight is 1024, the base slice 5 ticks.
unfoldable pub sched_scale_delta : ℕ → ℕ → ℕ
sched_scale_delta delta weight =
    let w = if weight == 0 then 1024 else weight in sub64 (add64 (mul64 delta 1024) w) 1 / w

unfoldable pub sched_refresh_deadline : Thread → Thread
unfolding sched_scale_delta
sched_refresh_deadline t =
    let slice = sched_scale_delta 5 t.weight in
    record t {
      eligible_time = t.vruntime;
      virtual_deadline = add64 t.vruntime (if slice == 0 then 1 else slice);
    }

-- `slept`, at most 20 ticks.
unfoldable pub slept_ticks : ℕ → Thread → ℕ
slept_ticks now t =
    let slept =
      if not (t.blocked_since_tick == 0) && ltb t.blocked_since_tick now
      then now - t.blocked_since_tick
      else 0 in
    if ltb 20 slept then 20 else slept

-- The credit of a thread that slept, down to the least `vruntime` of the queue.
unfoldable pub with_credit : ℕ → ℕ → Thread → ℕ
unfolding sched_scale_delta
with_credit min_vruntime slept t =
    let credit = sched_scale_delta slept t.weight in
    if slept == 0
    then t.vruntime
    else if ltb (add64 min_vruntime credit) t.vruntime
    then sub64 t.vruntime credit
    else min_vruntime

unfoldable pub woken : ℕ → ℕ → Thread → Thread
unfolding slept_ticks with_credit
woken now min_vruntime t = record t {
  vruntime = with_credit min_vruntime (slept_ticks now t) t;
  wakeups = add64 t.wakeups 1;
  wake_ready_tick = now;
  blocked_since_tick = 0;
}

abbrev pub with_weight : ℕ → Thread → Thread
with_weight min_vruntime t = record t {
  weight = if t.weight == 0 then 1024 else t.weight;
  vruntime = if ltb t.vruntime min_vruntime then min_vruntime else t.vruntime;
}

-- `now` is `timer_ticks ()`.
unfoldable pub sched_prepare_enqueue : ℕ → RunQueue → Thread → Bool → Thread × RunQueue
unfolding woken sched_refresh_deadline
sched_prepare_enqueue now q t wakeup =
    let weighted = with_weight q.min_vruntime t in
    let ready = if wakeup then woken now q.min_vruntime weighted else weighted in
    let seq = add64 q.enqueue_seq 1 in
    (
      sched_refresh_deadline (record ready { enqueue_seq = seq; enqueue_tick = now }),
      record q { enqueue_seq = seq },
    )
