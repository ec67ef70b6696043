-- ===== src/RunQueue/Tests.antt =====
-- kernel/sched.c: a run queue with two threads.
use bunix.Common.{ℕ, ◌*◌, ◌≡◌, refl, true, List, [], ◌∷◌, ◌++◌, arith}
use bunix.RunQueue.{
  Thread, RunQueue, after, runq_push, runq_pop, runq_remove, runq_remove_first_eligible,
  sched_prepare_enqueue,
}
use bunix.RunQueue.Laws.{IsValid}
use bunix.RunQueue.Removal.{Removed, Pulled, runq_remove-Removed, runq_remove_first_eligible-Pulled}
use bunix.RunQueue.Runs.{
  Run, at_start, pushed, popped, removed, pulled, Run-IsValid, Served, waiting, comes, taken,
  Served-bound,
}
use bunix.RunQueue.Deadline.{Ready, sched_prepare_enqueue-Ready}

-- A thread with a deadline and a class.
abbrev thread_of : ℕ → ℕ → ℕ → Thread
thread_of tid deadline sched_class = record {
  at = 4096 * tid;
  tid = tid;
  weight = 1024;
  sched_class = sched_class;
  affinity_mask = 2;
  vruntime = 3;
  virtual_deadline = deadline;
  eligible_time = 3;
  enqueue_seq = tid;
  enqueue_tick = 7;
  blocked_since_tick = 4;
  wake_ready_tick = 0;
  wakeups = 0;
}

abbrev two_threads : RunQueue
two_threads = record {
  queue = thread_of 1 8 2 ∷ thread_of 2 9 3 ∷ [];
  tail = 8192;
  count = 2;
  min_vruntime = 2;
  enqueue_seq = 2;
}

two_threads-IsValid : IsValid two_threads
unfolding after
two_threads-IsValid = record {
  ordered = ((refl, tt), (tt, tt));
  separate = ((λ e. ground (arith, e)), refl, ((λ e. ground (arith, e)), refl, tt));
  last = refl;
  counted = refl;
  room = omega arith;
}

runq_remove-Removed_example :
    Removed two_threads 8192 (runq_remove two_threads 8192)
    × IsValid (runq_remove two_threads 8192).1
runq_remove-Removed_example = runq_remove-Removed two_threads 8192 two_threads-IsValid

runq_remove_first_eligible-Pulled_example :
    Pulled 2 two_threads 1 (runq_remove_first_eligible 2 two_threads 1)
    × IsValid (runq_remove_first_eligible 2 two_threads 1).1
runq_remove_first_eligible-Pulled_example =
    runq_remove_first_eligible-Pulled 2 two_threads 1 two_threads-IsValid

-- A thread comes, the first is taken, one is moved to processor 1, and one is removed.
four_operations :
    Run 2 two_threads
      (runq_remove
        (runq_remove_first_eligible 2 (runq_pop (runq_push two_threads (thread_of 3 8 4))).1 1).1
        8192).1
unfolding runq_push
four_operations = removed 8192 (
    pulled 1
      (popped (pushed (thread_of 3 8 4) at_start (λ e. ground (arith, e)) refl (omega arith))))

Run-IsValid_example :
    IsValid
      (runq_remove
        (runq_remove_first_eligible 2 (runq_pop (runq_push two_threads (thread_of 3 8 4))).1 1).1
        8192).1
Run-IsValid_example = Run-IsValid 2 two_threads _ two_threads-IsValid four_operations

-- A thread with a later deadline comes before the two are taken.
abbrev none_left : RunQueue
none_left = record {
  queue = thread_of 3 10 4 ∷ [];
  tail = 12288;
  count = 1;
  min_vruntime = 3;
  enqueue_seq = 2;
}

sample_service :
    Served (thread_of 2 9 3) two_threads (thread_of 1 8 2 ∷ thread_of 2 9 3 ∷ []) none_left
unfolding runq_pop runq_push after
sample_service =
    taken
      (taken (comes (thread_of 3 10 4) waiting refl (λ e. ground (arith, e)) refl (omega arith))
        refl)
      refl

Served-bound_example :
    (zs : List Thread) × (thread_of 1 8 2 ∷ thread_of 2 9 3 ∷ []
      ≡ (thread_of 1 8 2 ∷ []) ++ (thread_of 2 9 3 ∷ zs))
Served-bound_example =
    Served-bound (thread_of 2 9 3) (thread_of 1 8 2 ∷ []) [] two_threads none_left
      (thread_of 1 8 2 ∷ thread_of 2 9 3 ∷ []) two_threads-IsValid refl sample_service (omega arith)

sched_prepare_enqueue-Ready_example :
    Ready two_threads
      (thread_of 3 10 4)
      (sched_prepare_enqueue 9 two_threads (thread_of 3 10 4) true)
sched_prepare_enqueue-Ready_example =
    sched_prepare_enqueue-Ready 9 two_threads (thread_of 3 10 4) true (omega arith) (omega arith)
      (omega arith)
