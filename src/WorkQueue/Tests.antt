-- ===== src/WorkQueue/Tests.antt =====
-- src/include/source2root/work_queue.hpp: one job, from Submit to Dispatch.
use source2root.Base.{◌≤◌, ◌≡◌, ◌≢◌, refl, true, false, none, some, [], ◌∷◌, ok}
use source2root.WorkQueue.{
  Queue, create, cancel, submit, take_job, finish_job, begin_dispatch, next_ready, begin_stop,
  occurrences, settle, Completion,
}
use source2root.WorkQueue.Steps.{Steps, submits, takes, finishes, begins, continues, here, later}
use source2root.WorkQueue.Places.{places, reachable_in_one_place}
use source2root.WorkQueue.Bounds.{dispatch_finds_job}
use source2root.WorkQueue.Cancels.{in_completion, canceled_never_called, stopped_never_called}

abbrev empty : Queue
empty = record {
  capacity = 4;
  next = 0;
  jobs = [];
  waiting = [];
  running = [];
  ready = [];
  held = none;
  remaining = 0;
  dispatching = false;
  stopping = false;
  canceled = [];
  failed = [];
}

abbrev submitted : Queue
submitted = record empty { next = 1; jobs = 0 ∷ []; waiting = 0 ∷ [] }

abbrev taken : Queue
taken = record submitted { waiting = []; running = 0 ∷ [] }

abbrev finished : Queue
finished = record taken { running = []; ready = 0 ∷ []; failed = 0 ∷ [] }

abbrev begun : Queue
begun = record finished { dispatching = true; remaining = 1 }

abbrev calling : Queue
calling = record begun {
  ready = [];
  remaining = 0;
  held = some (record { job = 0; called = true });
}

created : create 2 4 ≡ ok empty
unfolding create
created = refl

up_to_finished : Steps empty finished
unfolding submit take_job finish_job
up_to_finished =
    later (submits true true (some 0) refl) (later (takes refl) (later (finishes 0 true refl) here))

up_to_calling : Steps empty calling
unfolding submit take_job finish_job begin_dispatch next_ready
up_to_calling = later (submits true true (some 0) refl) (
    later (takes refl) (
      later (finishes 0 true refl)
        (later (begins true refl refl) (later (continues refl refl refl) here))))

retained_is_ready_again : settle Completion.retained calling ≡ some (record begun { remaining = 0 })
unfolding settle
retained_is_ready_again = refl

consumed_is_gone :
    settle Completion.consumed calling
    ≡ some (record begun { remaining = 0; ready = []; jobs = [] })
unfolding settle
consumed_is_gone = refl

reachable_in_one_place_example :
    (occurrences 0 calling.jobs ≡ places 0 calling) × (places 0 calling ≤ 1)
reachable_in_one_place_example = reachable_in_one_place 0 2 4 created up_to_calling

up_to_begun : Steps empty begun
unfolding submit take_job finish_job begin_dispatch
up_to_begun =
    later (submits true true (some 0) refl)
      (later (takes refl) (later (finishes 0 true refl) (later (begins true refl refl) here)))

dispatch_finds_job_example : next_ready begun ≢ none
dispatch_finds_job_example = dispatch_finds_job 2 4 created up_to_begun refl

canceled_finishes : Steps (cancel 0 taken) (record finished { canceled = 0 ∷ [] })
unfolding finish_job
canceled_finishes = later (finishes 0 true refl) here

canceled_never_called_example : in_completion 0 none ≡ false
canceled_never_called_example = canceled_never_called 0 {q = taken} refl canceled_finishes

stopped_finishes : Steps (begin_stop taken) (record finished { stopping = true; canceled = 0 ∷ [] })
unfolding finish_job begin_stop
stopped_finishes = later (finishes 0 true refl) here

stopped_never_called_example : in_completion 0 none ≡ false
stopped_never_called_example = stopped_never_called 0 taken refl refl stopped_finishes
