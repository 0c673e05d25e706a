-- ===== src/Call/Gateway/Permits.antt =====
-- The semaphore of the gateway: no waiter is forgotten, and the limit can be passed.
use mathlib.Core.Path.{subst}
use teob_ts.Common.{
  ℕ, suc, ◌+◌, ◌-◌, ◌≤◌, ◌<◌, List, [], ◌∷◌, ◌++◌, ◌≡◌, refl, ◌∙◌, ◌⊎◌, inl, inr, arith,
}
use teob_ts.Call.Gateway.{
  Task, acquires, releases, resumes, Semaphore, wake, run_task, next_task, run_tasks, run_schedule,
}

-- The waiters that have been woken and have not yet gone on.
abbrev pub woken : List Task → ℕ
woken [] = 0
woken (resumes c ∷ ts) = suc (woken ts)
woken (acquires c ∷ ts) = woken ts
woken (releases ∷ ts) = woken ts

woken-append : (ts us : List Task) → woken (ts ++ us) ≡ woken ts + woken us
woken-append [] us = omega arith
woken-append (resumes d ∷ ts) us = omega (arith, woken-append ts us)
woken-append (acquires d ∷ ts) us = woken-append ts us
woken-append (releases ∷ ts) us = woken-append ts us

limit-next_task : (ts : List Task) (s : Semaphore) → (next_task ts s).limit ≡ s.limit
unfolding next_task
limit-next_task [] s = refl
limit-next_task (acquires c ∷ rest) s = ground arith
limit-next_task (releases ∷ rest) s = ground arith
limit-next_task (resumes c ∷ rest) s = refl

limit-run_schedule :
    (later : List (List Task)) (s : Semaphore) → (run_schedule later s).limit ≡ s.limit
unfolding run_schedule
limit-run_schedule [] s = refl
limit-run_schedule (arrivals ∷ later) s =
    limit-run_schedule later _ ∙ limit-next_task (s.tasks ++ arrivals) _

-- Someone waits only if the permits are all out, held or on their way to a woken waiter.
abbrev pub IsServed : Semaphore → Type 0
IsServed s = (s.queue ≡ []) ⊎ (s.limit ≤ s.inflight + woken s.tasks)

run_task-IsServed :
    (t : Task) (rest : List Task) (s : Semaphore)
    → (s.queue ≡ []) ⊎ (s.limit ≤ s.inflight + woken (t ∷ rest))
    → IsServed (run_task t (record s { tasks = rest }))
unfolding run_task
run_task-IsServed (acquires c) rest s h = ground arith
run_task-IsServed releases rest s h = go s.queue h
  where
    go :
        (q : List ℕ)
        → (q ≡ []) ⊎ (s.limit ≤ s.inflight + woken rest)
        → IsServed (wake q (record s { tasks = rest; inflight = s.inflight - 1; queue = q }))
    go [] h' = inl refl
    go (c ∷ q) (inl e) = cc
    go (c ∷ q) (inr le) = inr (omega (arith, woken-append rest (resumes c ∷ [])))
run_task-IsServed (resumes c) rest s h = ground arith

next_task-IsServed :
    (ts : List Task) (s : Semaphore) → s.tasks ≡ ts → IsServed s → IsServed (next_task ts s)
unfolding next_task
next_task-IsServed [] s e h = h
next_task-IsServed (t ∷ rest) s e (inl q) = run_task-IsServed t rest s (inl q)
next_task-IsServed (t ∷ rest) s e (inr le) =
    run_task-IsServed t rest s (inr (subst (λ ts. s.limit ≤ s.inflight + woken ts) e le))

run_schedule-IsServed :
    (later : List (List Task)) (s : Semaphore) → IsServed s → IsServed (run_schedule later s)
unfolding run_schedule
run_schedule-IsServed [] s h = h
run_schedule-IsServed (arrivals ∷ later) s h = run_schedule-IsServed later _ (
    next_task-IsServed (s.tasks ++ arrivals) (record s { tasks = s.tasks ++ arrivals }) refl
      (more h))
  where
    more : IsServed s → IsServed (record s { tasks = s.tasks ++ arrivals })
    more (inl q) = inl q
    more (inr le) = inr (omega (arith, woken-append s.tasks arrivals))

-- No waiter is forgotten: from a semaphore with at least one permit, on which nobody waits,
-- whatever tasks arrive and when, nobody waits once no call is in flight and no task is left.
pub run_schedule-served :
    (later : List (List Task)) (s : Semaphore)
    → s.queue ≡ []
    → 0 < s.limit
    → (run_schedule later s).inflight ≡ 0
    → (run_schedule later s).tasks ≡ []
    → (run_schedule later s).queue ≡ []
run_schedule-served later s q pos idle done =
    served (run_schedule-IsServed later s (inl q)) (limit-run_schedule later s)
  where
    served :
        IsServed (run_schedule later s)
        → (run_schedule later s).limit ≡ s.limit
        → (run_schedule later s).queue ≡ []
    served (inl e) l = e
    served (inr le) l = absurd (
        omega (
          arith,
          subst (λ ts. (run_schedule later s).limit ≤ (run_schedule later s).inflight + woken ts)
              done le,
        ))

-- The limit, at least 1, can be passed: a holder gives its permit back while one caller waits and
-- another is about to ask. The permit goes to the waiter, but the other caller runs first and
-- finds it free; then the waiter takes it too, and one more call than the limit is in flight.
pub limit_passed :
    (limit b c : ℕ)
    → 0 < limit
    → (run_tasks 3 (record {
      limit = limit;
      inflight = limit;
      queue = b ∷ [];
      tasks = releases ∷ acquires c ∷ [];
    })).inflight
      ≡ limit + 1
unfolding run_tasks
limit_passed limit b c pos = ground arith
