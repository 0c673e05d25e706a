-- ===== src/Projection/Runner.antt =====
-- The poll and nudge loop of src/projection/runner.ts, between passes. A cycle is two steps, so that
-- the user's code inside it (`evolve`, `onError`) can call the runner; `onCycle` runs after it.
use teob_ts.Common.{ℕ, suc, ◌-◌, ◌<◌, ◌≤◌, Bool, true, false, ◌≡◌, arith, if◌then◌else◌, ◌⊎◌}

pub record Runner : Type 0 where
  pub interval : Bool
  pub stopped : Bool
  pub running : Bool
  pub nudge_requested : Bool
  pub scheduled : Bool
  pub cycles : ℕ
  -- The callbacks on the microtask queue, and the cycles on the stack.
  pub queued : ℕ
  pub depth : ℕ

abbrev pub created : Runner
created = record {
  interval = false;
  stopped = false;
  running = false;
  nudge_requested = false;
  scheduled = false;
  cycles = 0;
  queued = 0;
  depth = 0;
}

unfoldable pub schedule_immediate : Runner → Runner
schedule_immediate r =
    if r.scheduled then r else record r { scheduled = true; queued = suc r.queued }

-- The beginning of `cycle`.
unfoldable pub begin_cycle : Runner → Runner
begin_cycle r = record r { running = true; depth = suc r.depth }

-- The end of `cycle`, after the passes.
unfoldable pub end_cycle : Runner → Runner
unfolding schedule_immediate
end_cycle r =
    let ended : Runner = record r {
      running = false;
      depth = r.depth - 1;
      cycles = suc r.cycles;
      nudge_requested = false;
    } in
    if r.nudge_requested then schedule_immediate ended else ended

unfoldable pub start : Runner → Runner
start r = record r { stopped = false; interval = true }

unfoldable pub stop : Runner → Runner
stop r = record r { stopped = true; interval = false; nudge_requested = false }

unfoldable pub nudge : Runner → Runner
unfolding schedule_immediate
nudge r =
    if r.stopped
    then r
    else if r.running
    then record r { nudge_requested = true }
    else schedule_immediate r

-- The interval's callback.
unfoldable pub tick : Runner → Runner
unfolding begin_cycle
tick r = if r.running then r else begin_cycle r

-- The callback that `scheduleImmediate` queued.
unfoldable pub immediate : Runner → Runner
unfolding begin_cycle
immediate r =
    let taken : Runner = record r { scheduled = false; queued = r.queued - 1 } in
    if r.stopped
    then taken
    else if r.running
    then record taken { nudge_requested = true }
    else begin_cycle taken

-- What can happen next: a call, a timer, a queued callback, the end of the innermost cycle.
pub data Happens : Runner → Runner → Type 0 where
  starts : {r : Runner} → Happens r (start r)
  stops : {r : Runner} → Happens r (stop r)
  nudges : {r : Runner} → Happens r (nudge r)
  ticks : {r : Runner} → r.interval ≡ true → Happens r (tick r)
  runs_once : {r : Runner} → Happens r (begin_cycle r)
  drains : {r : Runner} → 0 < r.queued → Happens r (immediate r)
  ends : {r : Runner} → 0 < r.depth → Happens r (end_cycle r)

pub data Reachable : Runner → Type 0 where
  at_first : Reachable created
  next : {r s : Runner} → Reachable r → Happens r s → Reachable s

unfoldable pub IsSound : Runner → Type 0
IsSound r =
    (r.queued ≡ (if r.scheduled then 1 else 0))
    × (r.running ≡ true → 0 < r.depth)
    × (r.nudge_requested ≡ true → r.running ≡ true)

Happens-IsSound : {r s : Runner} → Happens r s → IsSound r → IsSound s
unfolding IsSound start stop nudge tick immediate begin_cycle end_cycle schedule_immediate
Happens-IsSound starts h = h
Happens-IsSound stops h = ground arith
Happens-IsSound nudges h = ground arith
Happens-IsSound (ticks on) h = ground arith
Happens-IsSound runs_once h = ground arith
Happens-IsSound (drains some) h = ground arith
Happens-IsSound (ends some) h = ground arith

Reachable-IsSound : {r : Runner} → Reachable r → IsSound r
unfolding IsSound
Reachable-IsSound at_first = ground arith
Reachable-IsSound (next before step) = Happens-IsSound step (Reachable-IsSound before)

-- A callback is queued, or a cycle is on the stack whose end queues one.
unfoldable pub IsOwed : Runner → Type 0
IsOwed r = (r.queued ≡ 1) ⊎ ((0 < r.depth) × (r.nudge_requested ≡ true))

-- What happens in which no cycle begins and the runner is not stopped.
pub data Waits : Runner → Runner → Type 0 where
  here : {r : Runner} → Waits r r
  waits :
      {r s t : Runner} → Waits r s → Happens s t → t.stopped ≡ false → t.depth ≤ s.depth → Waits r t

nudge-IsOwed : (r : Runner) → IsSound r → r.stopped ≡ false → IsOwed (nudge r)
unfolding IsOwed IsSound nudge schedule_immediate
nudge-IsOwed r h live = ground arith

-- Of the cases of `Happens`, only a queued callback can begin a cycle that is owed.
Happens-IsOwed :
    {r s : Runner}
    → Happens r s
    → IsSound r
    → r.stopped ≡ false
    → s.stopped ≡ false
    → s.depth ≤ r.depth
    → IsOwed r
    → IsOwed s
unfolding IsOwed IsSound start stop nudge tick immediate begin_cycle end_cycle schedule_immediate
Happens-IsOwed starts h live on same owed = owed
Happens-IsOwed stops h live on same owed = ground arith
Happens-IsOwed nudges h live on same owed = ground arith
Happens-IsOwed (ticks _) h live on same owed = ground arith
Happens-IsOwed runs_once h live on same owed = absurd (omega arith)
Happens-IsOwed (drains _) h live on same owed = ground arith
Happens-IsOwed (ends _) h live on same owed = ground arith

queued_once : (s : Runner) → IsSound s → s.queued ≤ 1
unfolding IsSound
queued_once s h = ground arith

Waits-IsOwed :
    {r s : Runner}
    → Waits r s
    → IsSound r
    → r.stopped ≡ false
    → IsOwed r
    → IsSound s × (s.stopped ≡ false) × IsOwed s
Waits-IsOwed here h live owed = (h, live, owed)
Waits-IsOwed (waits before step on same) h live owed =
    let (sound, running, due) = Waits-IsOwed before h live owed in
    (Happens-IsSound step sound, on, Happens-IsOwed step sound running on same due)

nudge-stopped : (r : Runner) → r.stopped ≡ false → (nudge r).stopped ≡ false
unfolding nudge schedule_immediate
nudge-stopped r live = ground arith

-- A nudge of a runner that is not stopped is never lost: until a cycle begins or the runner is
-- stopped, whatever is called, whatever timer fires and whatever cycle ends, either exactly one
-- callback that will begin a cycle is queued, or a cycle is under way whose end queues it. So nudges
-- coalesce: however many come, no second callback is queued.
pub nudge-Waits :
    (r s : Runner) → Reachable r → r.stopped ≡ false → Waits (nudge r) s → IsOwed s × (s.queued ≤ 1)
nudge-Waits r s reached live later =
    let nudged = Happens-IsSound nudges (Reachable-IsSound reached) in
    let (sound, running, due) =
      Waits-IsOwed later nudged (nudge-stopped r live)
        (nudge-IsOwed r (Reachable-IsSound reached) live) in
    (due, queued_once s sound)
