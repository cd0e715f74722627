-- ===== src/Cpp/Starting/Lifetime.antt =====
-- The thread that a `thread` object stands for, and its data: mcfgthread/cxx11.hpp.
use mcfgthread.Base.{ℕ, ◌+◌, ◌≤◌, ◌<◌, ◌≡◌, ◌≢◌, ◌⊎◌, inl, inr, refl, Bool, true, false, arith}
use mcfgthread.Cpp.Starting.{
  Status, zero_status, constructed, cancelled, Creator, constructing, completing, cancelling,
  dropping, thrown, joinable, joining, waited, finished, Worker, waiting, woken, invoking, returned,
  exited, World, start, Step, construct, throw, complete, cancel, drop, detach, join, join_wait,
  join_drop, await, leave, invoke, destroy, exit, Reach, begin, next,
}

-- The references that each of the two threads holds.
abbrev pub held_by_creator : Creator → ℕ
held_by_creator thrown = 0
held_by_creator finished = 0
held_by_creator _ = 1

abbrev pub held_by_worker : Worker → ℕ
held_by_worker exited = 0
held_by_worker _ = 1

-- The status that the creator has set.
abbrev status_set : Creator → Status
status_set constructing = zero_status
status_set completing = zero_status
status_set cancelling = zero_status
status_set dropping = cancelled
status_set thrown = cancelled
status_set joinable = constructed
status_set joining = constructed
status_set waited = constructed
status_set finished = constructed

-- What the new thread has done, for each status.
abbrev Consistent : Worker → Status → Bool → ℕ → Type 0
Consistent waiting zero_status tuple runs = runs ≡ 0
Consistent waiting constructed tuple runs = (tuple ≡ true) × (runs ≡ 0)
Consistent waiting cancelled tuple runs = (tuple ≡ false) × (runs ≡ 0)
Consistent (woken constructed) constructed tuple runs = (tuple ≡ true) × (runs ≡ 0)
Consistent (woken cancelled) cancelled tuple runs = (tuple ≡ false) × (runs ≡ 0)
Consistent invoking constructed tuple runs = (tuple ≡ true) × (runs ≡ 1)
Consistent returned constructed tuple runs = (tuple ≡ false) × (runs ≡ 1)
Consistent returned cancelled tuple runs = (tuple ≡ false) × (runs ≡ 0)
Consistent exited constructed tuple runs = (tuple ≡ false) × (runs ≡ 1)
Consistent exited cancelled tuple runs = (tuple ≡ false) × (runs ≡ 0)
Consistent _ _ tuple runs = ⊥

-- Whether the tuple is constructed before the event is set.
abbrev Built : Creator → Bool → Type 0
Built constructing tuple = tuple ≡ false
Built completing tuple = tuple ≡ true
Built cancelling tuple = tuple ≡ false
Built _ tuple = Unit

record IsWorld (w : World) : Type 0 where
  counted : w.nref ≡ held_by_creator w.creator + held_by_worker w.worker
  status_is : w.status ≡ status_set w.creator
  consistent : Consistent w.worker w.status w.tuple w.runs
  built : Built w.creator w.tuple
  joined : (w.creator ≢ waited) ⊎ (w.worker ≡ exited)

Step-IsWorld : {w w1 : World} → Step w w1 → IsWorld w → IsWorld w1
Step-IsWorld (construct w c) is = ground arith
Step-IsWorld (throw w c) is = ground arith
Step-IsWorld (complete w c) is = ground arith
Step-IsWorld (cancel w c) is = ground arith
Step-IsWorld (drop w c) is = ground arith
Step-IsWorld (detach w c) is = ground arith
Step-IsWorld (join w c) is = ground arith
Step-IsWorld (join_wait w c e) is = ground arith
Step-IsWorld (join_drop w c) is = ground arith
Step-IsWorld (await w c d) is = ground arith
Step-IsWorld (leave w c) is = ground arith
Step-IsWorld (invoke w c) is = ground arith
Step-IsWorld (destroy w c) is = ground arith
Step-IsWorld (exit w c) is = ground arith

start-IsWorld : IsWorld start
start-IsWorld = record {
  counted = refl;
  status_is = refl;
  consistent = refl;
  built = refl;
  joined = ground arith;
}

Reach-IsWorld : {w : World} → Reach w → IsWorld w
Reach-IsWorld begin = start-IsWorld
Reach-IsWorld (next r s) = Step-IsWorld s (Reach-IsWorld r)

-- The two threads are done with the thread.
abbrev pub IsOver : World → Type 0
IsOver w = ((w.creator ≡ thrown) ⊎ (w.creator ≡ finished)) × (w.worker ≡ exited)

at_most_once : {w : World} → IsWorld w → w.runs ≤ 1
at_most_once is = ground arith

never_after_throw :
    {w : World}
    → IsWorld w
    → (w.creator ≡ cancelling) ⊎ ((w.creator ≡ dropping) ⊎ (w.creator ≡ thrown))
    → w.runs ≡ 0
never_after_throw is h = ground arith

when_over :
    {w : World}
    → IsWorld w
    → IsOver w
    → (w.nref ≡ 0)
      × (w.tuple ≡ false)
      × (((w.creator ≡ finished) × (w.runs ≡ 1)) ⊎ ((w.creator ≡ thrown) × (w.runs ≡ 0)))
when_over is over = (ground arith, ground arith, ground arith)

-- A step of the creator, and one of the new thread.
abbrev pub CreatorSteps : World → Type 0
CreatorSteps w = (w1 : World) × Step w w1 × (w1.creator ≢ w.creator)

abbrev pub WorkerSteps : World → Type 0
WorkerSteps w = (w1 : World) × Step w w1 × (w1.worker ≢ w.worker)

abbrev IsDone : Creator → Type 0
IsDone c = (c ≡ thrown) ⊎ (c ≡ finished)

exited_or_not : (k : Worker) → (k ≡ exited) ⊎ (k ≢ exited)
exited_or_not waiting = inr (λ z. ground arith)
exited_or_not (woken status) = inr (λ z. ground arith)
exited_or_not invoking = inr (λ z. ground arith)
exited_or_not returned = inr (λ z. ground arith)
exited_or_not exited = inl refl

creator_next :
    (w : World) (c : Creator)
    → w.creator ≡ c
    → IsDone c ⊎ ((c ≡ joining) × (w.worker ≢ exited)) ⊎ CreatorSteps w
creator_next w constructing e = inr (inr (_, construct w e, λ z. ground arith))
creator_next w completing e = inr (inr (_, complete w e, λ z. ground arith))
creator_next w cancelling e = inr (inr (_, cancel w e, λ z. ground arith))
creator_next w dropping e = inr (inr (_, drop w e, λ z. ground arith))
creator_next w thrown e = inl (inl refl)
creator_next w joinable e = inr (inr (_, join w e, λ z. ground arith))
creator_next w joining e = elim (exited_or_not w.worker) [
  | inl ended ↦ inr (inr (_, join_wait w e ended, λ z. ground arith))
  | inr runs_on ↦ inr (inl (refl, runs_on))
]
creator_next w waited e = inr (inr (_, join_drop w e, λ z. ground arith))
creator_next w finished e = inl (inr refl)

worker_next :
    (w : World) (k : Worker)
    → IsWorld w
    → w.status ≢ zero_status
    → w.worker ≡ k
    → (k ≡ exited) ⊎ WorkerSteps w
worker_next w waiting is set e = inr (_, await w e set, λ z. ground arith)
worker_next w (woken zero_status) is set e = absurd (ground arith)
worker_next w (woken constructed) is set e = inr (_, invoke w e, λ z. ground arith)
worker_next w (woken cancelled) is set e = inr (_, leave w e, λ z. ground arith)
worker_next w invoking is set e = inr (_, destroy w e, λ z. ground arith)
worker_next w returned is set e = inr (_, exit w e, λ z. ground arith)
worker_next w exited is set e = inl refl

-- Whatever the order of the steps: the procedure is called at most once, with arguments that have
-- been constructed, and not at all after the construction has thrown; the new thread sees no other
-- status than the two that end its wait; the reference count is that of the threads that still use the
-- thread; and when both are done, the arguments have been destroyed, and the procedure has been called
-- unless the construction has thrown.
pub thread_lifetime :
    {w : World}
    → Reach w
    → (w.runs ≤ 1)
      × (w.worker ≡ invoking → w.tuple ≡ true)
      × ((w.creator ≡ cancelling) ⊎ ((w.creator ≡ dropping) ⊎ (w.creator ≡ thrown)) → w.runs ≡ 0)
      × (w.worker ≢ woken zero_status)
      × (w.nref ≡ held_by_creator w.creator + held_by_worker w.worker)
      × (IsOver w
          → (w.nref ≡ 0)
            × (w.tuple ≡ false)
            × (((w.creator ≡ finished) × (w.runs ≡ 1)) ⊎ ((w.creator ≡ thrown) × (w.runs ≡ 0))))
thread_lifetime r =
    let is = Reach-IsWorld r in
    (
      at_most_once is,
      λ h. ground arith,
      never_after_throw is,
      λ h. ground arith,
      is.counted,
      when_over is,
    )

-- How many steps each of the two threads has left, at most.
abbrev pub creator_left : Creator → ℕ
creator_left constructing = 5
creator_left completing = 4
creator_left cancelling = 2
creator_left dropping = 1
creator_left thrown = 0
creator_left joinable = 3
creator_left joining = 2
creator_left waited = 1
creator_left finished = 0

abbrev pub worker_left : Worker → ℕ
worker_left waiting = 4
worker_left (woken status) = 3
worker_left invoking = 2
worker_left returned = 1
worker_left exited = 0

abbrev pub steps_left : World → ℕ
steps_left w = creator_left w.creator + worker_left w.worker

Step-fewer : {w w1 : World} → Step w w1 → steps_left w1 < steps_left w
Step-fewer (construct w c) = ground arith
Step-fewer (throw w c) = ground arith
Step-fewer (complete w c) = ground arith
Step-fewer (cancel w c) = ground arith
Step-fewer (drop w c) = ground arith
Step-fewer (detach w c) = ground arith
Step-fewer (join w c) = ground arith
Step-fewer (join_wait w c e) = ground arith
Step-fewer (join_drop w c) = ground arith
Step-fewer (await w c d) = ground arith
Step-fewer (leave w c) = ground arith
Step-fewer (invoke w c) = ground arith
Step-fewer (destroy w c) = ground arith
Step-fewer (exit w c) = ground arith

-- Neither thread waits for the other in vain: until the status is set, the creator can go on; from then
-- on, the new thread can go on until it has exited; and then the creator can go on until it is done with
-- the thread, too. A creator that is in `join` comes out of the wait then, and before that, the new
-- thread can go on. Every step leaves fewer steps to do, of which there are nine at most.
pub thread_progress :
    {w : World}
    → Reach w
    → (w.status ≡ zero_status → CreatorSteps w)
      × (w.status ≢ zero_status → (w.worker ≡ exited) ⊎ WorkerSteps w)
      × (w.worker ≡ exited → IsOver w ⊎ CreatorSteps w)
      × (w.creator ≡ joining
          → ((w1 : World) × Step w w1 × (w1.creator ≡ waited))
            ⊎ ((w.worker ≢ exited) × WorkerSteps w))
      × ((w1 : World) → Step w w1 → steps_left w1 < steps_left w)
      × (steps_left w ≤ 9)
thread_progress {w} r =
    let is = Reach-IsWorld r in
    (
      λ unset. elim (creator_next w w.creator refl) [
        | inr (inr step) ↦ step
        | inr (inl (at_wait, runs_on)) ↦ absurd (ground arith)
        | inl done ↦ absurd (ground arith)
      ],
      λ set. worker_next w w.worker is set refl,
      λ ended. elim (creator_next w w.creator refl) [
        | inr (inr step) ↦ inr step
        | inr (inl (at_wait, runs_on)) ↦ absurd (runs_on ended)
        | inl done ↦ inl (done, ended)
      ],
      λ at_wait. elim (exited_or_not w.worker) [
        | inl ended ↦ inl (_, join_wait w at_wait ended, refl)
        | inr runs_on ↦ elim (worker_next w w.worker is (ground arith) refl) [
          | inl ended ↦ absurd (runs_on ended)
          | inr step ↦ inr (runs_on, step)
        ]
      ],
      λ w1 step. Step-fewer step,
      Reach-few r,
    )
  where
    Reach-few : {w : World} → Reach w → steps_left w ≤ 9
    Reach-few begin = omega arith
    Reach-few (next r step) = omega (arith, Reach-few r, Step-fewer step)
