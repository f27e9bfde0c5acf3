-- ===== src/Tasks/Laws.antt =====
-- What holds of the task registry of app/tasks.py over any row of steps.
use pve_zfs_tool.Common.{
  ℕ, String, ◌≡◌, refl, Bool, true, false, not, ◌&&◌, Option, none, some, List, [], ◌∷◌, ◌++◌,
  arith, leb, ◌==◌, string_eq, eq_iff, length-drop, all, Option-cases, ◌-◌, length, inl, inr,
}
use pve_zfs_tool.Common.Dict.{Dict, get, put, get-put}
use pve_zfs_tool.Common.Scan.{starts_with}
use pve_zfs_tool.Tasks.{
  Entry, Task, is_running, capped, gc_tasks, new_task, register, update, report, succeed, fail,
  running_tasks, Step, expires, registers, reports, succeeds, fails, step, steps,
}

length-capped : (log : List Entry) → leb (length (capped log)) 500 ≡ true
length-capped log = ground (arith, length-drop (length log - 500) log)

abbrev pub is_open : Option ℕ → Bool
is_open none = true
is_open (some _) = false

abbrev same : Bool → Bool → Bool
same true b = b
same false b = not b

module _ {R : Type 0} where
  -- a record with a bounded log that has no end exactly while it runs
  abbrev pub is_kept : String × Task R → Bool
  is_kept (tid, r) = leb (length r.log) 500 && same (is_running r.status) (is_open r.finished_at)

  all-put :
      (tid : String) (r : Task R) (tasks : Dict String (Task R))
      → is_kept (tid, r) ≡ true
      → all is_kept tasks ≡ true
      → all is_kept (put tid r tasks) ≡ true
  unfolding put
  all-put tid r [] h k = ground arith
  all-put tid r ((j, q) ∷ tasks) h k = ground (arith, all-put tid r tasks)

  all-get :
      (tid : String) (r : Task R) (tasks : Dict String (Task R))
      → get tid tasks ≡ some r
      → all is_kept tasks ≡ true
      → is_kept (tid, r) ≡ true
  unfolding get
  all-get tid r [] h k = cc
  all-get tid r ((j, q) ∷ tasks) h k = ground (arith, all-get tid r tasks)

  all-gc_tasks :
      (now : ℕ) (tasks : Dict String (Task R))
      → all is_kept tasks ≡ true
      → all is_kept (gc_tasks now tasks) ≡ true
  unfolding gc_tasks
  all-gc_tasks now [] h = refl
  all-gc_tasks now ((j, q) ∷ tasks) h = ground (arith, all-gc_tasks now tasks)

  all-update :
      (tid : String) (f : Task R → Task R) (tasks : Dict String (Task R))
      → ((r : Task R) → is_kept (tid, r) ≡ true → is_kept (tid, f r) ≡ true)
      → all is_kept tasks ≡ true
      → all is_kept (update tid f tasks) ≡ true
  unfolding update
  all-update tid f tasks keeps h = elim (Option-cases (get tid tasks)) [
    | inl missing ↦ ground arith
    | inr (r, found) ↦
        ground (arith, all-put tid (f r) tasks (keeps r (all-get tid r tasks found h)) h)
  ]

  report-is_kept :
      (tid msg : String) (now : ℕ) (r : Task R)
      → is_kept (tid, r) ≡ true
      → is_kept (tid, report msg now r) ≡ true
  report-is_kept tid msg now r h =
      ground (arith, length-capped (r.log ++ record { t = now; msg = msg } ∷ []))

  all-step :
      (s : Step R) (tasks : Dict String (Task R))
      → all is_kept tasks ≡ true
      → all is_kept (step s tasks) ≡ true
  unfolding step register
  all-step (expires now) tasks h = all-gc_tasks now tasks h
  all-step (registers tid name now) tasks h = all-put tid (new_task name now) tasks refl h
  all-step (reports tid msg now) tasks h =
      all-update tid (report msg now) tasks (report-is_kept tid msg now) h
  all-step (succeeds tid result now) tasks h =
      all-update tid (succeed result now) tasks (λ r k. ground arith) h
  all-step (fails tid error now) tasks h =
      all-update tid (fail error now) tasks (λ r k. ground arith) h

  -- Over any interleaving of the two halves of starts, of reports and of ends, each record of the
  -- registry has a log of at most 500 entries and a time of its end exactly if it does not run.
  pub steps-kept :
      (ss : List (Step R)) (tasks : Dict String (Task R))
      → all is_kept tasks ≡ true
      → all is_kept (steps ss tasks) ≡ true
  unfolding steps
  steps-kept [] tasks h = h
  steps-kept (s ∷ ss) tasks h = steps-kept ss (step s tasks) (all-step s tasks h)

  abbrev pub runs_as : String → Task R → Bool
  runs_as name r = is_running r.status && is_open r.finished_at && (r.name == name)

  -- whether a task is there, runs, and has the name
  abbrev pub runs : String → String → Dict String (Task R) → Bool
  runs k name tasks = elim (get k tasks) [ none ↦ false | some r ↦ runs_as name r ]

  -- a step that neither ends the task nor reuses its id
  abbrev pub spares : String → Step R → Bool
  spares k (expires now) = true
  spares k (registers tid name now) = not (tid == k)
  spares k (reports tid msg now) = true
  spares k (succeeds tid result now) = not (tid == k)
  spares k (fails tid error now) = not (tid == k)

  runs-gc_tasks :
      (k name : String) (now : ℕ) (tasks : Dict String (Task R))
      → runs k name tasks ≡ true
      → runs k name (gc_tasks now tasks) ≡ true
  unfolding gc_tasks get
  runs-gc_tasks k name now [] h = h
  runs-gc_tasks k name now ((j, r) ∷ tasks) h = ground (arith, runs-gc_tasks k name now tasks)

  -- a write that keeps a task running, or that goes to another task
  runs-update :
      (k name tid : String) (f : Task R → Task R) (tasks : Dict String (Task R))
      → ((r : Task R) → (tid == k) ≡ true → runs_as name r ≡ runs_as name (f r))
      → runs k name tasks ≡ true
      → runs k name (update tid f tasks) ≡ true
  unfolding update
  runs-update k name tid f tasks keeps h = elim (Option-cases (get tid tasks)) [
    | inl missing ↦ ground arith
    | inr (r, found) ↦ ground (arith, get-put k tid (f r) tasks, eq_iff tid k, keeps r)
  ]

  runs-step :
      (k name : String) (s : Step R) (tasks : Dict String (Task R))
      → spares k s ≡ true
      → runs k name tasks ≡ true
      → runs k name (step s tasks) ≡ true
  unfolding step register
  runs-step k name (expires now) tasks f h = runs-gc_tasks k name now tasks h
  runs-step k name (registers tid other now) tasks f h =
      ground (arith, get-put k tid (new_task other now) tasks)
  runs-step k name (reports tid msg now) tasks f h =
      runs-update k name tid (report msg now) tasks (λ r e. refl) h
  runs-step k name (succeeds tid result now) tasks f h =
      runs-update k name tid (succeed result now) tasks (λ r e. ground arith) h
  runs-step k name (fails tid error now) tasks f h =
      runs-update k name tid (fail error now) tasks (λ r e. ground arith) h

  runs-steps :
      (k name : String) (ss : List (Step R)) (tasks : Dict String (Task R))
      → all (spares k) ss ≡ true
      → runs k name tasks ≡ true
      → runs k name (steps ss tasks) ≡ true
  unfolding steps
  runs-steps k name [] tasks f h = h
  runs-steps k name (s ∷ ss) tasks f h =
      runs-steps k name ss (step s tasks) (ground arith) (runs-step k name s tasks (ground arith) h)

  runs-running_tasks :
      (k name name_prefix : String) (tasks : Dict String (Task R))
      → starts_with name_prefix name ≡ true
      → runs k name tasks ≡ true
      → runs k name (running_tasks name_prefix tasks) ≡ true
  unfolding running_tasks get
  runs-running_tasks k name name_prefix [] p h = h
  runs-running_tasks k name name_prefix ((j, r) ∷ tasks) p h =
      ground (arith, runs-running_tasks k name name_prefix tasks, eq_iff r.name name)

  runs-register :
      (k name : String) (now : ℕ) (tasks : Dict String (Task R))
      → runs k name (register k name now tasks) ≡ true
  unfolding register
  runs-register k name now tasks =
      ground (arith, get-put k k (new_task name now) tasks, eq_iff k k, eq_iff name name)

  -- A task that was registered is listed as running under each prefix of its name after any steps
  -- of the threads, expiry included, until a step ends it or reuses its id.
  pub registered-listed :
      (k name name_prefix : String) (now : ℕ) (ss : List (Step R)) (tasks : Dict String (Task R))
      → starts_with name_prefix name ≡ true
      → all (spares k) ss ≡ true
      → runs k name (running_tasks name_prefix (steps ss (register k name now tasks))) ≡ true
  registered-listed k name name_prefix now ss tasks p f =
      runs-running_tasks k name name_prefix (steps ss (register k name now tasks)) p
        (runs-steps k name ss (register k name now tasks) f (runs-register k name now tasks))
