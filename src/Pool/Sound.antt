-- ===== src/Pool/Sound.antt =====
-- What holds in every state of a pool: include/servd/ThreadPool.hpp.
use servd.Base.{
  ℕ, suc, ◌≡◌, refl, sym, subst, inl, inr, Bool-cases, ◌∙◌, true, false, some, List, [], ◌∷◌, arith,
  get_elem?, set, length-append, length-set, get_elem?-set, get_elem?-lt, snoc-cases, set-cases,
  total-set,
}
use servd.Result.{Result}
use servd.Pool.{
  Job, new_job, resumed, waiting, running, exited, ThreadPool, thread_pool, enqueue, await_ready,
  await_suspend, task_ends,
}
use servd.Pool.Steps.{
  WorkerStep, takes, ends, exits, Step, works, enqueues, asks, suspends, resumes, stops, Reach,
  here, next,
}
use servd.Pool.Handshake.{
  IsJob, new_job-IsJob, await_ready-IsJob, await_suspend-IsJob, resumed-IsJob, task_ends-IsJob,
}
use servd.Pool.Places.{
  holds, gone, ids-snoc, ids-cons, task_ends_done, done_at, done_at-snoc, IsSound,
  thread_pool-IsSound,
}

module _ {A : Type 0} where
  module _ (outcome : ℕ → Result A) where
    module _ (p : ThreadPool A) (v : IsSound outcome p) where
      enqueue-IsSound : p.stop ≡ false → IsSound outcome (enqueue p)
      unfolding enqueue
      enqueue-IsSound open_still = record {
        taken = v.taken;
        left = suc v.left;
        enqueued = omega (arith, v.enqueued, length-append p.jobs (new_job ∷ []));
        queued = rw (v.queued, sym v.enqueued) (ids-snoc v.taken v.left);
        once = λ i. rw (done_at-snoc p.jobs i) (v.once i);
        sound_jobs = λ i j h. elim (snoc-cases p.jobs new_job i h) [
          | inl old ↦ v.sound_jobs i j old
          | inr e ↦ subst (IsJob (outcome i)) e (new_job-IsJob (outcome i))
        ];
        finished = λ h. absurd (cc (v.finished h).0);
      }

      -- A job that changes without being done the while.
      replace-IsSound :
          (i : ℕ) (j j' : Job A)
          → get_elem? p.jobs i ≡ some j
          → j'.shared.done ≡ j.shared.done
          → IsJob (outcome i) j'
          → IsSound outcome (record p { jobs = set p.jobs i j' })
      replace-IsSound i j j' at same sound = record {
        taken = v.taken;
        left = v.left;
        enqueued = v.enqueued ∙ sym (length-set p.jobs i j');
        queued = v.queued;
        once =
            λ k. ground (arith, v.once k, get_elem?-set p.jobs i k j' (get_elem?-lt p.jobs i at));
        sound_jobs = λ k y h. elim (set-cases p.jobs i j' k h) [
          | inl old ↦ v.sound_jobs k y old
          | inr (here', e) ↦
              subst (λ (n : ℕ). IsJob (outcome n) y) here' (subst (IsJob (outcome i)) e sound)
        ];
        finished = v.finished;
      }

      stop-IsSound : IsSound outcome (record p { stop = true })
      stop-IsSound = record {
        taken = v.taken;
        left = v.left;
        enqueued = v.enqueued;
        queued = v.queued;
        once = v.once;
        sound_jobs = v.sound_jobs;
        finished = λ h. (refl, (v.finished h).1);
      }

      takes-IsSound :
          (w i : ℕ) (rest : List ℕ)
          → get_elem? p.workers w ≡ some waiting
          → p.tasks ≡ i ∷ rest
          → IsSound outcome (record p { workers = set p.workers w (running i); tasks = rest })
      takes-IsSound w i rest free front =
          let (m, count, first, others) = ids-cons v.taken v.left (sym v.queued ∙ front) in
          record {
            taken = suc v.taken;
            left = m;
            enqueued = omega (arith, v.enqueued, count);
            queued = others;
            once = λ k.
                ground (
                  arith,
                  v.once k,
                  first,
                  total-set (holds k) p.workers w waiting (running i) free,
                );
            sound_jobs = v.sound_jobs;
            finished = λ h.
                let before =
                  v.finished (omega (arith, total-set gone p.workers w waiting (running i) free)) in
                absurd (cc (front, before.1));
          }

      -- A task that a worker runs is not done.
      running_todo :
          (w i : ℕ) (j : Job A)
          → get_elem? p.workers w ≡ some (running i)
          → get_elem? p.jobs i ≡ some j
          → j.shared.done ≡ false
      running_todo w i j busy at = elim (Bool-cases j.shared.done) [
        | inl yet ↦
            let counted : done_at p.jobs i ≡ 1 = rw (at, yet) in
            absurd (
              ground (
                arith,
                counted,
                v.once i,
                total-set (holds i) p.workers w (running i) waiting busy,
              ))
        | inr todo ↦ todo
      ]

      ends-IsSound :
          (w i : ℕ) (j : Job A)
          → get_elem? p.workers w ≡ some (running i)
          → get_elem? p.jobs i ≡ some j
          → IsSound outcome (record p {
            workers = set p.workers w waiting;
            jobs = set p.jobs i (task_ends (outcome i) j);
          })
      ends-IsSound w i j busy at =
          let todo = running_todo w i j busy at in
          let j' = task_ends (outcome i) j in
          let was : done_at p.jobs i ≡ 0 = rw (at, todo) in
          record {
            taken = v.taken;
            left = v.left;
            enqueued = v.enqueued ∙ sym (length-set p.jobs i j');
            queued = v.queued;
            once = λ k. ground (
              arith,
              v.once k,
              was,
              task_ends_done (outcome i) j,
              get_elem?-set p.jobs i k j' (get_elem?-lt p.jobs i at),
              total-set (holds k) p.workers w (running i) waiting busy,
            );
            sound_jobs = λ k y h. elim (set-cases p.jobs i j' k h) [
              | inl old ↦ v.sound_jobs k y old
              | inr (here', e) ↦
                  subst (λ (n : ℕ). IsJob (outcome n) y) here'
                    (subst (IsJob (outcome i)) e
                      (task_ends-IsJob (outcome i) j (v.sound_jobs i j at) todo))
            ];
            finished = λ h.
                v.finished (omega (arith, total-set gone p.workers w (running i) waiting busy));
          }

      exits-IsSound :
          (w : ℕ)
          → get_elem? p.workers w ≡ some waiting
          → p.stop ≡ true
          → p.tasks ≡ []
          → IsSound outcome (record p { workers = set p.workers w exited })
      exits-IsSound w free closed none_left = record {
        taken = v.taken;
        left = v.left;
        enqueued = v.enqueued;
        queued = v.queued;
        once = λ i. omega (arith, v.once i, total-set (holds i) p.workers w waiting exited free);
        sound_jobs = v.sound_jobs;
        finished = λ h. (closed, none_left);
      }

    pub WorkerStep-IsSound :
        {p q : ThreadPool A} → WorkerStep outcome p q → IsSound outcome p → IsSound outcome q
    WorkerStep-IsSound {p} (takes w i rest free front e) v =
        subst (IsSound outcome) (sym e) (takes-IsSound p v w i rest free front)
    WorkerStep-IsSound {p} (ends w i j busy at e) v =
        subst (IsSound outcome) (sym e) (ends-IsSound p v w i j busy at)
    WorkerStep-IsSound {p} (exits w free closed none_left e) v =
        subst (IsSound outcome) (sym e) (exits-IsSound p v w free closed none_left)

    Step-IsSound : {p q : ThreadPool A} → Step outcome p q → IsSound outcome p → IsSound outcome q
    unfolding await_ready await_suspend
    Step-IsSound (works st) v = WorkerStep-IsSound st v
    Step-IsSound {p} (enqueues open_still e) v =
        subst (IsSound outcome) (sym e) (enqueue-IsSound p v open_still)
    Step-IsSound {p} (asks i j at h e) v =
        let job = await_ready-IsJob (outcome i) j (v.sound_jobs i j at) h in
        subst (IsSound outcome) (sym e) (replace-IsSound p v i j (await_ready j) at refl job)
    Step-IsSound {p} (suspends i j at h e) v =
        let job = await_suspend-IsJob (outcome i) j (v.sound_jobs i j at) h in
        subst (IsSound outcome) (sym e) (replace-IsSound p v i j (await_suspend j) at refl job)
    Step-IsSound {p} (resumes i j at h posted e) v =
        let job = resumed-IsJob (outcome i) j (v.sound_jobs i j at) h posted in
        subst (IsSound outcome) (sym e)
          (replace-IsSound p v i j (record j { awaiter = resumed }) at refl job)
    Step-IsSound {p} (stops e) v = subst (IsSound outcome) (sym e) (stop-IsSound p v)

    run-IsSound : {p q : ThreadPool A} → IsSound outcome p → Reach outcome p q → IsSound outcome q
    run-IsSound v here = v
    run-IsSound v (next r st) = Step-IsSound st (run-IsSound v r)

    -- In every history of a pool, with its threads interleaved in any order: the tasks are taken in
    -- the order of enqueue, each by one worker, once; a worker leaves only when the pool is stopped
    -- and every task is taken; and a coroutine that awaits a task is posted once if it is suspended
    -- when the task is done, never otherwise, goes on only when the task is done, and then fetches
    -- what the task's function returned or threw.
    pub Reach-IsSound :
        (n : ℕ) {q : ThreadPool A} → Reach outcome (thread_pool n) q → IsSound outcome q
    Reach-IsSound n r = run-IsSound (thread_pool-IsSound outcome n) r
