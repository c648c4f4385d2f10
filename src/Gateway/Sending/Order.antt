-- ===== src/Gateway/Sending/Order.antt =====
-- In which order and with which gaps gateway/src/session.js sends.
use whatsapp_bots_saa_s.Base.{
  ℕ, suc, ◌+◌, ◌≤◌, ◌≡◌, refl, ap, List, [], ◌∷◌, map, arith, length, All,
}
use whatsapp_bots_saa_s.Gateway.Sending.{
  send_min_gap_ms, Job, SendLog, SendChain, run_job, after_job, drain, send_wait,
}

-- Each send starts at least the gap after the one before it had ended.
abbrev pub IsSpaced : ℕ → List SendLog → Type 0
IsSpaced before [] = Unit
IsSpaced before (entry ∷ entries) =
    (before + send_min_gap_ms ≤ entry.started)
    × (entry.started ≤ entry.finished)
    × IsSpaced entry.finished entries

run_job-gap :
    (chain : SendChain) (job : Job)
    → (chain.last_sent_at + send_min_gap_ms ≤ (run_job chain job).started)
      × ((run_job chain job).started ≤ (run_job chain job).finished)
unfolding run_job send_wait
run_job-gap chain job = ground arith

drain-IsSpaced :
    (chain : SendChain) (jobs : List Job) → IsSpaced chain.last_sent_at (drain chain jobs)
unfolding drain after_job
drain-IsSpaced chain [] = tt
drain-IsSpaced chain (job ∷ jobs) = (
  (run_job-gap chain job).0,
  (run_job-gap chain job).1,
  drain-IsSpaced (after_job (run_job chain job)) jobs,
)

drain-outcomes :
    (chain : SendChain) (jobs : List Job)
    → map (λ e. e.outcome) (drain chain jobs) ≡ map (λ j. j.outcome) jobs
unfolding drain run_job
drain-outcomes chain [] = refl
drain-outcomes chain (job ∷ jobs) =
    ap (λ r. job.outcome ∷ r) (drain-outcomes (after_job (run_job chain job)) jobs)

-- Every message that is enqueued is sent, in the order of the calls and also after one that failed,
-- and each starts at least a second after the one before it has ended.
pub drain_lem :
    (chain : SendChain) (jobs : List Job)
    → (map (λ e. e.outcome) (drain chain jobs) ≡ map (λ j. j.outcome) jobs)
      × IsSpaced chain.last_sent_at (drain chain jobs)
drain_lem chain jobs = (drain-outcomes chain jobs, drain-IsSpaced chain jobs)

-- The time that the jobs take at most.
abbrev pub total_time : List Job → ℕ
total_time [] = 0
total_time (job ∷ jobs) = job.lag + send_min_gap_ms + job.late + job.duration + total_time jobs

run_job-finished :
    (chain : SendChain) (job : Job) (base : ℕ)
    → chain.settled_at ≤ base
    → chain.last_sent_at ≤ base
    → job.enqueued ≤ base
    → (run_job chain job).finished ≤ base + job.lag + send_min_gap_ms + job.late + job.duration
unfolding run_job send_wait
run_job-finished chain job base h k l = ground arith

finished_mono :
    (a b : ℕ) (entries : List SendLog)
    → a ≤ b
    → All (λ e. e.finished ≤ a) entries
    → All (λ e. e.finished ≤ b) entries
finished_mono a b [] h k = tt
finished_mono a b (e ∷ entries) h (k, ks) = (omega arith, finished_mono a b entries h ks)

enqueued_mono :
    (a b : ℕ) (jobs : List Job)
    → a ≤ b
    → All (λ j. j.enqueued ≤ a) jobs
    → All (λ j. j.enqueued ≤ b) jobs
enqueued_mono a b [] h k = tt
enqueued_mono a b (j ∷ jobs) h (k, ks) = (omega arith, enqueued_mono a b jobs h ks)

-- Every message that is enqueued by the time `base`, at which the chain is free, has been sent after
-- the time that the sends themselves take, with a second for each and what the timers are late.
pub drain_settles :
    (chain : SendChain) (jobs : List Job) (base : ℕ)
    → chain.settled_at ≤ base
    → chain.last_sent_at ≤ base
    → All (λ j. j.enqueued ≤ base) jobs
    → (length (drain chain jobs) ≡ length jobs)
      × All (λ e. e.finished ≤ base + total_time jobs) (drain chain jobs)
unfolding drain after_job
drain_settles chain [] base h k l = (refl, tt)
drain_settles chain (job ∷ jobs) base h k (l, ls) =
    let f = run_job-finished chain job base h k l in
    let next = base + job.lag + send_min_gap_ms + job.late + job.duration in
    let r =
      drain_settles (after_job (run_job chain job)) jobs next f f
        (enqueued_mono base next jobs (omega arith) ls) in
    (
      ap suc r.0,
      (
        omega arith,
        finished_mono (next + total_time jobs) (base + total_time (job ∷ jobs))
            (drain (after_job (run_job chain job)) jobs) (omega arith) r.1,
      ),
    )
