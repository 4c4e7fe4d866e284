-- ===== src/Tests/Drivers.antt =====
-- A driver that reports everything at the next look.
use nvme_dpdk_pcapreplay.Prelude.{
  ℕ, zero, suc, ◌+◌, ◌≤◌, ◌≡◌, refl, ap, ◌∙◌, some, List, [], ◌∷◌, ◌++◌, arith, replicate,
}
use nvme_dpdk_pcapreplay.Driver.{
  Counter, task, waiting, Call, malloc, copy, submit, process, Command, Driver,
}
use nvme_dpdk_pcapreplay.Simpleio.Sync.{Works, count_waiting}
use nvme_dpdk_pcapreplay.Transfer.Tasks.{is_task, count_tasks, accepted, reported, Counted, Reports}
use nvme_dpdk_pcapreplay.Tests.Fixtures.{good_driver, start, two_disks}

-- How many tasks were handed over after the last look.
abbrev pub pending : List Call → ℕ
pending [] = 0
pending (malloc n ∷ h) = pending h
pending (copy n to from ∷ h) = pending h
pending (process q ∷ h) = 0
pending (submit c ∷ h) = is_task c.counter + pending h

abbrev pub is_waited : Counter → List Counter
is_waited task = []
is_waited waiting = waiting ∷ []

-- The command that a call waits for, if it was the last call.
abbrev pub awaited : List Call → List Counter
awaited [] = []
awaited (malloc n ∷ h) = []
awaited (copy n to from ∷ h) = []
awaited (process q ∷ h) = []
awaited (submit c ∷ h) = is_waited c.counter

abbrev pub report_next : List Call → List Counter
report_next [] = []
report_next (malloc n ∷ h) = []
report_next (copy n to from ∷ h) = []
report_next (submit c ∷ h) = []
report_next (process q ∷ h) = awaited h ++ replicate (pending h) task

-- Its memory is far above the payloads of the examples.
abbrev pub prompt_driver : Driver
prompt_driver = record good_driver { malloc_at = λ h. some 1000000000; callbacks = report_next }

count_tasks-replicate : (n : ℕ) → count_tasks (replicate n task) ≡ n
count_tasks-replicate zero = refl
count_tasks-replicate (suc n) = ap suc (count_tasks-replicate n)

count_waiting-replicate : (n : ℕ) → count_waiting (replicate n task) ≡ 0
count_waiting-replicate zero = refl
count_waiting-replicate (suc n) = count_waiting-replicate n

count_tasks-awaited : (c : Counter) (n : ℕ) → count_tasks (is_waited c ++ replicate n task) ≡ n
count_tasks-awaited task n = count_tasks-replicate n
count_tasks-awaited waiting n = count_tasks-replicate n

count_waiting-awaited : (c : Counter) (n : ℕ) → count_waiting (is_waited c ++ replicate n task) ≤ 1
count_waiting-awaited task n = omega (arith, count_waiting-replicate n)
count_waiting-awaited waiting n = omega (arith, count_waiting-replicate n)

reports_pending :
    (h : List Call) → count_tasks (awaited h ++ replicate (pending h) task) ≡ pending h
reports_pending [] = refl
reports_pending (malloc n ∷ h) = count_tasks-replicate (pending h)
reports_pending (copy n to from ∷ h) = count_tasks-replicate (pending h)
reports_pending (process q ∷ h) = refl
reports_pending (submit c ∷ h) = count_tasks-awaited c.counter (is_task c.counter + pending h)

few_waiting : (h : List Call) → count_waiting (report_next h) ≤ 1
few_waiting [] = omega arith
few_waiting (malloc n ∷ h) = omega arith
few_waiting (copy n to from ∷ h) = omega arith
few_waiting (submit c ∷ h) = omega arith
few_waiting (process q ∷ []) = omega arith
few_waiting (process q ∷ malloc n ∷ h) = omega (arith, count_waiting-replicate (pending h))
few_waiting (process q ∷ copy n to from ∷ h) = omega (arith, count_waiting-replicate (pending h))
few_waiting (process q ∷ process r ∷ h) = omega arith
few_waiting (process q ∷ submit c ∷ h) =
    count_waiting-awaited c.counter (is_task c.counter + pending h)

-- The command is reported by the first look.
reports_waiting :
    (c : Command) (h : List Call)
    → c.counter ≡ waiting
    → count_waiting (report_next (process c.qpair ∷ submit c ∷ h)) ≡ 1
reports_waiting c h waits =
    ap (λ k. count_waiting (is_waited k ++ replicate (is_task k + pending h) task)) waits
    ∙ ap suc (count_waiting-replicate (0 + pending h))

pub prompt_driver-Works : Works prompt_driver
prompt_driver-Works = record {
  sectors = λ ns. refl;
  memory = λ h. (1000000000, refl);
  accepts = λ h. refl;
  once = few_waiting;
  reported = λ c h waits. (0, omega arith, reports_waiting c h waits);
}

balance : (h : List Call) → reported prompt_driver h + pending h ≡ accepted prompt_driver h
unfolding reported accepted
balance [] = refl
balance (malloc n ∷ h) = balance h
balance (copy n to from ∷ h) = balance h
balance (process q ∷ h) = omega (arith, balance h, reports_pending h)
balance (submit c ∷ h) = omega (arith, balance h)

-- One look is enough, whatever is looked at after it.
pub settles :
    (q : ℕ) (h : List Call) → reported prompt_driver (process q ∷ h) ≡ accepted prompt_driver h
unfolding reported accepted
settles q h = omega (arith, balance h, reports_pending h)

pub prompt_driver-Reports : Reports prompt_driver two_disks
unfolding reported accepted
prompt_driver-Reports h = (1, omega arith, omega (arith, balance h, reports_pending h))

pub start-Counted : Counted prompt_driver start
unfolding reported accepted
start-Counted = record { scheduled = omega arith; completed = omega arith }
