-- ===== src/Driver.antt =====
-- SPDK, which the program calls and does not contain: a driver answers each call by what has been
-- called before, so its answers are functions of the calls so far, the newest first.
use nvme_dpdk_pcapreplay.Prelude.{
  ℕ, ◌-◌, ◌^◌, ◌≡◌, Option, List, ◌∷◌, Outcome, done, exits, hangs, overruns,
}
use nvme_dpdk_pcapreplay.Layout.{MetaSector}

-- Which counter a command's callback increments: `task_completed`, or the `completed` of the
-- synchronous call that is waiting.
pub data Counter : Type 0 where
  task waiting : Counter

-- What a command moves: the memory at an address, or memory that holds a metadata sector or bytes.
pub data Payload : Type 0 where
  address : ℕ → Payload
  sector : MetaSector → Payload
  bytes : List ℕ → Payload

pub data Direction : Type 0 where
  reads writes : Direction

-- The arguments of spdk_nvme_ns_cmd_read and spdk_nvme_ns_cmd_write.
pub record Command : Type 0 where
  pub direction : Direction
  pub ns : ℕ
  pub qpair : ℕ
  pub payload : Payload
  pub lba : ℕ
  pub lba_count : ℕ
  pub counter : Counter

-- spdk_malloc, the two commands, spdk_nvme_qpair_process_completions, and the copies that the
-- program makes in between, of so many bytes to an address from another.
pub data Call : Type 0 where
  malloc : ℕ → Call
  copy : ℕ → ℕ → ℕ → Call
  submit : Command → Call
  process : ℕ → Call

-- An `int` that the driver returns is its 32-bit pattern. `patience` is how many times the model
-- follows a loop that polls the driver.
pub record Driver : Type 0 where
  pub sector_size : ℕ → ℕ
  pub malloc_at : List Call → Option ℕ
  pub submit_rc : List Call → ℕ
  pub callbacks : List Call → List Counter
  pub read_sector : List Call → MetaSector
  pub patience : ℕ

-- The calls so far, and the two counters of src/simpleio.c.
pub record Sio : Type 0 where
  pub history : List Call
  pub task_completed : ℕ
  pub task_scheduled : ℕ

-- Code that calls the driver.
abbrev pub Io : Type 0 → Type 0
Io A = Sio → Outcome (A × Sio)

infixl 5 ◌>>=◌ ◌>>◌
abbrev pub ◌>>=◌ : {A B : Type 0} → Io A → (A → Io B) → Io B
◌>>=◌ m f s = elim (m s) [
  | done (a, s') ↦ f a s'
  | exits c ↦ exits c
  | hangs ↦ hangs
  | overruns ↦ overruns
]

abbrev pub ◌>>◌ : {A B : Type 0} → Io A → Io B → Io B
m >> k = m >>= λ _. k

abbrev pub return : {A : Type 0} → A → Io A
return a s = done (a, s)

-- `exit (-1)`, whose status is 255.
abbrev pub exit_failure : {A : Type 0} → Io A
exit_failure s = exits 255

-- `-1` as an `int`.
abbrev pub minus_one : ℕ
minus_one = 2 ^ 32 - 1

abbrev pub add_call : Call → Sio → Sio
add_call c s = record s { history = c ∷ s.history }

-- A first step that returns hands its result and state to the rest.
pub bind-done :
    {A B : Type 0} (m : Io A) (f : A → Io B) (s : Sio) {a : A} {s' : Sio}
    → m s ≡ done (a, s')
    → (m >>= f) s ≡ f a s'
bind-done m f s e = rw (e, ◌>>=◌)
