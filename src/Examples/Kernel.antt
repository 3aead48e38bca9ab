-- ===== src/Examples/Kernel.antt =====
-- The kernel's handle table at concrete inputs.
use m1switch.Base.{
  ℕ, ◌≡◌, ◌≢◌, refl, zero, suc, ◌⊎◌, false, true, if◌then◌else◌, List, [], ◌∷◌, some, none, arith,
}
use m1switch.Kernel.{
  HandleTable, Registers, event, thread, interrupt_event, empty_table, create, get,
  svc_wait_synchronization, answer, timed_out, blocked, handle_signaled, auto_signaled,
}
use m1switch.Kernel.Fresh.{Svc, create_event, signal_event, close_handle, run, run-create_fresh}
use m1switch.Kernel.Wait.{FirstAt, Nowhere, svc_wait_synchronization-FirstAt}

abbrev regs : ℕ → Registers
regs n = record { x0 = n; x1 = 0; x2 = 0 }

-- Two events, the second signaled, the first closed.
abbrev calls : List (Svc × Registers)
calls =
    (create_event, regs 0)
    ∷ (create_event, regs 0)
    ∷ (signal_event, regs 0xD002)
    ∷ (close_handle, regs 0xD001)
    ∷ []

run-create_fresh_example :
    (get (create (event false) (run calls empty_table)).0 (run calls empty_table) ≡ none)
    × (get
          (create (event false) (run calls empty_table)).0
          (create (event false) (run calls empty_table)).1
        ≡ some (event false))
    × ((handle : ℕ)
        → handle ≢ (create (event false) (run calls empty_table)).0
        → get handle (create (event false) (run calls empty_table)).1
          ≡ get handle (run calls empty_table))
run-create_fresh_example = run-create_fresh calls (event false) (omega arith)

abbrev table : HandleTable
table = record {
  objects = (0xD001, event false) ∷ (0xD002, thread 2 true) ∷ (0xD003, interrupt_event true) ∷ [];
  next_index = 4;
}

wait_run :
    svc_wait_synchronization (0xD001 ∷ 0xD002 ∷ []) false (regs 5) table ≡ answer 0 1 (regs 5)
unfolding svc_wait_synchronization
wait_run = refl

-- An interrupt event does not override `IsSignaled`.
interrupt_run :
    svc_wait_synchronization (0xD003 ∷ []) true (regs 5) table ≡ answer timed_out 0 (regs 5)
unfolding svc_wait_synchronization
interrupt_run = refl

quiet : Nowhere auto_signaled (0xD001 ∷ 0xD002 ∷ [])
unfolding Nowhere auto_signaled
quiet zero h = refl
quiet (suc zero) h = refl
quiet (suc (suc n)) h = absurd (omega arith)

svc_wait_synchronization-FirstAt_example :
    ((j : ℕ) × FirstAt (handle_signaled table) (0xD001 ∷ 0xD002 ∷ []) j
      × (svc_wait_synchronization (0xD001 ∷ 0xD002 ∷ []) false (regs 5) table
          ≡ answer 0 j (regs 5)))
    ⊎ (Nowhere (handle_signaled table) (0xD001 ∷ 0xD002 ∷ [])
        × (svc_wait_synchronization (0xD001 ∷ 0xD002 ∷ []) false (regs 5) table
            ≡ (if false then answer timed_out 0 (regs 5) else blocked)))
svc_wait_synchronization-FirstAt_example =
    svc_wait_synchronization-FirstAt 0xD001 (0xD002 ∷ []) false (regs 5) table quiet
