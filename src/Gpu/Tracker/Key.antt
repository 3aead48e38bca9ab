-- ===== src/Gpu/Tracker/Key.antt =====
-- The pipeline key of the states that method writes reach: it is defined, and does not see the
-- render targets.
use m1switch.Base.{ℕ, suc, ◌≡◌, refl, sym, ap, ◌∙◌, List, [], ◌∷◌, map, some, arith, get_or}
use m1switch.Gpu.State.{GpuState3d, RtState, zero_blend_state}
use m1switch.Gpu.Engine.{reset, handle_method}
use m1switch.Gpu.Engine.Frame.{layout, handle_method-layout}
use m1switch.Gpu.Tracker.{
  rt_step, rt_key, depth_target_key, blend_key, depth_stencil_key, program_key,
  compute_pipeline_key,
}

-- No render target has a width.
abbrev pub AllIdle : List RtState → Type 0
AllIdle [] = Unit {0}
AllIdle (r ∷ rs) = (r.width ≡ 0) × AllIdle rs

rt_step-idle : (i : ℕ) (r : RtState) (key : ℕ) → r.width ≡ 0 → rt_step i r key ≡ some key
unfolding rt_step
rt_step-idle i r key e = ground arith

rt_key-idle : (i : ℕ) (rs : List RtState) (key : ℕ) → AllIdle rs → rt_key i rs key ≡ some key
unfolding rt_key
rt_key-idle i [] key a = refl
rt_key-idle i (r ∷ rs) key a = rw (rt_step-idle i r key a.0) (rt_key-idle (suc i) rs key a.1)

-- Where no render target has a width, the key is defined, and no render target enters it.
pub compute_pipeline_key-idle :
    (s : GpuState3d)
    → AllIdle s.rt
    → compute_pipeline_key s
      ≡ some (
          depth_stencil_key s.depth_stencil (
            blend_key
              (get_or s.blend 0 zero_blend_state)
              (depth_target_key s.depth_target (program_key s))))
unfolding compute_pipeline_key
compute_pipeline_key-idle s a = rw (rt_key-idle 0 s.rt (program_key s) a)

widths-layout : (rs qs : List RtState) → map layout rs ≡ map layout qs → AllIdle qs → AllIdle rs
widths-layout [] qs e a = tt
widths-layout (r ∷ rs) [] e a = cc
widths-layout (r ∷ rs) (q ∷ qs) e a =
    (ap (λ (x : ℕ × ℕ × ℕ × ℕ × ℕ × ℕ × ℕ). x.0) head ∙ a.0, widths-layout rs qs tails a.1)
  where
    head : layout r ≡ layout q
    head = cc

    tails : map layout rs ≡ map layout qs
    tails = cc

-- No method write gives a render target a width.
pub handle_method-AllIdle :
    (m v : ℕ) (s : GpuState3d) → AllIdle s.rt → AllIdle (handle_method m v s).0.rt
handle_method-AllIdle m v s a = widths-layout _ s.rt (handle_method-layout m v s) a

-- Method writes, one after the other.
unfoldable pub run_writes : List (ℕ × ℕ) → GpuState3d → GpuState3d
run_writes [] s = s
run_writes ((m, v) ∷ writes) s = run_writes writes (handle_method m v s).0

run_writes-AllIdle :
    (writes : List (ℕ × ℕ)) (s : GpuState3d) → AllIdle s.rt → AllIdle (run_writes writes s).rt
unfolding run_writes
run_writes-AllIdle [] s a = a
run_writes-AllIdle ((m, v) ∷ writes) s a =
    run_writes-AllIdle writes (handle_method m v s).0 (handle_method-AllIdle m v s a)

reset-AllIdle : AllIdle reset.rt
unfolding reset
reset-AllIdle = (refl, (refl, (refl, (refl, (refl, (refl, (refl, (refl, tt))))))))

-- The state without its render targets.
abbrev pub beside_targets : GpuState3d → GpuState3d
beside_targets s = record s { rt = [] }

compute_pipeline_key-beside :
    (s : GpuState3d)
    → AllIdle s.rt
    → compute_pipeline_key s ≡ compute_pipeline_key (beside_targets s)
unfolding program_key
compute_pipeline_key-beside s a =
    compute_pipeline_key-idle s a ∙ sym (compute_pipeline_key-idle (beside_targets s) tt)

-- After any two sequences of method writes from the state of Reset that leave the same state but for
-- the render targets, the pipeline key is defined and the same, whatever was written to the render
-- targets.
pub compute_pipeline_key-run_writes :
    (writes others : List (ℕ × ℕ))
    → beside_targets (run_writes writes reset) ≡ beside_targets (run_writes others reset)
    → (key : ℕ) × (compute_pipeline_key (run_writes writes reset) ≡ some key)
      × (compute_pipeline_key (run_writes others reset) ≡ some key)
compute_pipeline_key-run_writes writes others same =
    let here : AllIdle (run_writes writes reset).rt =
      run_writes-AllIdle writes reset reset-AllIdle in
    let there : AllIdle (run_writes others reset).rt =
      run_writes-AllIdle others reset reset-AllIdle in
    (
      _,
      compute_pipeline_key-idle (run_writes writes reset) here,
      compute_pipeline_key-beside (run_writes others reset) there
          ∙ ap compute_pipeline_key (sym same)
          ∙ sym (compute_pipeline_key-beside (run_writes writes reset) here)
          ∙ compute_pipeline_key-idle (run_writes writes reset) here,
    )
