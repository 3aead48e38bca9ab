-- ===== src/Gpu/Tracker/Queue.antt =====
-- The draw queue: pushbuffers never fail, and each draw method enqueues one draw.
use m1switch.Base.{
  ◌>>=◌, ℕ, ◌+◌, ◌≤◌, ◌≡◌, refl, subst, ◌∙◌, Bool, true, false, List, [], ◌∷◌, ◌++◌, Option, none,
  some, arith, length, length-append, ◌⊎◌, inl, inr, Bool-cases, Option-cases, view-if, leb, ◌/◌,
  ◌==◌, ◌||◌, ◌&&◌, if◌then◌else◌,
}
use m1switch.Gpu.State.{GpuState3d}
use m1switch.Gpu.Engine.{
  Target, viewport, scissor, register, handle_render_target, handle_viewport, handle_scissor,
  handle_vertex_array, handle_vertex_attrib, handle_blend, handle_method, write_target, route,
  triggers_draw,
}
use m1switch.Gpu.Engine.Registers.{
  handle_shader, Register, draw_arrays_count, draw_elements_count, write_register,
}
use m1switch.Gpu.Engine.Routing.{draws_iff}
use m1switch.Gpu.Fifo.{EngineType, engine_3d, engine_2d, get_engine, Call, process}
use m1switch.Gpu.Fifo.Progress.{process_total}
use m1switch.Gpu.Tracker.{
  PendingDraw, Tracker, init, snapshot, clear_counts, enqueue, on_engine, on_method, run_calls,
  push_buffer,
}
use m1switch.Gpu.Tracker.Key.{AllIdle, compute_pipeline_key-idle, handle_method-AllIdle}

-- A queued draw is an array draw or an element draw, never both.
abbrev pub IsSingle : PendingDraw → Type 0
IsSingle d = ((d.arrays_count ≡ 0) ⊎ (d.elements_count ≡ 0)) × (d.index_count ≡ d.elements_count)

abbrev pub AllSingle : List PendingDraw → Type 0
AllSingle [] = Unit {0}
AllSingle (d ∷ ds) = IsSingle d × AllSingle ds

-- Between methods no render target has a width, and no count is left over from a draw.
pub record IsValid (t : Tracker) : Type 0 where
  pub idle : AllIdle t.state.rt
  pub no_arrays : t.state.draw_arrays_count ≡ 0
  pub no_elements : t.state.draw_elements_count ≡ 0
  pub single : AllSingle t.draw_queue

abbrev is_3d : EngineType → Bool
is_3d engine_3d = true
is_3d e = false

-- The method writes that enqueue a draw: a count register of the 3D engine.
abbrev pub is_draw_call : List EngineType → Call → Bool
is_draw_call engines c =
    is_3d (get_engine engines c.subch) && (c.method == 0x35E || c.method == 0x5F8)

abbrev pub count_draws : List EngineType → List Call → ℕ
count_draws engines [] = 0
count_draws engines (c ∷ cs) = (if is_draw_call engines c then 1 else 0) + count_draws engines cs

AllSingle-append :
    (ds : List PendingDraw) (d : PendingDraw) → AllSingle ds → IsSingle d → AllSingle (ds ++ d ∷ [])
AllSingle-append [] d a h = (h, tt)
AllSingle-append (x ∷ ds) d a h = (a.0, AllSingle-append ds d a.1 h)

-- The counts that a target leaves behind, given what they were.
record Counts (is_draw : Bool) (before after : GpuState3d) : Type 0 where
  kept :
      is_draw ≡ false
      → (after.draw_arrays_count ≡ before.draw_arrays_count)
        × (after.draw_elements_count ≡ before.draw_elements_count)
  one :
      (after.draw_arrays_count ≡ before.draw_arrays_count)
      ⊎ (after.draw_elements_count ≡ before.draw_elements_count)

write_register-Counts :
    (r : Register) (v : ℕ) (s : GpuState3d)
    → Counts (triggers_draw (register r)) s (write_register r v s)
unfolding write_register triggers_draw
write_register-Counts draw_arrays_count v s = record { kept = λ e. cc; one = inr refl }
write_register-Counts draw_elements_count v s = record { kept = λ e. cc; one = inl refl }
write_register-Counts r v s = record { kept = λ e. (refl, refl); one = inl refl }

write_target-Counts :
    (t : Target) (v : ℕ) (s : GpuState3d) → Counts (triggers_draw t) s (write_target t v s)
unfolding write_target handle_render_target handle_viewport handle_scissor handle_vertex_array
    handle_vertex_attrib handle_blend handle_shader triggers_draw
write_target-Counts (viewport i) v s = record {
  kept = λ e. (
    view-if (λ (q : GpuState3d). q.draw_arrays_count) (leb 16 (i / 8)) s _ _ refl refl,
    view-if (λ (q : GpuState3d). q.draw_elements_count) (leb 16 (i / 8)) s _ _ refl refl,
  );
  one = inl (view-if (λ (q : GpuState3d). q.draw_arrays_count) (leb 16 (i / 8)) s _ _ refl refl);
}
write_target-Counts (scissor i) v s = record {
  kept = λ e. (
    view-if (λ (q : GpuState3d). q.draw_arrays_count) (i / 16 == 0) _ s _ refl refl,
    view-if (λ (q : GpuState3d). q.draw_elements_count) (i / 16 == 0) _ s _ refl refl,
  );
  one = inl (view-if (λ (q : GpuState3d). q.draw_arrays_count) (i / 16 == 0) _ s _ refl refl);
}
write_target-Counts (register r) v s = write_register-Counts r v s
write_target-Counts t v s = record { kept = λ e. (refl, refl); one = inl refl }

-- What one method write does to a valid tracker.
abbrev Next : Tracker → ℕ → Option Tracker → Type 0
Next t n none = ⊥
Next t n (some t') =
    IsValid t' × (t'.engines ≡ t.engines) × (length t'.draw_queue ≡ length t.draw_queue + n)

handle_method-Counts :
    (m v : ℕ) (s : GpuState3d) → Counts (handle_method m v s).1 s (handle_method m v s).0
unfolding handle_method
handle_method-Counts m v s = write_target-Counts (route m) v s

snapshot-IsSingle :
    (m v key : ℕ) (t : Tracker) → IsValid t → IsSingle (snapshot (handle_method m v t.state).0 key)
unfolding snapshot
snapshot-IsSingle m v key t ok = elim (handle_method-Counts m v t.state).one [
  | inl h ↦ (inl (h ∙ ok.no_arrays), refl)
  | inr h ↦ (inr (h ∙ ok.no_elements), refl)
]

-- The draw taken, with its key, leaves a valid tracker.
enqueued :
    (m v key : ℕ) (t : Tracker)
    → IsValid t
    → Next t 1 (
        some (record t {
          state = clear_counts (handle_method m v t.state).0;
          dirty_flags = 1;
          draw_queue = t.draw_queue ++ snapshot (handle_method m v t.state).0 key ∷ [];
        }))
unfolding clear_counts
enqueued m v key t ok = (
  record {
    idle = handle_method-AllIdle m v t.state ok.idle;
    no_arrays = refl;
    no_elements = refl;
    single = AllSingle-append t.draw_queue _ ok.single (snapshot-IsSingle m v key t ok);
  },
  refl,
  length-append t.draw_queue _,
)

enqueue-Next :
    (m v : ℕ) (t : Tracker) (b : Bool)
    → IsValid t
    → (handle_method m v t.state).1 ≡ b
    → Next t (if b then 1 else 0) (enqueue b (handle_method m v t.state).0 t)
unfolding enqueue
enqueue-Next m v t true ok e =
    rw
      (compute_pipeline_key-idle (handle_method m v t.state).0
        (handle_method-AllIdle m v t.state ok.idle))
      (enqueued m v _ t ok)
enqueue-Next m v t false ok e = (
  record {
    idle = handle_method-AllIdle m v t.state ok.idle;
    no_arrays = ((handle_method-Counts m v t.state).kept e).0 ∙ ok.no_arrays;
    no_elements = ((handle_method-Counts m v t.state).kept e).1 ∙ ok.no_elements;
    single = ok.single;
  },
  refl,
  omega arith,
)

draw_test : (m v : ℕ) (s : GpuState3d) → (m == 0x35E || m == 0x5F8) ≡ (handle_method m v s).1
draw_test m v s = elim (Bool-cases (handle_method m v s).1) [
  | inl e ↦ rw e (ground (arith, (draws_iff m v s).0 e))
  | inr e ↦ rw e (ground (arith, (draws_iff m v s).1))
]

on_engine-Next :
    (g : EngineType) (c : Call) (t : Tracker)
    → IsValid t
    → Next t
        (if is_3d g && (c.method == 0x35E || c.method == 0x5F8) then 1 else 0)
        (on_engine g c t)
unfolding on_engine
on_engine-Next engine_3d c t ok =
    rw (draw_test c.method c.value t.state) (enqueue-Next c.method c.value t _ ok refl)
on_engine-Next engine_2d c t ok = (ok, refl, omega arith)
on_engine-Next g c t ok = (ok, refl, omega arith)

on_method-Next :
    (c : Call) (t : Tracker)
    → IsValid t
    → Next t (if is_draw_call t.engines c then 1 else 0) (on_method c t)
unfolding on_method
on_method-Next c t ok = on_engine-Next (get_engine t.engines c.subch) c t ok

Next-trans :
    (t t' : Tracker) (k n : ℕ) (r : Option Tracker)
    → t'.engines ≡ t.engines
    → length t'.draw_queue ≡ length t.draw_queue + k
    → Next t' n r
    → Next t (k + n) r
Next-trans t t' k n none e l h = h
Next-trans t t' k n (some u) e l h = (h.0, h.1 ∙ e, omega arith)

run_calls-Next :
    (cs : List Call) (t : Tracker) → IsValid t → Next t (count_draws t.engines cs) (run_calls cs t)
unfolding run_calls
run_calls-Next [] t ok = (ok, refl, omega arith)
run_calls-Next (c ∷ cs) t ok =
    go (on_method c t) (on_method-Next c t ok) (λ t' ok'. run_calls-Next cs t' ok')
  where
    go :
        (r : Option Tracker)
        → Next t (if is_draw_call t.engines c then 1 else 0) r
        → ((t' : Tracker) → IsValid t' → Next t' (count_draws t'.engines cs) (run_calls cs t'))
        → Next t (count_draws t.engines (c ∷ cs)) (r >>= run_calls cs)
    go none n ih = n
    go (some t') n ih =
        Next-trans t t' _ (count_draws t.engines cs) (run_calls cs t') n.1 n.2
          (subst (λ g. Next t' (count_draws g cs) (run_calls cs t')) n.1 (ih t' n.0))

pub init-IsValid : IsValid init
unfolding init
init-IsValid = omega arith

-- The tracker that a pushbuffer leaves.
pub record Pushed (t : Tracker) (words : List ℕ) : Type 0 where
  pub pos : ℕ
  pub calls : List Call
  pub after : Tracker
  pub parsed : process words ≡ some (pos, calls)
  pub pushed : push_buffer words t ≡ some (pos, after)
  pub in_buffer : pos ≤ length words
  pub valid : IsValid after
  pub counted : length after.draw_queue ≡ length t.draw_queue + count_draws t.engines calls

-- From a valid tracker, any words at all: `PushBuffer` is defined, stops inside the buffer, leaves
-- a valid tracker, and the queue grows by one draw for each write of a count register to the 3D
-- engine, and by none for any other write.
pub push_buffer-Pushed : (words : List ℕ) (t : Tracker) → IsValid t → Pushed t words
unfolding push_buffer
push_buffer-Pushed words t ok = finish (process_total words)
  where
    finish :
        (p : ℕ) × (calls : List Call) × (process words ≡ some (p, calls))
          × (p ≤ length words)
          × (length calls ≤ p)
        → Pushed t words
    finish (p, calls, e, within, few) = ran (run_calls calls t) refl (run_calls-Next calls t ok)
      where
        ran :
            (r : Option Tracker)
            → run_calls calls t ≡ r
            → Next t (count_draws t.engines calls) r
            → Pushed t words
        ran none q n = absurd n
        ran (some t') q n = record {
          pos = p;
          calls = calls;
          after = t';
          parsed = e;
          pushed = rw (e, push_buffer, q);
          in_buffer = within;
          valid = n.0;
          counted = n.2;
        }

-- What `PushBuffer` leaves is what the method writes leave that the parser made.
pub push_buffer-run :
    (words : List ℕ) (t t' : Tracker) (pos pos' : ℕ) (calls : List Call)
    → process words ≡ some (pos, calls)
    → push_buffer words t ≡ some (pos', t')
    → run_calls calls t ≡ some t'
unfolding push_buffer
push_buffer-run words t t' pos pos' calls parsed pushed = elim (Option-cases (run_calls calls t)) [
  | inl undefined ↦
      let e : push_buffer words t ≡ none = rw (parsed, push_buffer, undefined) refl in
      cc (e, pushed)
  | inr (u, ran) ↦
      let e : push_buffer words t ≡ some (pos, u) = rw (parsed, push_buffer, ran) refl in
      cc (e, pushed, ran)
]
