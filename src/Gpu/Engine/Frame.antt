-- ===== src/Gpu/Engine/Frame.antt =====
-- What a method write leaves alone. Each view goes through `write_target`.
use m1switch.Base.{
  ℕ, ◌/◌, ◌%◌, ◌≤◌, ◌<◌, ◌≡◌, refl, ap, true, false, ◌==◌, leb, List, [], ◌∷◌, map, arith, get_or,
  map-modify, get_or-modify_ne, view-if, Option, none, some,
}
use m1switch.Gpu.State.{GpuState3d, RtState, ViewportState, zero_viewport_state}
use m1switch.Gpu.Engine.{
  Range, range, first_range, ranges, handle_scissor, handle_vertex_array, handle_vertex_attrib,
  handle_blend, scissor, Target, render_target, viewport, register, set_render_target,
  handle_render_target, handle_viewport, route, switch, write_target, handle_method,
}
use m1switch.Gpu.Engine.Registers.{
  handle_shader, Register, write_register, rt_control, find_register, register_table,
}

-- What an index that a range test hands on is bounded by.
abbrev pub InBounds : Target → Type 0
InBounds (render_target i) = i < 8
InBounds (viewport i) = i < 96
InBounds t = Unit {0}

abbrev AllInBounds : List Range → Type 0
AllInBounds [] = Unit {0}
AllInBounds (range test target ∷ rest) = (test ≡ true → InBounds target) × AllInBounds rest

first_range-InBounds :
    (l : List Range) (t : Target) → AllInBounds l → InBounds t → InBounds (first_range l t)
unfolding first_range
first_range-InBounds [] t a h = h
first_range-InBounds (range true target ∷ rest) t a h = a.0 refl
first_range-InBounds (range false target ∷ rest) t a h = first_range-InBounds rest t a.1 h

switch-InBounds : (o : Option Register) → InBounds (switch o)
unfolding switch
switch-InBounds none = tt
switch-InBounds (some r) = tt

pub route-InBounds : (m : ℕ) → InBounds (route m)
unfolding route ranges
route-InBounds m =
    first_range-InBounds (ranges m) _
      (
        (λ h. ground arith),
        (
          (λ h. ground arith),
          (
            (λ _. tt),
            (
              (λ _. tt),
              (
                (λ _. tt),
                (
                  (λ _. tt),
                  (
                    (λ _. tt),
                    (
                      (λ _. tt),
                      (
                        (λ _. tt),
                        ((λ _. tt), ((λ _. tt), ((λ _. tt), ((λ _. tt), ((λ _. tt), tt))))),
                      ),
                    ),
                  ),
                ),
              ),
            ),
          ),
        ),
      )
      (switch-InBounds (find_register m register_table))

-- The fields of a render target beside its address.
abbrev pub layout : RtState → ℕ × ℕ × ℕ × ℕ × ℕ × ℕ × ℕ
layout r = (r.width, r.height, r.format, r.tile_mode, r.array_mode, r.layer_stride, r.base_layer)

write_register-rt : (r : Register) (v : ℕ) (s : GpuState3d) → (write_register r v s).rt ≡ s.rt
unfolding write_register
write_register-rt rt_control v s = refl
write_register-rt r v s = refl

-- Below the first eight indices only the address register is reached.
set_render_target-low :
    (sub v : ℕ) → sub ≡ 0 → (r : RtState) → layout (set_render_target sub v r) ≡ layout r
unfolding set_render_target
set_render_target-low sub v e r = rw e

write_target-layout :
    (t : Target) (v : ℕ) (s : GpuState3d)
    → InBounds t
    → map layout (write_target t v s).rt ≡ map layout s.rt
unfolding write_target handle_render_target handle_viewport handle_scissor handle_vertex_array
    handle_vertex_attrib handle_blend handle_shader
write_target-layout (render_target i) v s h =
    map-modify layout s.rt (i % 8) (set_render_target (i / 8) v)
      (set_render_target-low (i / 8) v (omega arith))
write_target-layout (viewport i) v s h =
    view-if (λ (q : GpuState3d). map layout q.rt) (leb 16 (i / 8)) s _ _ refl refl
write_target-layout (scissor i) v s h =
    view-if (λ (q : GpuState3d). map layout q.rt) (i / 16 == 0) _ s _ refl refl
write_target-layout (register r) v s h = ap (map layout) (write_register-rt r v s)
write_target-layout t v s h = refl

-- The render target ranges pass the handler the number of the target, where it expects the offset
-- of the register, so every write lands in an address: no method write changes any other field of
-- any render target.
pub handle_method-layout :
    (m v : ℕ) (s : GpuState3d) → map layout (handle_method m v s).0.rt ≡ map layout s.rt
unfolding handle_method
handle_method-layout m v s = write_target-layout (route m) v s (route-InBounds m)

write_register-viewports :
    (r : Register) (v : ℕ) (s : GpuState3d) → (write_register r v s).viewports ≡ s.viewports
unfolding write_register
write_register-viewports rt_control v s = refl
write_register-viewports r v s = refl

abbrev pub viewport_at : ℕ → GpuState3d → ViewportState
viewport_at j s = get_or s.viewports j zero_viewport_state

write_target-viewport_at :
    (t : Target) (v j : ℕ) (s : GpuState3d)
    → InBounds t
    → 12 ≤ j
    → viewport_at j (write_target t v s) ≡ viewport_at j s
unfolding write_target handle_render_target handle_viewport handle_scissor handle_vertex_array
    handle_vertex_attrib handle_blend handle_shader
write_target-viewport_at (render_target i) v j s h far = refl
write_target-viewport_at (viewport i) v j s h far =
    view-if (viewport_at j) (leb 16 (i / 8)) s _ _ refl
      (get_or-modify_ne s.viewports (i / 8) j _ zero_viewport_state (omega arith))
write_target-viewport_at (scissor i) v j s h far =
    view-if (viewport_at j) (i / 16 == 0) _ s _ refl refl
write_target-viewport_at (register r) v j s h far =
    ap (λ l. get_or l j zero_viewport_state) (write_register-viewports r v s)
write_target-viewport_at t v j s h far = refl

-- The viewport range ends after 96 methods, and each viewport takes eight of them: no method write
-- changes a viewport from the twelfth on.
pub handle_method-viewport_at :
    (m v j : ℕ) (s : GpuState3d) → 12 ≤ j → viewport_at j (handle_method m v s).0 ≡ viewport_at j s
unfolding handle_method
handle_method-viewport_at m v j s far =
    write_target-viewport_at (route m) v j s (route-InBounds m) far
