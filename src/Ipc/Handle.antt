-- ===== src/Ipc/Handle.antt =====
-- services/Ipc.cpp, IpcManager::HandleRequest: from the parsed command to the response.
use m1switch.Base.{
  ℕ, ◌+◌, ◌-◌, ◌%◌, min, Bool, true, false, ◌&&◌, ◌||◌, not, ◌==◌, ltb, leb, if◌then◌else◌, List,
  [], ◌∷◌, Option, none, some, ◌>>=◌, length,
}
use m1switch.Base.Bits.{u32_mod, u64_mod}
use m1switch.Base.Bytes.{to_bytes}
use m1switch.Base.Buffers.{read, write}
use m1switch.Base.Dict.{lookup, insert}
use m1switch.Memory.{addr_space_size}
use m1switch.Ipc.{
  Session, Manager, Services, find_session, update_session, close_session, get_service_by_session,
}
use m1switch.Ipc.Message.{zero_header, header_bytes, parse_recv_list}
use m1switch.Ipc.Response.{Reserved, build_response, response_header}
use m1switch.Ipc.Request.{
  Parsed, IpcCommand, Carries, no_handle, copied, moved, own_session, carries, parse_message,
  parse_command, u32_in,
}
use text.Mathlib.Text

-- The guest memory behind `g_mem`, which may not be set: its base address, and its Write of bytes.
pub record Guest {ℓ} (World : Type ℓ) : Type ℓ where
  pub base : Option ℕ
  pub store : ℕ → List ℕ → World → World

-- What the stages hand on: whether the command was handled, `raw_out_max`, the ids of new objects,
-- the response buffer, and the state.
pub record Stage {ℓ} (World : Type ℓ) : Type ℓ where
  pub handled : Bool
  pub raw_out_max : ℕ
  pub objects : List ℕ
  pub response : List ℕ
  pub manager : Manager
  pub world : World

pub record Outcome {ℓ} (World : Type ℓ) : Type ℓ where
  pub code : ℕ
  pub response : List ℕ
  pub resp_size : ℕ
  pub manager : Manager
  pub world : World

abbrev plain_space : Reserved
plain_space = record { raw_off = 8; special = false; num_copy_handles = 0; num_move_handles = 0 }

-- The space for one handle, where the buffer has it.
unfoldable pub reserve : Carries → ℕ → Reserved
reserve no_handle room = plain_space
reserve copied room =
    if leb 16 room
    then record { raw_off = 16; special = true; num_copy_handles = 1; num_move_handles = 0 }
    else plain_space
reserve moved room =
    if leb 16 room
    then record { raw_off = 16; special = true; num_copy_handles = 0; num_move_handles = 1 }
    else plain_space
reserve own_session room =
    if leb 16 room
    then record { raw_off = 16; special = true; num_copy_handles = 1; num_move_handles = 0 }
    else plain_space

-- SM's Initialize writes its own session at once.
unfoldable pub preset : Carries → Reserved → ℕ → List ℕ → Option (List ℕ)
unfolding write to_bytes
preset own_session r session response =
    if r.special then write 12 (to_bytes 4 session) response else some response
preset no_handle r session response = some response
preset copied r session response = some response
preset moved r session response = some response

unfoldable pub is_domain_now : ℕ → Manager → Bool
unfolding find_session
is_domain_now session m = elim (find_session session m.sessions) [
  | none ↦ false
  | some s ↦ s.is_domain
]

unfoldable pub set_domain : Session → Session
set_domain s = record s { is_domain = true }

-- The new object of a domain session.
unfoldable pub add_object : ℕ → Session → Session
unfolding insert
add_object service s = record s {
  next_object_id = (s.next_object_id + 1) % u32_mod;
  domain_objects = insert s.next_object_id service s.domain_objects;
}

-- The service of an object of a domain, or the session's own.
unfoldable pub route_object : Session → ℕ → Option ℕ
unfolding lookup
route_object s object =
    if s.is_domain && ltb 0 object
    then (elim (lookup object s.domain_objects) [ none ↦ s.service | some p ↦ some p ])
    else s.service

module _ {ℓ} {World : Type ℓ} (srv : Services World) (guest : Guest World) where
  -- Control commands: ConvertCurrentObjectToDomain, QueryPointerBufferSize, and the others.
  unfoldable pub control : ℕ → ℕ → Reserved → List ℕ → Manager → World → Option (Stage World)
  unfolding write to_bytes update_session set_domain
  control session cmd r response m w =
      let room : ℕ = length response - r.raw_off in
      if cmd == 0
      then ((if leb 4 room then write r.raw_off (to_bytes 4 1) response else some response)
          >>= λ out. some (record {
            handled = true;
            raw_out_max = if leb 4 room then 4 else room;
            objects = [];
            response = out;
            manager = record m { sessions = update_session session set_domain m.sessions };
            world = w;
          }))
      else if cmd == 3
      then ((if leb 2 room then write r.raw_off (to_bytes 2 0) response else some response)
          >>= λ out. some (record {
            handled = true;
            raw_out_max = if leb 2 room then 2 else 0;
            objects = [];
            response = out;
            manager = m;
            world = w;
          }))
      else some (record {
        handled = true;
        raw_out_max = 0;
        objects = [];
        response = response;
        manager = m;
        world = w;
      })

  -- An ordinary command goes to its service, which writes at `raw_off`.
  unfoldable pub forward :
      Session → IpcCommand → Reserved → List ℕ → Manager → World → Option (Stage World)
  unfolding write route_object
  forward s c r response m w = elim (route_object s c.object_id) [
    | none ↦ some (record {
      handled = true;
      raw_out_max = 0;
      objects = [];
      response = response;
      manager = m;
      world = w;
    })
    | some p ↦
        let (reply, m', w') =
          srv.handle_command p c.cmd_id c.raw_in (length response - r.raw_off) m w in
        write r.raw_off reply.out response >>= λ out. some (record {
          handled = reply.handled;
          raw_out_max = reply.out_sz;
          objects = [];
          response = out;
          manager = m';
          world = w';
        })
  ]

  -- A handle in a domain becomes an object, if it is that of a session with a service.
  unfoldable pub register_object : ℕ → ℕ → Stage World → Stage World
  unfolding find_session get_service_by_session update_session add_object
  register_object session handle g = elim (get_service_by_session handle g.manager) [
    | none ↦ g
    | some p ↦ elim (find_session session g.manager.sessions) [
      | none ↦ g
      | some s ↦ record g {
        raw_out_max = 0;
        objects = s.next_object_id ∷ [];
        manager = record g.manager {
          sessions = update_session session (add_object p) g.manager.sessions;
        };
      }
    ]
  ]

  -- The handle that the service wrote at the start of its output.
  unfoldable pub extract : ℕ → Reserved → ℕ → Bool → Stage World → Option (Stage World)
  unfolding write to_bytes register_object
  extract session r handle is_domain g =
      if handle == 0
      then some g
      else if leb 0xE000_0000 handle
      then some (record g { raw_out_max = 0 })
      else if is_domain
      then some (register_object session handle g)
      else (write 12 (to_bytes 4 handle) g.response >>= λ out.
          some (record g { raw_out_max = 0; response = out }))

  unfoldable pub post_process : ℕ → Bool → Reserved → Stage World → Option (Stage World)
  unfolding is_domain_now u32_in extract
  post_process session is_control r g =
      let is_domain : Bool = is_domain_now session g.manager in
      if g.handled && (not is_control && (leb 4 g.raw_out_max && (r.special || is_domain)))
      then (u32_in r.raw_off g.response >>= λ handle. extract session r handle is_domain g)
      else some g

  -- An address of the host inside the guest's space is made one of the guest.
  unfoldable pub relative : ℕ → ℕ → ℕ
  relative base addr =
      if leb base addr && ltb addr ((base + addr_space_size) % u64_mod) then addr - base else addr

  -- The output goes to the first receive buffer of the request.
  unfoldable pub fill_buffer : List (ℕ × ℕ) → Reserved → Stage World → Option (Stage World)
  unfolding read relative
  fill_buffer [] r g = some g
  fill_buffer ((addr, size) ∷ rest) r g = elim guest.base [
    | none ↦ some g
    | some base ↦
        if ltb 0 g.raw_out_max
        then (read r.raw_off (min (g.raw_out_max % u32_mod) size) g.response >>= λ bytes.
            some (record g {
              raw_out_max = 0;
              world = guest.store (relative base addr) bytes g.world;
            }))
        else some g
  ]

  unfoldable pub finish_request :
      ℕ → Bool → Reserved → ℕ → List (ℕ × ℕ) → Stage World → Option (Outcome World)
  unfolding fill_buffer is_domain_now build_response response_header header_bytes write
  finish_request session is_control r token buffers g =
      if g.handled
      then (fill_buffer buffers r g >>= λ h.
          build_response (is_domain_now session h.manager && not is_control) r h.raw_out_max
            h.objects token h.response
          >>= λ built. some (record {
            code = 0;
            response = built.0;
            resp_size = built.1;
            manager = h.manager;
            world = h.world;
          }))
      else (write 0 (header_bytes (response_header r 0)) g.response >>= λ out. some (record {
        code = 0;
        response = out;
        resp_size = r.raw_off;
        manager = g.manager;
        world = g.world;
      }))

  -- The command past the first test of its session, in the reserved space `r`.
  unfoldable pub run_command :
      ℕ
      → Session
      → Bool
      → Reserved
      → IpcCommand
      → List (ℕ × ℕ)
      → List ℕ
      → Manager
      → World
      → Option (Outcome World)
  unfolding control forward post_process finish_request
  run_command session s is_control r c buffers response m w = do
    g ← if is_control then control session c.cmd_id r response m w else forward s c r response m w
    h ← post_process session is_control r g
    finish_request session is_control r c.token buffers h

  -- A session without a service leaves the buffer as it is, but for the handle of SM's Initialize.
  unfoldable pub answer_command :
      ℕ
      → Session
      → Bool
      → Reserved
      → Carries
      → IpcCommand
      → List (ℕ × ℕ)
      → List ℕ
      → Manager
      → World
      → Option (Outcome World)
  unfolding preset run_command
  answer_command session s is_control r carried c buffers response m w =
      if ltb (length response) 8
      then some (record { code = 0; response = response; resp_size = 0; manager = m; world = w })
      else if Text.◌==◌ s.service_name ""
      then none
      else (preset carried r session response >>= λ out. elim s.service [
        | none ↦
            some
              (record { code = 0; response = out; resp_size = r.raw_off; manager = m; world = w })
        | some q ↦ run_command session s is_control r c buffers out m w
      ])

  -- The space is reserved for what the command's answer carries.
  unfoldable pub answer_carrying :
      ℕ
      → Session
      → Bool
      → Carries
      → IpcCommand
      → List (ℕ × ℕ)
      → List ℕ
      → Manager
      → World
      → Option (Outcome World)
  unfolding reserve answer_command
  answer_carrying session s is_control carried c buffers response m w =
      answer_command session s is_control (reserve carried (length response)) carried c buffers
        response m w

  -- A message that is no Close.
  unfoldable pub answer_request :
      ℕ → Session → Parsed → List ℕ → List ℕ → Manager → World → Option (Outcome World)
  unfolding parse_recv_list parse_command carries answer_carrying
  answer_request session s p data_bytes response m w = do
    buffers ← parse_recv_list data_bytes p.header p.dw_off
    c ← parse_command s.is_domain p data_bytes
    answer_carrying session s (p.header.type == 5)
        (carries srv s c.cmd_id (p.header.type == 5) s.is_domain) c buffers response m w

  -- A message that was read: Close, or a command.
  unfoldable pub dispatch_message :
      ℕ → Session → Parsed → List ℕ → List ℕ → Manager → World → Option (Outcome World)
  unfolding close_session write header_bytes zero_header answer_request
  dispatch_message session s p data_bytes response m w =
      if p.header.type == 2
      then (write 0 (header_bytes zero_header) response >>= λ out. some (record {
        code = 0;
        response = out;
        resp_size = 8;
        manager = close_session session m;
        world = w;
      }))
      else answer_request session s p data_bytes response m w

  -- The answer to an unknown session and to a message without a header; the buffer is left alone.
  unfoldable pub refuse : List ℕ → Manager → World → Option (Outcome World)
  refuse response m w = some (record {
    code = 0xFFFF;
    response = response;
    resp_size = length response;
    manager = m;
    world = w;
  })

  -- `HandleRequest` of a message into a buffer of `*resp_size` bytes.
  unfoldable pub handle_request : ℕ → List ℕ → List ℕ → Manager → World → Option (Outcome World)
  unfolding find_session parse_message dispatch_message refuse
  handle_request session data_bytes response m w = elim (find_session session m.sessions) [
    | none ↦ refuse response m w
    | some s ↦
        if ltb (length data_bytes) 8
        then refuse response m w
        else dispatch_message session s (parse_message data_bytes) data_bytes response m w
  ]
