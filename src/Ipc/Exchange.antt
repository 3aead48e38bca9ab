-- ===== src/Ipc/Exchange.antt =====
-- services/Ipc.cpp, HandleRequest as a whole: a client's request, its service, the client's answer.
use m1switch.Base.{
  ℕ, ◌+◌, ◌-◌, ◌*◌, ◌^◌, ◌≤◌, ◌<◌, Bool, true, false, leb, ltb-ge, Bool-cases, ◌≡◌, refl, sym, ap,
  ◌∙◌, inl, inr, List, [], Option, some, ◌>>=◌, length, arith,
}
use m1switch.Base.Bits.{u32_mod}
use m1switch.Base.Buffers.{read, write, Written, write-Written}
use m1switch.Service.{Reply}
use m1switch.Ipc.{Session, Manager, Services, find_session}
use m1switch.Ipc.Request.{
  Parsed, IpcCommand, Carries, no_handle, carries, parse_message, parse_command,
}
use m1switch.Ipc.Request.RoundTrip.{
  request_header, request_message, sent, length-message, parse_message-message,
  parse_command-request_message,
}
use m1switch.Ipc.Response.{Reserved, cmif_out_header, build_response}
use m1switch.Ipc.Response.Layout.{Standard, Plain, build_response-Plain}
use m1switch.Ipc.Handle.{
  Guest, Stage, Outcome, reserve, preset, is_domain_now, route_object, forward, post_process,
  fill_buffer, finish_request, run_command, answer_command, answer_carrying, answer_request,
  dispatch_message, handle_request,
}
use text.Mathlib.Text

abbrev no_space : Reserved
no_space = record { raw_off = 8; special = false; num_copy_handles = 0; num_move_handles = 0 }

module _ {ℓ} {World : Type ℓ} (srv : Services World) (guest : Guest World) (session : ℕ)
    (s : Session) (q : ℕ) (c : IpcCommand) (response : List ℕ) (m : Manager) (w : World) where
  -- What the service does with the command.
  abbrev pub served : Reply × Manager × World
  served = srv.handle_command q c.cmd_id c.raw_in (length response - 8) m w

  stage : List ℕ → Stage World
  stage out = record {
    handled = true;
    raw_out_max = served.0.out_sz;
    objects = [];
    response = out;
    manager = served.1;
    world = served.2;
  }

  forward-served :
      (out : List ℕ)
      → s.is_domain ≡ false
      → s.service ≡ some q
      → served.0.handled ≡ true
      → write 8 served.0.out response ≡ some out
      → forward srv guest s c no_space response m w ≡ some (stage out)
  unfolding forward route_object stage
  forward-served out plain serves handled wrote = rw (plain, serves, wrote, handled) refl

  post_process-served :
      (out : List ℕ)
      → is_domain_now session served.1 ≡ false
      → post_process srv guest session false no_space (stage out) ≡ some (stage out)
  unfolding post_process stage
  post_process-served out plain = elim (Bool-cases (leb 4 served.0.out_sz)) [
    | inl wide ↦ rw (wide, plain) refl
    | inr narrow ↦ rw (narrow) refl
  ]

  outcome : List ℕ → Outcome World
  outcome done = record {
    code = 0;
    response = done;
    resp_size = 32 + served.0.out_sz;
    manager = served.1;
    world = served.2;
  }

  finish_request-served :
      (out done : List ℕ)
      → is_domain_now session served.1 ≡ false
      → build_response false no_space served.0.out_sz [] c.token out
        ≡ some (done, 32 + served.0.out_sz)
      → finish_request srv guest session false no_space c.token [] (stage out) ≡ some (outcome done)
  unfolding finish_request fill_buffer stage outcome
  finish_request-served out done plain built = rw (plain) (ap wrap built)
    where
      wrap : Option (List ℕ × ℕ) → Option (Outcome World)
      wrap o = o >>= λ built. some (record {
        code = 0;
        response = built.0;
        resp_size = built.1;
        manager = served.1;
        world = served.2;
      })

  run_command-served :
      (out done : List ℕ)
      → forward srv guest s c no_space response m w ≡ some (stage out)
      → post_process srv guest session false no_space (stage out) ≡ some (stage out)
      → finish_request srv guest session false no_space c.token [] (stage out) ≡ some (outcome done)
      → run_command srv guest session s false no_space c [] response m w ≡ some (outcome done)
  unfolding run_command
  run_command-served out done one two three = rw (one, run_command, two, three) refl

  answer_carrying-none :
      {o : Option (Outcome World)}
      → answer_command srv guest session s false no_space no_handle c [] response m w ≡ o
      → answer_carrying srv guest session s false no_handle c [] response m w ≡ o
  unfolding answer_carrying reserve
  answer_carrying-none e = e

  -- What the client then finds in the buffer.
  pub record Answered (result : Option (Outcome World)) : Type ℓ where
    pub done : List ℕ
    pub answered :
        result
        ≡ some (record {
          code = 0;
          response = done;
          resp_size = 32 + served.0.out_sz;
          manager = served.1;
          world = served.2;
        })
    pub header : read 16 16 done ≡ some (cmif_out_header c.token)
    pub output : read 32 served.0.out_sz done ≡ some served.0.out

  run_command-Answered :
      s.is_domain ≡ false
      → s.service ≡ some q
      → served.0.handled ≡ true
      → length served.0.out ≡ served.0.out_sz
      → 32 + served.0.out_sz ≤ length response
      → is_domain_now session served.1 ≡ false
      → Answered (run_command srv guest session s false no_space c [] response m w)
  unfolding Standard outcome
  run_command-Answered plain serves handled sized fits after =
      let put : Written 8 served.0.out response =
        write-Written 8 served.0.out response (omega (arith, sized, fits)) in
      let built : Plain no_space served.0.out_sz c.token served.0.out put.after =
        build_response-Plain no_space served.0.out_sz c.token served.0.out put.after (inl refl)
          (ap (λ (n : ℕ). read 8 n put.after) (sym sized) ∙ put.reads) sized
          (omega (arith, put.same_length, fits)) in
      record {
        done = built.done;
        answered =
            run_command-served put.after built.done
              (forward-served put.after plain serves handled put.wrote)
              (post_process-served put.after after)
              (finish_request-served put.after built.done after built.built);
        header = built.cmif;
        output = built.data_kept;
      }

  answer_command-served :
      (done : List ℕ)
      → 8 ≤ length response
      → Text.◌==◌ s.service_name "" ≡ false
      → s.service ≡ some q
      → run_command srv guest session s false no_space c [] response m w ≡ some (outcome done)
      → answer_command srv guest session s false no_space no_handle c [] response m w
        ≡ some (outcome done)
  unfolding answer_command preset outcome
  answer_command-served done room has_name serves ran =
      rw (ltb-ge (length response) 8 room, has_name, answer_command, serves) ran

  -- A session that answers the command without a handle, and a message that holds the command.
  answer_request-served :
      (k : ℕ) (msg : List ℕ) (done : List ℕ)
      → parse_command s.is_domain (record { header = request_header k; dw_off = 8 }) msg ≡ some c
      → carries srv s c.cmd_id false s.is_domain ≡ no_handle
      → answer_command srv guest session s false no_space no_handle c [] response m w
        ≡ some (outcome done)
      → answer_request srv guest session s
          (record { header = request_header k; dw_off = 8 })
          msg
          response
          m
          w
        ≡ some (outcome done)
  unfolding answer_request request_header
  answer_request-served k msg done parsed carried answered =
      ap
        (λ (o : Option IpcCommand). o >>= λ d.
          answer_carrying srv guest session s false (carries srv s d.cmd_id false s.is_domain) d []
            response m w)
        parsed
      ∙ ap (λ (x : Carries). answer_carrying srv guest session s false x c [] response m w) carried
      ∙ answer_carrying-none answered

module _ {ℓ} {World : Type ℓ} (srv : Services World) (guest : Guest World) where
  handle_request-found :
      (session : ℕ) (s : Session) (data_bytes response : List ℕ) (m : Manager) (w : World)
      → find_session session m.sessions ≡ some s
      → 8 ≤ length data_bytes
      → handle_request srv guest session data_bytes response m w
        ≡ dispatch_message srv guest session s (parse_message data_bytes) data_bytes response m w
  unfolding handle_request
  handle_request-found session s data_bytes response m w found long =
      rw (found, handle_request, ltb-ge (length data_bytes) 8 long) refl

  dispatch_message-request :
      (session k : ℕ) (s : Session) (data_bytes response : List ℕ) (m : Manager) (w : World)
      → dispatch_message srv guest session s
          (record { header = request_header k; dw_off = 8 })
          data_bytes
          response
          m
          w
        ≡ answer_request srv guest session s
            (record { header = request_header k; dw_off = 8 })
            data_bytes
            response
            m
            w
  unfolding dispatch_message request_header
  dispatch_message-request session k s data_bytes response m w = refl

  -- A client's request of 32-bit command and token with `k` words of input, `k` below 1018, on a
  -- session outside a domain whose name is not empty and whose command carries no handle: the
  -- session's service is called with that command and exactly that input, and if it handles it,
  -- writes as many bytes as it says, leaves 32 bytes of the buffer over and does not make the
  -- session a domain, then the request succeeds with what the service left, its size is that of the
  -- output and 32, and the client reads its token back at 16 and the service's output at 32.
  pub handle_request-Answered :
      (session : ℕ) (s : Session) (q cmd token k : ℕ) (payload response : List ℕ) (m : Manager)
      (w : World)
      → length payload ≡ k * 4
      → k + 6 < 2 ^ 10
      → cmd < u32_mod
      → token < u32_mod
      → find_session session m.sessions ≡ some s
      → s.is_domain ≡ false
      → Text.◌==◌ s.service_name "" ≡ false
      → s.service ≡ some q
      → carries srv s cmd false false ≡ no_handle
      → (served srv guest session s q (sent cmd token payload) response m w).0.handled ≡ true
      → length (served srv guest session s q (sent cmd token payload) response m w).0.out
        ≡ (served srv guest session s q (sent cmd token payload) response m w).0.out_sz
      → 32 + (served srv guest session s q (sent cmd token payload) response m w).0.out_sz
        ≤ length response
      → is_domain_now session (served srv guest session s q (sent cmd token payload) response m w).1
        ≡ false
      → Answered srv guest session s q
          (sent cmd token payload)
          response
          m
          w
          (handle_request srv guest session (request_message cmd token k payload) response m w)
  unfolding sent outcome request_header request_message
  handle_request-Answered session s q cmd token k payload response m w sized few hc ht found plain
        named_so serves carried handled wrote fits after =
      let msg : List ℕ = request_message cmd token k payload in
      let c : IpcCommand = sent cmd token payload in
      let p : Parsed = record { header = request_header k; dw_off = 8 } in
      let parsed : parse_message msg ≡ p = parse_message-message cmd token k payload sized few in
      let ran : Answered srv guest session s q c response m w
          (run_command srv guest session s false no_space c [] response m w) =
        run_command-Answered srv guest session s q c response m w plain serves handled wrote fits
          after in
      let read_back : parse_command s.is_domain p msg ≡ some c =
        ap (λ (b : Bool). parse_command b p msg) plain
        ∙ ap (λ x. parse_command false x msg) (sym parsed)
        ∙ parse_command-request_message cmd token k payload sized few hc ht in
      record {
        done = ran.done;
        answered =
            handle_request-found session s msg response m w found
              (omega (arith, length-message cmd token k payload sized))
            ∙ ap (λ x. dispatch_message srv guest session s x msg response m w) parsed
            ∙ dispatch_message-request session k s msg response m w
            ∙ answer_request-served srv guest session s q c response m w k msg ran.done read_back
                (ap (λ (b : Bool). carries srv s cmd false b) plain ∙ carried)
                (answer_command-served srv guest session s q c response m w ran.done
                  (omega (arith, fits)) named_so serves ran.answered);
        header = ran.header;
        output = ran.output;
      }
