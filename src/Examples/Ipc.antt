-- ===== src/Examples/Ipc.antt =====
-- The IPC manager at concrete inputs, over a service that answers with its input.
use m1switch.Base.{
  ℕ, suc, ◌+◌, ◌≤◌, ◌≡◌, refl, true, false, inl, inr, List, [], ◌∷◌, ◌++◌, none, some, arith,
  length, replicate,
}
use m1switch.Base.Bytes.{}
use m1switch.Base.Buffers.{read}
use m1switch.Service.{Reply}
use m1switch.Ipc.{
  Session, Manager, new_manager, Services, new_session, connect, open_session_for, close_session,
  find_service, find_session,
}
use m1switch.Ipc.Message.{HipcHeader, zero_header, parse_header, header_bytes}
use m1switch.Ipc.Message.Header.{Fits, parse_header-header_bytes}
use m1switch.Ipc.Request.{parse_message, parse_command, carries, no_handle}
use m1switch.Ipc.Request.RoundTrip.{request_message, sent, parse_command-request_message}
use m1switch.Ipc.Response.{Reserved, build_response}
use m1switch.Ipc.Response.Layout.{Standard, Plain, build_response-Plain, build_response-overflow}
use m1switch.Ipc.Handle.{Guest, is_domain_now, handle_request}
use m1switch.Ipc.Exchange.{served, Answered, handle_request-Answered}
use m1switch.Ipc.Sessions.Calls.{
  IpcCall, register_call, connect_call, create_call, run_manager, service_of, Opened, run-connect,
  run-open_deletes,
}

abbrev request_head : HipcHeader
unfolding zero_header
request_head = record zero_header { type = 4; num_data_words = 8; recv_static_mode = 3 }

head-Fits : Fits request_head
unfolding request_head
head-Fits = record {
  f0 = omega arith;
  f1 = omega arith;
  f2 = omega arith;
  f3 = omega arith;
  f4 = omega arith;
  f5 = omega arith;
  f6 = omega arith;
  f7 = omega arith;
  f8 = omega arith;
  f9 = omega arith;
}

parse_header-header_bytes_example :
    parse_header (header_bytes request_head ++ 7 ∷ 8 ∷ []) ≡ request_head
parse_header-header_bytes_example = parse_header-header_bytes request_head (7 ∷ 8 ∷ []) head-Fits

-- Eight bytes of input.
abbrev payload : List ℕ
payload = 9 ∷ 8 ∷ 7 ∷ 6 ∷ 5 ∷ 4 ∷ 3 ∷ 2 ∷ []

parse_command-request_message_example :
    parse_command false
      (parse_message (request_message 11 77 2 payload))
      (request_message 11 77 2 payload)
    ≡ some (sent 11 77 payload)
parse_command-request_message_example =
    parse_command-request_message 11 77 2 payload refl (omega arith) (omega arith) (omega arith)

-- A response with a copy handle, and three bytes of output.
abbrev one_handle : Reserved
one_handle = record { raw_off = 16; special = true; num_copy_handles = 1; num_move_handles = 0 }

abbrev outgoing : List ℕ
outgoing = replicate 16 0 ++ 1 ∷ 2 ∷ 3 ∷ replicate 40 0

handle-Standard : Standard one_handle
unfolding Standard
handle-Standard = inr refl

outgoing_output : read 16 3 outgoing ≡ some (1 ∷ 2 ∷ 3 ∷ [])
unfolding read
outgoing_output = refl

build_response-Plain_example : Plain one_handle 3 77 (1 ∷ 2 ∷ 3 ∷ []) outgoing
build_response-Plain_example =
    build_response-Plain one_handle 3 77 (1 ∷ 2 ∷ 3 ∷ []) outgoing handle-Standard outgoing_output
      refl (omega arith)

-- A service that uses 20 bytes of the 24 that a buffer of 32 bytes leaves it.
abbrev small_space : Reserved
small_space = record { raw_off = 8; special = false; num_copy_handles = 0; num_move_handles = 0 }

small-Standard : Standard small_space
unfolding Standard
small-Standard = inl refl

filled : read 8 20 (replicate 32 1) ≡ some (replicate 20 1)
unfolding read
filled = refl

build_response-overflow_example : build_response false small_space 20 [] 77 (replicate 32 1) ≡ none
build_response-overflow_example =
    build_response-overflow small_space 20 77 (replicate 20 1) (replicate 32 1) small-Standard
      (omega arith) filled refl (omega arith)

-- The service counts its calls.
abbrev echo : Services ℕ
echo = record {
  name = λ p. "echo";
  handle_command = λ p cmd raw_in room m calls.
      (record { handled = true; out = raw_in; out_sz = length raw_in }, m, suc calls);
}

abbrev no_guest : Guest ℕ
no_guest = record { base = none; store = λ addr bytes w. w }

abbrev ipc_calls : List IpcCall
ipc_calls = register_call "echo:" 5 ∷ connect_call "echo:" ∷ create_call 6 ∷ []

abbrev prepared : Manager
prepared = run_manager ipc_calls new_manager

run-connect_example :
    Opened "echo" (service_of "echo" prepared) false prepared (connect "echo" prepared)
run-connect_example = run-connect ipc_calls "echo" (omega arith)

registered : find_service "echo:" prepared.services ≡ some 5
unfolding run_manager new_manager find_service
registered = refl

run-open_deletes_example :
    ((close_session
        (open_session_for "echo:" prepared).0
        (open_session_for "echo:" prepared).1).deleted
      ≡ prepared.deleted ++ 5 ∷ [])
    × (find_service "echo:"
          (close_session
            (open_session_for "echo:" prepared).0
            (open_session_for "echo:" prepared).1).services
        ≡ some 5)
run-open_deletes_example = run-open_deletes ipc_calls "echo:" 5 (omega arith) registered

abbrev echo_session : Session
unfolding new_session
echo_session = new_session 0x1000 "echo:" (some 5) false

abbrev room : List ℕ
room = replicate 64 0

abbrev answering : Reply × Manager × ℕ
answering = served echo no_guest 0x1000 echo_session 5 (sent 11 77 payload) room prepared 0

found_session : find_session 0x1000 prepared.sessions ≡ some echo_session
unfolding run_manager new_manager find_session
found_session = refl

no_handle_carried : carries echo echo_session 11 false false ≡ no_handle
unfolding carries echo_session
no_handle_carried = refl

answer_sized : length answering.0.out ≡ answering.0.out_sz
answer_sized = refl

answer_fits : 32 + answering.0.out_sz ≤ length room
unfolding sent
answer_fits = omega arith

still_plain : is_domain_now 0x1000 answering.1 ≡ false
unfolding is_domain_now run_manager new_manager
still_plain = refl

handle_request-Answered_example :
    Answered echo no_guest 0x1000 echo_session 5
      (sent 11 77 payload)
      room
      prepared
      0
      (handle_request echo no_guest 0x1000 (request_message 11 77 2 payload) room prepared 0)
unfolding echo_session
handle_request-Answered_example =
    handle_request-Answered echo no_guest 0x1000 echo_session 5 11 77 2 payload room prepared 0 refl
      (omega arith) (omega arith) (omega arith) found_session refl refl refl no_handle_carried refl
      answer_sized answer_fits still_plain
