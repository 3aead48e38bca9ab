-- ===== src/Ipc/Request.antt =====
-- services/Ipc.cpp, IpcManager::HandleRequest. `none` is an access outside the message or the
-- response buffer, or the last character of an empty name.
pub mod RoundTrip
use Prim.Native.String.{String, ◌++◌ as ◌<>◌}
use m1switch.Base.{
  ℕ, zero, suc, ◌+◌, ◌-◌, ◌*◌, ◌/◌, ◌%◌, ◌^◌, Bool, true, false, ◌&&◌, ◌||◌, not, ◌==◌, ltb, leb,
  if◌then◌else◌, List, [], ◌∷◌, ◌++◌, Option, none, some, ◌>>=◌, length, take, drop,
}
use m1switch.Base.Bits.{u32_mod, u64_mod}
use m1switch.Base.Bytes.{of_bytes, to_bytes}
use m1switch.Base.Buffers.{read, write}
use m1switch.Base.Dict.{lookup, insert}
use m1switch.Service.{Reply}
use m1switch.Memory.{addr_space_size}
use m1switch.Ipc.{
  Session, Manager, Services, find_session, update_session, close_session, get_service_by_session,
}
use m1switch.Ipc.Message.{
  HipcHeader, zero_header, header_bytes, parse_header, calc_data_words_offset, calc_cmif_align,
  parse_recv_list,
}
use m1switch.Ipc.Response.{Reserved, cmif_out_magic, build_response, response_header}
use text.Mathlib.Text

abbrev pub cmif_in_magic : ℕ
cmif_in_magic = 0x4943_4653

-- The message as it is read: a response that was left in the buffer counts as an empty header.
pub record Parsed : Type 0 where
  pub header : HipcHeader
  pub dw_off : ℕ

unfoldable pub u32_in : ℕ → List ℕ → Option ℕ
unfolding read of_bytes
u32_in off data_bytes = read off 4 data_bytes >>= λ bytes. some (of_bytes 4 bytes)

-- "SFCO" where the request's own magic belongs.
unfoldable pub is_recycled : List ℕ → HipcHeader → ℕ → Bool
unfolding u32_in calc_cmif_align
is_recycled data_bytes h dw_off =
    if ltb 0 h.num_data_words
    then (elim (u32_in (calc_cmif_align dw_off) data_bytes) [
      | none ↦ false
      | some magic ↦ magic == cmif_out_magic
    ])
    else false

unfoldable pub parse_with : List ℕ → HipcHeader → ℕ → Parsed
unfolding is_recycled zero_header
parse_with data_bytes h dw_off =
    if is_recycled data_bytes h dw_off
    then record { header = zero_header; dw_off = 8 }
    else record { header = h; dw_off = dw_off }

unfoldable pub parse_message : List ℕ → Parsed
unfolding parse_header calc_data_words_offset parse_with
parse_message data_bytes =
    parse_with data_bytes (parse_header data_bytes) (calc_data_words_offset data_bytes)

-- The command: its number, input, token, and the object of a domain that it is for.
pub record IpcCommand : Type 0 where
  pub cmd_id : ℕ
  pub raw_in : List ℕ
  pub token : ℕ
  pub object_id : ℕ

-- `object_id` of the `CmifDomainInHeader`.
unfoldable pub domain_object : Bool → ℕ → List ℕ → Option ℕ
unfolding read of_bytes
domain_object false cmif_off data_bytes = some 0
domain_object true cmif_off data_bytes =
    read cmif_off 16 data_bytes >>= λ h. some (of_bytes 4 (drop 4 h))

-- The command in a `CmifInHeader`; the input starts 16 bytes behind `cmif_off`, also in a domain.
unfoldable pub cmif_command : Parsed → ℕ → ℕ → List ℕ → List ℕ → Option IpcCommand
unfolding read of_bytes
cmif_command p cmif_off object h data_bytes =
    let cmif_end : ℕ = cmif_off + 16 in
    let dw_end : ℕ = p.dw_off + p.header.num_data_words * 4 in
    do
      raw_in ← if ltb cmif_end dw_end then read cmif_end (dw_end - cmif_end) data_bytes else some []
      some (record {
        cmd_id = of_bytes 4 (drop 8 h);
        raw_in = raw_in;
        token = of_bytes 4 (drop 12 h);
        object_id = object;
      })

-- A message of the old form holds the command in its first data word.
unfoldable pub raw_command : Parsed → ℕ → List ℕ → Option IpcCommand
unfolding u32_in
raw_command p object data_bytes =
    if ltb 0 p.dw_off
    then (u32_in p.dw_off data_bytes >>= λ cmd.
        some (record { cmd_id = cmd; raw_in = []; token = 0; object_id = object }))
    else some (record { cmd_id = 0; raw_in = []; token = 0; object_id = object })

-- The first data words: a `CmifInHeader`, behind a `CmifDomainInHeader` in a domain.
unfoldable pub data_command : Bool → Parsed → ℕ → List ℕ → Option IpcCommand
unfolding domain_object cmif_command raw_command read of_bytes
data_command is_domain p cmif_off data_bytes = do
  object ← domain_object is_domain cmif_off data_bytes
  h ← read (cmif_off + (if is_domain then 16 else 0)) 16 data_bytes
  (if of_bytes 4 h == cmif_in_magic
      then cmif_command p cmif_off object h data_bytes
      else raw_command p object data_bytes)

unfoldable pub parse_command : Bool → Parsed → List ℕ → Option IpcCommand
unfolding calc_cmif_align data_command
parse_command is_domain p data_bytes =
    if ltb 0 p.header.num_data_words
    then data_command is_domain p (calc_cmif_align p.dw_off) data_bytes
    else some (record { cmd_id = 0; raw_in = []; token = 0; object_id = 0 })

-- `sname == name`, where `sname` is the session's name less one colon at its end, and `name` does
-- not end in a colon.
unfoldable pub named : String → String → Bool
named service_name name = Text.◌==◌ service_name name || Text.◌==◌ service_name (name <> ":")

-- The handle that the response is to carry.
pub data Carries : Type 0 where
  no_handle copied moved own_session : Carries

-- The name of a service behind a pointer.
unfoldable pub is_service {ℓ} : {World : Type ℓ} → Services World → Option ℕ → String → Bool
is_service srv none name = false
is_service srv (some p) name = Text.◌==◌ (srv.name p) name

-- `needs_move_handle` and `needs_copy_handle`, from the session's name and its service, for an
-- ordinary command outside a domain; SM's Initialize answers with the session itself (the service
-- called sm is none of the two that are tested for by their own names).
unfoldable pub carries {ℓ} : {World : Type ℓ} → Services World → Session → ℕ → Bool → Bool → Carries
unfolding named is_service
carries srv s cmd is_control is_domain =
    let offered : Carries → Carries = λ c. if is_control || is_domain then no_handle else c in
    if named s.service_name "sm" && cmd == 0
    then own_session
    else if named s.service_name "sm" && cmd == 1
    then offered moved
    else if (named s.service_name "apm" || named s.service_name "apm:sys") && cmd == 0
    then offered moved
    else if (named s.service_name "appletOE" || named s.service_name "appletAE") && cmd == 0
    then offered moved
    else if (named s.service_name "hid" || named s.service_name "hid:") && (cmd == 0 || cmd == 1)
    then offered moved
    else if leb cmd 1000 && is_service srv s.service "HidAppletResource"
    then offered copied
    else if leb cmd 1000 && is_service srv s.service "appletProxy"
    then offered moved
    else offered no_handle
