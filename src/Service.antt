-- ===== src/Service.antt =====
-- services/Ipc.h, ServiceBase::HandleCommand: the replies that handlers build.
use m1switch.Base.{ℕ, Bool, true, leb, if◌then◌else◌, List, []}
use m1switch.Base.Bytes.{to_bytes}

-- What a command returns, the bytes it wrote at the start of `out`, and `*out_sz` afterwards.
pub record Reply : Type 0 where
  pub handled : Bool
  pub out : List ℕ
  pub out_sz : ℕ

-- `*out_sz = 0; return true;`
unfoldable pub empty_reply : Reply
empty_reply = record { handled = true; out = []; out_sz = 0 }

-- A u32 is written where `*out_sz` leaves room for it; otherwise `*out_sz` is left as it was.
unfoldable pub reply_u32 : ℕ → ℕ → Reply
unfolding to_bytes
reply_u32 room value =
    if leb 4 room
    then record { handled = true; out = to_bytes 4 value; out_sz = 4 }
    else record { handled = true; out = []; out_sz = room }

-- The same with 8 bytes.
unfoldable pub reply_u64 : ℕ → ℕ → Reply
unfolding to_bytes
reply_u64 room value =
    if leb 8 room
    then record { handled = true; out = to_bytes 8 value; out_sz = 8 }
    else record { handled = true; out = []; out_sz = room }
