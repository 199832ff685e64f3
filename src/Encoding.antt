-- ===== src/Encoding.antt =====
-- The length-prefixed encodings under every signature and every AEAD header:
-- `canonical` and `append_part` of src/capability.rs, whose lengths are 8 bytes wide, and
-- `append_part` of src/persistence/envelope.rs, whose lengths are 4 bytes wide and may overflow.
pub mod Injective
use mathlib.Core.List.{foldl}
use secure_messenger_lab.Prelude.{ℕ, Bool, List, [], ◌∷◌, ◌++◌, leb, if◌then◌else◌, length}
use secure_messenger_lab.Errors.{Result, ok, err, storage, ◌>>=◌}
use secure_messenger_lab.Bytes.{Bytes, ascii, to_be_bytes, u64_max, u32_max}

abbrev pub protocol_domain : Bytes
protocol_domain = ascii "secure-messenger-lab/phase0/v1"

abbrev pub action_register : Bytes
action_register = ascii "register"

abbrev pub action_send : Bytes
action_send = ascii "send"

abbrev pub action_fetch : Bytes
action_fetch = ascii "fetch"

abbrev pub action_ack : Bytes
action_ack = ascii "ack"

abbrev pub action_delete : Bytes
action_delete = ascii "delete-mailbox"

-- `append_part` of src/capability.rs: a length past `u64` is written as `u64::MAX`.
unfoldable pub append_part : Bytes → Bytes → Bytes
append_part target part =
    let size = if leb (length part) u64_max then length part else u64_max in
    (target ++ to_be_bytes 8 size) ++ part

-- `for part in parts { append_part(&mut encoded, part) }`
unfoldable pub append_parts : Bytes → List Bytes → Bytes
append_parts target [] = target
append_parts target (part ∷ parts) = append_parts (append_part target part) parts

unfoldable pub canonical : Bytes → List Bytes → Bytes
canonical action parts = append_parts (append_part (append_part [] protocol_domain) action) parts

-- `append_part` of src/persistence/envelope.rs.
unfoldable pub try_append_part : Bytes → Bytes → Result Bytes
try_append_part encoded part =
    if leb (length part) u32_max
    then ok ((encoded ++ to_be_bytes 4 (length part)) ++ part)
    else err storage

unfoldable pub try_append_parts : Bytes → List Bytes → Result Bytes
try_append_parts encoded [] = ok encoded
try_append_parts encoded (part ∷ parts) = do
  longer ← try_append_part encoded part
  try_append_parts longer parts
