-- ===== src/Auth.antt =====
-- src/common/auth_protocol.c and auth_protocol.h: the byte strings that a client and the manager
-- sign in the authentication and resume handshakes. A buffer is its size and the bytes written so
-- far; `htonl` and `memcpy` of the result give a number's four bytes, the highest first.
pub mod Writer
pub mod Exact
pub mod Injective
mod Tests
use Prim.Native.String.{String}
use cubicle.Base.{
  ℕ, zero, suc, ◌+◌, ◌-◌, ◌*◌, ◌/◌, ◌%◌, ◌^◌, Bool, true, false, Option, none, some, List, [], ◌∷◌,
  ◌++◌, ◌||◌, ltb, ◌==◌, if◌then◌else◌, length, Bytes, size_sub,
}
use cubicle.Base.Result.{Result, ok, err, einval, enospc, eoverflow, ◌>>=◌}

-- The arguments `buffer` and `buffer_size`, and the bytes below `*used`.
pub append_bytes : ℕ → Bytes → Bytes → Result Bytes
append_bytes buffer_size written block =
    if ltb (size_sub buffer_size (length written)) (length block)
    then err enospc
    else ok (written ++ block)

-- `htonl`, stored in memory.
abbrev pub u32_bytes : ℕ → Bytes
u32_bytes v = (v / 2 ^ 24 % 256) ∷ (v / 2 ^ 16 % 256) ∷ (v / 2 ^ 8 % 256) ∷ (v % 256) ∷ []

pub append_u32 : ℕ → ℕ → Bytes → Result Bytes
append_u32 buffer_size value written = append_bytes buffer_size written (u32_bytes value)

pub append_u64 : ℕ → ℕ → Bytes → Result Bytes
append_u64 buffer_size value written = do
  high ← append_u32 buffer_size (value / 2 ^ 32 % 2 ^ 32) written
  append_u32 buffer_size (value % 2 ^ 32) high

-- `none` is a null pointer, which is written as the empty text.
abbrev pub text_or_empty : Option Bytes → Bytes
text_or_empty none = []
text_or_empty (some text) = text

abbrev pub u32_max : ℕ
u32_max = 2 ^ 32 - 1

pub append_string : ℕ → Option Bytes → Bytes → Result Bytes
append_string buffer_size value written =
    let text = text_or_empty value in
    if ltb u32_max (length text) then err eoverflow else (do
      sized ← append_u32 buffer_size (length text) written
      if length text == 0 then ok sized else append_bytes buffer_size sized text)

pub record Transcript : Type 0 where
  pub protocol_major : ℕ
  pub protocol_minor : ℕ
  pub manager_public_key : Bytes
  pub client_public_key : Bytes
  pub client_nonce : Bytes
  pub manager_nonce : Bytes
  pub connection_id : Bytes
  pub capabilities : ℕ
  pub manager_generation : ℕ
  pub peer_uid : ℕ
  pub peer_gid : ℕ
  pub workspace_ref : Bytes

pub record Resume : Type 0 where
  pub manager_key_id : Bytes
  pub session_id : Bytes
  pub client_nonce : Bytes
  pub server_nonce : Bytes
  pub connection_id : Bytes
  pub manager_generation : ℕ
  pub peer_uid : ℕ
  pub peer_gid : ℕ

-- "CUBICLE-AUTH-V0" and "CUBICLE-RESUME-V0" with their terminators, which `sizeof` counts.
abbrev pub auth_domain : Bytes
auth_domain =
    b'C' ∷ b'U' ∷ b'B' ∷ b'I' ∷ b'C' ∷ b'L' ∷ b'E' ∷ b'-' ∷ b'A' ∷ b'U' ∷ b'T' ∷ b'H' ∷ b'-' ∷ b'V'
    ∷ b'0' ∷ 0 ∷ []

abbrev pub resume_domain : Bytes
resume_domain =
    b'C' ∷ b'U' ∷ b'B' ∷ b'I' ∷ b'C' ∷ b'L' ∷ b'E' ∷ b'-' ∷ b'R' ∷ b'E' ∷ b'S' ∷ b'U' ∷ b'M' ∷ b'E'
    ∷ b'-' ∷ b'V' ∷ b'0' ∷ 0 ∷ []

transcript_steps : ℕ → Transcript → Result Bytes
transcript_steps n t = do
  domain ← append_bytes n [] auth_domain
  major ← append_u32 n t.protocol_major domain
  minor ← append_u32 n t.protocol_minor major
  manager_key ← append_bytes n minor t.manager_public_key
  client_key ← append_bytes n manager_key t.client_public_key
  client ← append_bytes n client_key t.client_nonce
  manager ← append_bytes n client t.manager_nonce
  connection ← append_bytes n manager t.connection_id
  capabilities ← append_u64 n t.capabilities connection
  generation ← append_u64 n t.manager_generation capabilities
  uid ← append_u64 n t.peer_uid generation
  gid ← append_u64 n t.peer_gid uid
  append_string n (some t.workspace_ref) gid

-- `none` is a null `transcript` or a null `buffer`; the result is `buffer[0 .. *length_out]`.
pub encode_transcript : Option Transcript → Option ℕ → Result Bytes
unfolding transcript_steps
encode_transcript (some t) (some buffer_size) = transcript_steps buffer_size t
encode_transcript _ _ = err einval

resume_steps : ℕ → Resume → Result Bytes
resume_steps n r = do
  domain ← append_bytes n [] resume_domain
  key_id ← append_string n (some r.manager_key_id) domain
  session ← append_string n (some r.session_id) key_id
  client ← append_bytes n session r.client_nonce
  server ← append_bytes n client r.server_nonce
  connection ← append_bytes n server r.connection_id
  generation ← append_u64 n r.manager_generation connection
  uid ← append_u64 n r.peer_uid generation
  append_u64 n r.peer_gid uid

pub encode_resume : Option Resume → Option ℕ → Result Bytes
unfolding resume_steps
encode_resume (some r) (some buffer_size) = resume_steps buffer_size r
encode_resume _ _ = err einval
