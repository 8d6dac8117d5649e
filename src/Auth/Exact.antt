-- ===== src/Auth/Exact.antt =====
-- The encoders on every branch: the exact bytes, or `ENOSPC` exactly when they do not fit.
use cubicle.Base.Result.{ok, err, enospc, Result, ◌>>=◌}
use cubicle.Base.{◌++◌, Bytes, ℕ, ◌<◌, size_mod, length, ◌≤◌, ◌≡◌, some, if◌then◌else◌, leb}
use cubicle.Auth.{
  Transcript, Resume, auth_domain, resume_domain, u32_bytes, encode_transcript, encode_resume,
  resume_steps, transcript_steps, u32_max,
}
use cubicle.Auth.Writer.{
  u64_bytes, string_bytes, Writes, bind-Writes, append_bytes-Writes, append_u32-Writes,
  append_string-Writes, append_u64-Writes, Writes-start,
}

-- What a handshake signs, as one byte string.
abbrev pub transcript_bytes : Transcript → Bytes
transcript_bytes t =
    auth_domain
    ++ (u32_bytes t.protocol_major
        ++ (u32_bytes t.protocol_minor
            ++ (t.manager_public_key
                ++ (t.client_public_key
                    ++ (t.client_nonce
                        ++ (t.manager_nonce
                            ++ (t.connection_id
                                ++ (u64_bytes t.capabilities
                                    ++ (u64_bytes t.manager_generation
                                        ++ (u64_bytes t.peer_uid
                                            ++ (u64_bytes t.peer_gid
                                                ++ string_bytes t.workspace_ref)))))))))))

abbrev pub resume_bytes : Resume → Bytes
resume_bytes r =
    resume_domain
    ++ (string_bytes r.manager_key_id
        ++ (string_bytes r.session_id
            ++ (r.client_nonce
                ++ (r.server_nonce
                    ++ (r.connection_id
                        ++ (u64_bytes r.manager_generation
                            ++ (u64_bytes r.peer_uid ++ u64_bytes r.peer_gid)))))))

module _ (n : ℕ) (small : n < size_mod) where
  transcript_steps-exact :
      (t : Transcript)
      → length t.workspace_ref ≤ u32_max
      → transcript_steps n t
        ≡ (if leb (length (transcript_bytes t)) n then ok (transcript_bytes t) else err enospc)
  unfolding transcript_steps
  transcript_steps-exact t short = Writes-start (
      chain (append_bytes-Writes n small auth_domain) (
        chain (append_u32-Writes n small t.protocol_major) (
          chain (append_u32-Writes n small t.protocol_minor) (
            chain (append_bytes-Writes n small t.manager_public_key) (
              chain (append_bytes-Writes n small t.client_public_key) (
                chain (append_bytes-Writes n small t.client_nonce) (
                  chain (append_bytes-Writes n small t.manager_nonce) (
                    chain (append_bytes-Writes n small t.connection_id) (
                      chain (append_u64-Writes n small t.capabilities) (
                        chain (append_u64-Writes n small t.manager_generation) (
                          chain (append_u64-Writes n small t.peer_uid) (
                            chain (append_u64-Writes n small t.peer_gid)
                              (append_string-Writes n small t.workspace_ref short)))))))))))))
    where
      chain :
          {m k : Bytes → Result Bytes} {a b : Bytes}
          → Writes n m a
          → Writes n k b
          → Writes n (λ w. m w >>= k) (a ++ b)
      chain = bind-Writes n small

  resume_steps-exact :
      (r : Resume)
      → length r.manager_key_id ≤ u32_max
      → length r.session_id ≤ u32_max
      → resume_steps n r
        ≡ (if leb (length (resume_bytes r)) n then ok (resume_bytes r) else err enospc)
  unfolding resume_steps
  resume_steps-exact r key session = Writes-start (
      chain (append_bytes-Writes n small resume_domain) (
        chain (append_string-Writes n small r.manager_key_id key) (
          chain (append_string-Writes n small r.session_id session) (
            chain (append_bytes-Writes n small r.client_nonce) (
              chain (append_bytes-Writes n small r.server_nonce) (
                chain (append_bytes-Writes n small r.connection_id) (
                  chain (append_u64-Writes n small r.manager_generation) (
                    chain (append_u64-Writes n small r.peer_uid)
                      (append_u64-Writes n small r.peer_gid)))))))))
    where
      chain :
          {m k : Bytes → Result Bytes} {a b : Bytes}
          → Writes n m a
          → Writes n k b
          → Writes n (λ w. m w >>= k) (a ++ b)
      chain = bind-Writes n small

-- The transcript encoder writes exactly `transcript_bytes t` when the buffer has room for it, and
-- otherwise fails with `ENOSPC`; the buffer's size is a `size_t`, and the workspace reference has at
-- most `UINT32_MAX` bytes.
pub encode_transcript-exact :
    (n : ℕ) (t : Transcript)
    → n < size_mod
    → length t.workspace_ref ≤ u32_max
    → encode_transcript (some t) (some n)
      ≡ (if leb (length (transcript_bytes t)) n then ok (transcript_bytes t) else err enospc)
unfolding encode_transcript
encode_transcript-exact n t small = transcript_steps-exact n small t

-- The resume encoder writes exactly `resume_bytes r` when the buffer has room for it, and otherwise
-- fails with `ENOSPC`; the buffer's size is a `size_t`, and both identifiers have at most
-- `UINT32_MAX` bytes.
pub encode_resume-exact :
    (n : ℕ) (r : Resume)
    → n < size_mod
    → length r.manager_key_id ≤ u32_max
    → length r.session_id ≤ u32_max
    → encode_resume (some r) (some n)
      ≡ (if leb (length (resume_bytes r)) n then ok (resume_bytes r) else err enospc)
unfolding encode_resume
encode_resume-exact n r small = resume_steps-exact n small r
