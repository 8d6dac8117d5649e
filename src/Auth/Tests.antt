-- ===== src/Auth/Tests.antt =====
-- Handshakes at concrete inputs: the expected bytes, a full buffer, null pointers.
use cubicle.Base.Result.{ok, err, einval, enospc}
use cubicle.Auth.Injective.{
  IsTranscript, IsResume, encode_transcript-injective, encode_resume-injective,
  encode_transcript-ne-encode_resume,
}
use cubicle.Auth.{
  Resume, append_string, encode_resume, append_u64, encode_transcript, Transcript, append_u32,
  append_bytes,
}
use cubicle.Auth.Exact.{
  transcript_bytes, resume_bytes, encode_transcript-exact, encode_resume-exact,
}
use cubicle.Base.{length, ◌≡◌, ◌≢◌, ◌∷◌, replicate, refl, arith, none, some, ◌^◌, [], ◌+◌}

abbrev sample : Transcript
sample = record {
  protocol_major = 0;
  protocol_minor = 258;
  manager_public_key = replicate 32 1;
  client_public_key = replicate 32 2;
  client_nonce = replicate 32 3;
  manager_nonce = replicate 32 4;
  connection_id = replicate 16 5;
  capabilities = 2 ^ 32 + 7;
  manager_generation = 9;
  peer_uid = 1000;
  peer_gid = 1000;
  workspace_ref = b'w' ∷ b's' ∷ [];
}

abbrev resume : Resume
resume = record {
  manager_key_id = b'k' ∷ [];
  session_id = b's' ∷ b'1' ∷ [];
  client_nonce = replicate 32 3;
  server_nonce = replicate 32 4;
  connection_id = replicate 16 5;
  manager_generation = 9;
  peer_uid = 1000;
  peer_gid = 1000;
}

length-sample : length (transcript_bytes sample) ≡ 206
length-sample = refl

encode_sample : encode_transcript (some sample) (some 512) ≡ ok (transcript_bytes sample)
encode_sample = encode_transcript-exact 512 sample (omega arith) (omega arith)

encode_sample_full : encode_transcript (some sample) (some 205) ≡ err enospc
unfolding encode_transcript append_bytes append_u32 append_u64 append_string
encode_sample_full = refl

encode_transcript_null : encode_transcript none (some 512) ≡ err einval
unfolding encode_transcript
encode_transcript_null = refl

append_u64_runs : append_u64 8 (2 ^ 32 + 7) [] ≡ ok (0 ∷ 0 ∷ 0 ∷ 1 ∷ 0 ∷ 0 ∷ 0 ∷ 7 ∷ [])
unfolding append_u64 append_u32 append_bytes
append_u64_runs = refl

append_string_null : append_string 8 none (1 ∷ []) ≡ ok (1 ∷ 0 ∷ 0 ∷ 0 ∷ 0 ∷ [])
unfolding append_string append_u32 append_bytes
append_string_null = refl

sample-IsTranscript : IsTranscript sample
sample-IsTranscript = omega arith

resume-IsResume : IsResume resume
resume-IsResume = omega arith

encode_resume_sample : encode_resume (some resume) (some 512) ≡ ok (resume_bytes resume)
encode_resume_sample = encode_resume-exact 512 resume (omega arith) (omega arith) (omega arith)

encode_transcript-exact_example : encode_transcript (some sample) (some 100) ≡ err enospc
encode_transcript-exact_example = encode_transcript-exact 100 sample (omega arith) (omega arith)

encode_resume-exact_example : encode_resume (some resume) (some 142) ≡ ok (resume_bytes resume)
encode_resume-exact_example =
    encode_resume-exact 142 resume (omega arith) (omega arith) (omega arith)

encode_transcript-injective_example : ◌≡◌ {A = Transcript} sample sample
encode_transcript-injective_example =
    encode_transcript-injective 512 206 sample sample (omega arith) (omega arith)
      sample-IsTranscript sample-IsTranscript encode_sample
      (encode_transcript-exact 206 sample (omega arith) (omega arith))

encode_resume-injective_example : ◌≡◌ {A = Resume} resume resume
encode_resume-injective_example =
    encode_resume-injective 512 142 resume resume (omega arith) (omega arith) resume-IsResume
      resume-IsResume encode_resume_sample encode_resume-exact_example

encode_transcript-ne-encode_resume_example : transcript_bytes sample ≢ resume_bytes resume
encode_transcript-ne-encode_resume_example =
    encode_transcript-ne-encode_resume 512 512 sample resume (omega arith) (omega arith)
      sample-IsTranscript resume-IsResume encode_sample encode_resume_sample
