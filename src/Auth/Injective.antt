-- ===== src/Auth/Injective.antt =====
-- The signed byte strings determine what they stand for.
use cubicle.Base.Result.{ok, err, enospc}
use cubicle.Auth.Exact.{
  transcript_bytes, resume_bytes, encode_resume-exact, encode_transcript-exact,
}
use cubicle.Auth.Writer.{u64_bytes, string_bytes}
use cubicle.Base.{
  ℕ, List, Bytes, ◌∷◌, length, ◌<◌, ◌≡◌, ◌^◌, ◌++◌, ◌/◌, arith, append-injective, ◌%◌, size_mod,
  append-nil, some, ◌∙◌, sym, Bool-cases, if◌then◌else◌, ◌≢◌, leb, ap, inl, refl, inr, get_or,
}
use cubicle.Auth.{
  Resume, Transcript, u32_bytes, resume_domain, encode_transcript, encode_resume, auth_domain,
}

-- The ranges that the C types of the fields give; `uid_t` and `gid_t` fit in 64 bits.
pub record IsTranscript (t : Transcript) : Type 0 where
  pub major_range : t.protocol_major < 2 ^ 32
  pub minor_range : t.protocol_minor < 2 ^ 32
  pub manager_key_size : length t.manager_public_key ≡ 32
  pub client_key_size : length t.client_public_key ≡ 32
  pub client_nonce_size : length t.client_nonce ≡ 32
  pub manager_nonce_size : length t.manager_nonce ≡ 32
  pub connection_size : length t.connection_id ≡ 16
  pub capabilities_range : t.capabilities < 2 ^ 64
  pub generation_range : t.manager_generation < 2 ^ 64
  pub uid_range : t.peer_uid < 2 ^ 64
  pub gid_range : t.peer_gid < 2 ^ 64
  pub workspace_size : length t.workspace_ref < 256

-- The same for a resume request; the two identifiers are `char[33]`.
pub record IsResume (r : Resume) : Type 0 where
  pub key_id_size : length r.manager_key_id < 33
  pub session_size : length r.session_id < 33
  pub client_nonce_size : length r.client_nonce ≡ 32
  pub server_nonce_size : length r.server_nonce ≡ 32
  pub connection_size : length r.connection_id ≡ 16
  pub generation_range : r.manager_generation < 2 ^ 64
  pub uid_range : r.peer_uid < 2 ^ 64
  pub gid_range : r.peer_gid < 2 ^ 64

heads {ℓ} : {A : Type ℓ} {x y : A} {xs ys : List A} → x ∷ xs ≡ y ∷ ys → (x ≡ y) × (xs ≡ ys)
heads e = (cc, cc)

u32_bytes-injective :
    {a b : ℕ} {us vs : Bytes}
    → a < 2 ^ 32
    → b < 2 ^ 32
    → u32_bytes a ++ us ≡ u32_bytes b ++ vs
    → (a ≡ b) × (us ≡ vs)
u32_bytes-injective ha hb e =
    let (e0, r0) = heads e in
    let (e1, r1) = heads r0 in
    let (e2, r2) = heads r1 in let (e3, r3) = heads r2 in (omega arith, r3)

u64_bytes-injective :
    {a b : ℕ} {us vs : Bytes}
    → a < 2 ^ 64
    → b < 2 ^ 64
    → u64_bytes a ++ us ≡ u64_bytes b ++ vs
    → (a ≡ b) × (us ≡ vs)
u64_bytes-injective {a} {b} ha hb e =
    let (high, r) =
      u32_bytes-injective {a = a / 2 ^ 32 % 2 ^ 32} {b = b / 2 ^ 32 % 2 ^ 32} (omega arith)
        (omega arith) e in
    let (low, rest) =
      u32_bytes-injective {a = a % 2 ^ 32} {b = b % 2 ^ 32} (omega arith) (omega arith) r in
    (omega arith, rest)

string_bytes-injective :
    {s t us vs : Bytes}
    → length s < 2 ^ 32
    → length t < 2 ^ 32
    → string_bytes s ++ us ≡ string_bytes t ++ vs
    → (s ≡ t) × (us ≡ vs)
string_bytes-injective {s} {t} hs ht e =
    let (sizes, r) = u32_bytes-injective hs ht e in append-injective s t sizes r

transcript_bytes-injective :
    (t u : Transcript)
    → IsTranscript t
    → IsTranscript u
    → transcript_bytes t ≡ transcript_bytes u
    → t ≡ u
transcript_bytes-injective t u ht hu e =
    let (_, r0) = append-injective auth_domain auth_domain refl e in
    let (e1, r1) = u32_bytes-injective ht.major_range hu.major_range r0 in
    let (e2, r2) = u32_bytes-injective ht.minor_range hu.minor_range r1 in
    let (e3, r3) = append-injective t.manager_public_key u.manager_public_key (omega arith) r2 in
    let (e4, r4) = append-injective t.client_public_key u.client_public_key (omega arith) r3 in
    let (e5, r5) = append-injective t.client_nonce u.client_nonce (omega arith) r4 in
    let (e6, r6) = append-injective t.manager_nonce u.manager_nonce (omega arith) r5 in
    let (e7, r7) = append-injective t.connection_id u.connection_id (omega arith) r6 in
    let (e8, r8) = u64_bytes-injective ht.capabilities_range hu.capabilities_range r7 in
    let (e9, r9) = u64_bytes-injective ht.generation_range hu.generation_range r8 in
    let (e10, r10) = u64_bytes-injective ht.uid_range hu.uid_range r9 in
    let (e11, r11) = u64_bytes-injective ht.gid_range hu.gid_range r10 in
    let (_, e12) = u32_bytes-injective (short ht.workspace_size) (short hu.workspace_size) r11 in
    λ i. record {
      protocol_major = e1 i;
      protocol_minor = e2 i;
      manager_public_key = e3 i;
      client_public_key = e4 i;
      client_nonce = e5 i;
      manager_nonce = e6 i;
      connection_id = e7 i;
      capabilities = e8 i;
      manager_generation = e9 i;
      peer_uid = e10 i;
      peer_gid = e11 i;
      workspace_ref = e12 i;
    }
  where
    short : {n : ℕ} → n < 256 → n < 2 ^ 32
    short h = omega arith

resume_bytes-injective :
    (r s : Resume) → IsResume r → IsResume s → resume_bytes r ≡ resume_bytes s → r ≡ s
resume_bytes-injective r s hr hs e =
    let (_, r0) = append-injective resume_domain resume_domain refl e in
    let (e1, r1) =
      string_bytes-injective {s = r.manager_key_id} {t = s.manager_key_id} (short hr.key_id_size)
        (short hs.key_id_size) r0 in
    let (e2, r2) =
      string_bytes-injective {s = r.session_id} {t = s.session_id} (short hr.session_size)
        (short hs.session_size) r1 in
    let (e3, r3) = append-injective r.client_nonce s.client_nonce (omega arith) r2 in
    let (e4, r4) = append-injective r.server_nonce s.server_nonce (omega arith) r3 in
    let (e5, r5) = append-injective r.connection_id s.connection_id (omega arith) r4 in
    let (e6, r6) = u64_bytes-injective hr.generation_range hs.generation_range r5 in
    let (e7, r7) = u64_bytes-injective hr.uid_range hs.uid_range r6 in
    let (e8, _) =
      u64_bytes-injective hr.gid_range hs.gid_range
        (append-nil (u64_bytes r.peer_gid) ∙ r7 ∙ sym (append-nil (u64_bytes s.peer_gid))) in
    λ i. record {
      manager_key_id = e1 i;
      session_id = e2 i;
      client_nonce = e3 i;
      server_nonce = e4 i;
      connection_id = e5 i;
      manager_generation = e6 i;
      peer_uid = e7 i;
      peer_gid = e8 i;
    }
  where
    short : {n : ℕ} → n < 33 → n < 2 ^ 32
    short h = omega arith

-- A successful encoding is the byte string of its request.
encode_transcript-bytes :
    (n : ℕ) (t : Transcript) {b : Bytes}
    → n < size_mod
    → IsTranscript t
    → encode_transcript (some t) (some n) ≡ ok b
    → transcript_bytes t ≡ b
encode_transcript-bytes n t small h e = elim (Bool-cases (leb (length (transcript_bytes t)) n)) [
  | inl fits ↦
      cc (e, rw fits at (encode_transcript-exact n t small (omega (arith, h.workspace_size))))
  | inr over ↦
      cc (e, rw over at (encode_transcript-exact n t small (omega (arith, h.workspace_size))))
]

encode_resume-bytes :
    (n : ℕ) (r : Resume) {b : Bytes}
    → n < size_mod
    → IsResume r
    → encode_resume (some r) (some n) ≡ ok b
    → resume_bytes r ≡ b
encode_resume-bytes n r small h e = elim (Bool-cases (leb (length (resume_bytes r)) n)) [
  | inl fits ↦ cc (e, rw fits at exact)
  | inr over ↦ cc (e, rw over at exact)
]
  where
    exact :
        encode_resume (some r) (some n)
        ≡ (if leb (length (resume_bytes r)) n then ok (resume_bytes r) else err enospc)
    exact =
        encode_resume-exact n r small (omega (arith, h.key_id_size)) (omega (arith, h.session_size))

-- Two transcripts that encode to the same bytes are the same transcript: no two handshakes share
-- what is signed. The buffers may differ in size; the fields have the sizes of their C types.
pub encode_transcript-injective :
    (n m : ℕ) (t u : Transcript) {b : Bytes}
    → n < size_mod
    → m < size_mod
    → IsTranscript t
    → IsTranscript u
    → encode_transcript (some t) (some n) ≡ ok b
    → encode_transcript (some u) (some m) ≡ ok b
    → t ≡ u
encode_transcript-injective n m t u sn sm ht hu et eu =
    transcript_bytes-injective t u ht hu
      (encode_transcript-bytes n t sn ht et ∙ sym (encode_transcript-bytes m u sm hu eu))

-- Two resume requests that encode to the same bytes are the same request, though both hold two
-- texts of varying length. The buffers may differ in size; the fields have the sizes of their C
-- types.
pub encode_resume-injective :
    (n m : ℕ) (r s : Resume) {b : Bytes}
    → n < size_mod
    → m < size_mod
    → IsResume r
    → IsResume s
    → encode_resume (some r) (some n) ≡ ok b
    → encode_resume (some s) (some m) ≡ ok b
    → r ≡ s
encode_resume-injective n m r s sn sm hr hs er es =
    resume_bytes-injective r s hr hs
      (encode_resume-bytes n r sn hr er ∙ sym (encode_resume-bytes m s sm hs es))

-- What a transcript and what a resume request encode to are never the same bytes, so a signature on
-- one is none on the other.
pub encode_transcript-ne-encode_resume :
    (n m : ℕ) (t : Transcript) (r : Resume) {b c : Bytes}
    → n < size_mod
    → m < size_mod
    → IsTranscript t
    → IsResume r
    → encode_transcript (some t) (some n) ≡ ok b
    → encode_resume (some r) (some m) ≡ ok c
    → b ≢ c
encode_transcript-ne-encode_resume n m t r sn sm ht hr et er e =
    differ (encode_transcript-bytes n t sn ht et ∙ e ∙ sym (encode_resume-bytes m r sm hr er))
  where
    differ : transcript_bytes t ≡ resume_bytes r → ⊥
    differ d =
        let letters : ◌≡◌ {A = ℕ} b'A' b'R' = ap (λ (l : Bytes). get_or l 8 0) d in
        absurd (omega arith)
