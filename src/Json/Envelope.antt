-- ===== src/Json/Envelope.antt =====
-- The request and success envelopes of src/common/rpc.c. Whether a text is a JSON value is for yyjson
-- to say: `fragment_valid` stands for `json_fragment_valid`.
use cubicle.Base.Result.{Result, err, ◌>>=◌, einval}
use cubicle.Base.{Option, codes, ℕ, Bytes, ◌==◌, some, if◌then◌else◌, [], none}
use cubicle.Json.Buffer.{append_raw, append_json_string}

abbrev request_prefix : Bytes
request_prefix = codes "{\"protocol_major\":0,\"protocol_minor\":1,\"request_id\":"

module _ (fragment_valid : Bytes → Result (Unit {0})) where
  -- The parts of the response behind the checks.
  unfoldable pub rpc_success : Option ℕ → Option Bytes → Option Bytes → Result Bytes
  unfolding append_raw append_json_string
  rpc_success (some n) (some request_id) (some result_json) = if n == 0 then err einval else (do
    valid ← fragment_valid result_json
    opened ← append_raw n [] (codes "{\"request_id\":")
    identified ← append_json_string n opened (some request_id)
    headed ← append_raw n identified (codes ",\"success\":true,\"result\":")
    filled ← append_raw n headed result_json
    append_raw n filled (codes "}"))
  rpc_success _ _ _ = err einval

  -- A null session is written as the empty text.
  unfoldable pub rpc_request :
      Option ℕ → Option Bytes → Option Bytes → Option Bytes → Option Bytes → Result Bytes
  unfolding append_raw append_json_string
  rpc_request (some n) (some request_id) session_id (some method) (some params_json) =
      if n == 0 then err einval else (do
        valid ← fragment_valid params_json
        opened ← append_raw n [] request_prefix
        identified ← append_json_string n opened (some request_id)
        session_key ← append_raw n identified (codes ",\"session_id\":")
        session ←
            append_json_string n session_key
              (some (elim session_id [ none ↦ [] | some given ↦ given ]))
        method_key ← append_raw n session (codes ",\"method\":")
        called ← append_json_string n method_key (some method)
        params_key ← append_raw n called (codes ",\"params\":")
        filled ← append_raw n params_key params_json
        append_raw n filled (codes "}"))
  rpc_request _ _ _ _ _ = err einval
