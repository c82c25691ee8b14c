-- ===== src/Ai/Transport.antt =====
-- What the providers use of net/http and encoding/json. The network is a function from requests to
-- responses; JSON texts are read and written by a record of functions.
use agenthub_skill_runtime.Base.{ℕ, Bool, true, false, [], Option, none, some, Bytes, codes}
use agenthub_skill_runtime.Base.Assoc.{Assoc}
use agenthub_skill_runtime.Executor.{Value, Error, leaf, prefixed, Result, ok, err, ◌>>=◌, or_wrap}

-- A POST request.
pub record Request : Type 0 where
  pub url : Bytes
  pub headers : Assoc Bytes
  pub body : Bytes

-- The bytes of a body, and the error with which reading it breaks off behind them.
pub record Body : Type 0 where
  pub bytes : Bytes
  pub failure : Option Error

pub record Response : Type 0 where
  pub status_code : ℕ
  pub body : Body

-- http.NewRequestWithContext's check of a request, and client.Do
pub record Network : Type 0 where
  pub reject : Request → Option Error
  pub send : Request → Result Response

-- json.Unmarshal of a text into a value, json.NewDecoder's first value of a body, and the text from
-- which a value was read, which json.RawMessage keeps.
pub record Codec : Type 0 where
  pub parse : Bytes → Result Value
  pub decode : Body → Result Value
  pub text : Value → Bytes

-- json.Valid
abbrev pub is_valid_json : Codec → Bytes → Bool
is_valid_json codec raw = elim (codec.parse raw) [ ok v ↦ true | err e ↦ false ]

-- resp.Body.Close(): what is read of a closed body is an error.
abbrev pub close_body : Response → Response
close_body resp = record resp {
  body = record { bytes = []; failure = some (leaf (codes "http: read on closed response body")) };
}

abbrev pub accepted : Bytes → Option Error → Result (Unit {0})
accepted what none = ok tt
accepted what (some e) = err (prefixed what e)

-- The request is created and sent; the two texts are put before an error.
unfoldable pub send_request : Bytes → Bytes → Network → Request → Result Response
send_request create_text do_text net req =
    accepted create_text (net.reject req) >>= λ _. or_wrap do_text (net.send req)
