-- ===== src/Ai/Decode.antt =====
-- encoding/json into the structs of the providers' answers: null leaves a struct as it is and makes
-- a list or pointer nil. A struct or list starts from zero values.
use agenthub_skill_runtime.Base.{List, [], ◌∷◌, Option, none, some, Bytes, codes}
use agenthub_skill_runtime.Executor.{
  Value, null, arr, obj, Values, nil, cons, Object, Result, ok, err, ◌>>=◌, type_error,
  decode_field, string_field,
}
use agenthub_skill_runtime.Ai.{ToolCall, ToolFunction}

-- A struct that `read` reads from an object.
abbrev pub set_struct {ℓ} : {A : Type ℓ} → (Object → Result A) → Value → A → Result A
set_struct read null a = ok a
set_struct read (obj o) a = read o
set_struct read _ a = err type_error

-- A pointer to a struct.
abbrev pub set_pointer {ℓ} :
    {A : Type ℓ} → (Object → Result A) → Value → Option A → Result (Option A)
set_pointer read null a = ok none
set_pointer read (obj o) a = read o >>= λ b. ok (some b)
set_pointer read _ a = err type_error

unfoldable pub structs_from {ℓ} : {A : Type ℓ} → (Object → Result A) → A → Values → Result (List A)
structs_from read zero nil = ok []
structs_from read zero (cons v vs) =
    set_struct read v zero >>= λ a. structs_from read zero vs >>= λ more. ok (a ∷ more)

-- A list of structs.
abbrev pub set_structs {ℓ} :
    {A : Type ℓ} → (Object → Result A) → A → Value → List A → Result (List A)
set_structs read zero null xs = ok []
set_structs read zero (arr vs) xs = structs_from read zero vs
set_structs read zero _ xs = err type_error

-- map[string]any
abbrev pub set_map : Value → Option Object → Result (Option Object)
set_map null m = ok none
set_map (obj o) m = ok (some o)
set_map _ m = err type_error

abbrev pub struct_field {ℓ} : {A : Type ℓ} → Bytes → (Object → Result A) → A → Object → Result A
struct_field name read zero o = decode_field name (set_struct read) o zero

abbrev pub pointer_field {ℓ} :
    {A : Type ℓ} → Bytes → (Object → Result A) → Object → Result (Option A)
pointer_field name read o = decode_field name (set_pointer read) o none

abbrev pub structs_field {ℓ} :
    {A : Type ℓ} → Bytes → (Object → Result A) → A → Object → Result (List A)
structs_field name read zero o = decode_field name (set_structs read zero) o []

abbrev pub no_function : ToolFunction
no_function = record { name = []; arguments = [] }

abbrev pub no_tool_call : ToolCall
no_tool_call = record { id = []; kind = []; function = no_function }

unfoldable pub read_function : Object → Result ToolFunction
read_function o = do
  name ← string_field (codes "name") o
  arguments ← string_field (codes "arguments") o
  ok (record { name = name; arguments = arguments })

-- A tool call has the same tags in internal/ai/model.go and in the answers of OpenAI.
unfoldable pub read_tool_call : Object → Result ToolCall
unfolding read_function
read_tool_call o = do
  id ← string_field (codes "id") o
  kind ← string_field (codes "type") o
  function ← struct_field (codes "function") read_function no_function o
  ok (record { id = id; kind = kind; function = function })
