-- ===== src/Mcp/Environment.antt =====
-- internal/executor/mcp/executor.go: stdioEnvironment, isPOSIXEnvName, isProtectedStdioEnvName.
pub mod Names
pub mod Safety
use agenthub_skill_runtime.Base.{
  ℕ, Bool, true, false, not, ◌&&◌, ◌||◌, List, [], ◌∷◌, ◌++◌, Bytes, codes, any, eqb, has_prefix,
  to_upper, contains_byte, leb, ◌==◌, if◌then◌else◌,
}
use agenthub_skill_runtime.Base.Assoc.{Assoc}
use agenthub_skill_runtime.Http.Query.{sort_keys}
use agenthub_skill_runtime.Executor.{Result, ok, err, leaf, quote, ◌>>=◌}

abbrev pub default_stdio_command_path : Bytes
default_stdio_command_path = codes "/usr/local/sbin:/usr/local/bin:/usr/sbin:/usr/bin:/sbin:/bin"

abbrev pub is_name_start : ℕ → Bool
is_name_start c = (leb b'A' c && leb c b'Z') || (leb b'a' c && leb c b'z') || c == b'_'

abbrev pub is_name_byte : ℕ → Bool
is_name_byte c = is_name_start c || (leb b'0' c && leb c b'9')

unfoldable pub all_name_bytes : Bytes → Bool
all_name_bytes [] = true
all_name_bytes (c ∷ s) = is_name_byte c && all_name_bytes s

-- isPOSIXEnvName
unfoldable pub is_posix_env_name : Bytes → Bool
unfolding all_name_bytes
is_posix_env_name [] = false
is_posix_env_name (c ∷ s) = is_name_start c && all_name_bytes s

abbrev pub protected_names : List Bytes
protected_names =
    codes "PATH"
    ∷ codes "ENV"
    ∷ codes "BASH_ENV"
    ∷ codes "NODE_OPTIONS"
    ∷ codes "RUBYOPT"
    ∷ codes "PERL5OPT"
    ∷ codes "GODEBUG"
    ∷ []

abbrev pub protected_prefixes : List Bytes
protected_prefixes = codes "LD_" ∷ codes "DYLD_" ∷ codes "PYTHON" ∷ []

-- isProtectedStdioEnvName
unfoldable pub is_protected_env_name : Bytes → Bool
is_protected_env_name name =
    let normalized = to_upper name in
    any (λ n. eqb normalized n) protected_names
    || any (λ p. has_prefix normalized p) protected_prefixes

-- The test of one variable, the value's zero byte included.
abbrev pub is_acceptable : Bytes → Bytes → Bool
is_acceptable key value =
    not (not (is_posix_env_name key) || is_protected_env_name key || contains_byte value 0)

-- The loop over the sorted keys, with the entries so far.
unfoldable pub add_entries : List Bytes → Assoc Bytes → Result (List Bytes)
add_entries entries [] = ok entries
add_entries entries ((key, value) ∷ more) =
    let rest = add_entries (entries ++ (key ++ (b'=' ∷ value)) ∷ []) more in
    if is_acceptable key value then rest else err (leaf (quote key))

-- stdioEnvironment
unfoldable pub stdio_environment : Assoc Bytes → Result (List Bytes)
unfolding add_entries sort_keys is_posix_env_name is_protected_env_name contains_byte
stdio_environment values =
    add_entries ((codes "PATH=" ++ default_stdio_command_path) ∷ []) (sort_keys values)
