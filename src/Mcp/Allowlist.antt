-- ===== src/Mcp/Allowlist.antt =====
-- internal/executor/mcp/executor.go: parseStdioCommandAllowlist and resolveStdioCommand, with
-- filepath.Clean and filepath.IsAbs for Unix paths. The file system is a parameter.
pub mod Safety
use agenthub_skill_runtime.Base.{
  ℕ, Bool, true, false, not, ◌&&◌, ◌||◌, List, [], ◌∷◌, ◌++◌, Option, none, some, Bytes, codes,
  is_empty, eqb, has_prefix, split_byte, trim_space, if◌then◌else◌,
}
use agenthub_skill_runtime.Base.Assoc.{Assoc, lookup, insert}
use agenthub_skill_runtime.Executor.{
  Error, leaf, prefixed, quote, Result, ok, err, ◌>>=◌, ◌>>◌, require, or_wrap,
}

-- One element of a path over the elements kept so far, the last one at the head.
abbrev pub clean_step : Bool → Bytes → List Bytes → List Bytes
clean_step rooted part stack =
    if is_empty part || eqb part (codes ".")
    then stack
    else if eqb part (codes "..")
    then (elim stack [
      | [] ↦ if rooted then [] else part ∷ []
      | top ∷ below ↦ if eqb top (codes "..") then part ∷ top ∷ below else below
    ])
    else part ∷ stack

unfoldable pub clean_parts : Bool → List Bytes → List Bytes → List Bytes
unfolding eqb
clean_parts rooted [] stack = stack
clean_parts rooted (part ∷ parts) stack = clean_parts rooted parts (clean_step rooted part stack)

unfoldable pub join_slash : List Bytes → Bytes
join_slash [] = []
join_slash (p ∷ []) = p
join_slash (p ∷ q ∷ more) = p ++ (b'/' ∷ join_slash (q ∷ more))

unfoldable pub reverse_parts : List Bytes → List Bytes → List Bytes
reverse_parts [] done = done
reverse_parts (p ∷ ps) done = reverse_parts ps (p ∷ done)

-- filepath.IsAbs(path)
abbrev pub is_abs : Bytes → Bool
is_abs path = has_prefix path (codes "/")

-- filepath.Clean(path)
unfoldable pub clean : Bytes → Bytes
unfolding clean_parts join_slash reverse_parts split_byte has_prefix
clean path =
    let rooted = is_abs path in
    let parts = reverse_parts (clean_parts rooted (split_byte path b'/') []) [] in
    let joined = join_slash parts in
    if rooted then b'/' ∷ joined else if is_empty joined then codes "." else joined

-- filepath.EvalSymlinks, and of os.Stat whether the file is regular and has an execute bit.
pub record FileSystem : Type 0 where
  pub eval_symlinks : Bytes → Result Bytes
  pub stat : Bytes → Result (Bool × Bool)

module _ (fs : FileSystem) where
  -- One entry of the list: the configured and the resolved path.
  unfoldable pub parse_entry : Bytes → Result (Bytes × Bytes)
  parse_entry item = do
    let configured = clean (trim_space item)
    require (is_abs configured)
        (leaf (codes "command " ++ (quote item ++ codes " must be an absolute path")))
    resolved ←
        or_wrap (codes "command " ++ (quote configured ++ codes ": ")) (fs.eval_symlinks configured)
    info ← or_wrap (codes "command " ++ (quote resolved ++ codes ": ")) (fs.stat resolved)
    require (info.0 && info.1) (
        leaf (codes "command " ++ (quote configured ++ codes " is not an executable regular file")))
    ok (configured, resolved)

  unfoldable pub parse_entries : List Bytes → Assoc Bytes → Result (Assoc Bytes)
  unfolding parse_entry
  parse_entries [] allowlist = ok allowlist
  parse_entries (item ∷ items) allowlist =
      parse_entry item >>= λ p. parse_entries items (insert p.0 p.1 allowlist)

  -- parseStdioCommandAllowlist
  unfoldable pub parse_allowlist : Bytes → Result (Assoc Bytes)
  unfolding parse_entries
  parse_allowlist raw =
      if is_empty (trim_space raw) then ok [] else parse_entries (split_byte raw b',') []

abbrev pub allowed_command : Option Bytes → Result Bytes
allowed_command none = err (leaf (codes "command is not in the deployment allowlist"))
allowed_command (some resolved) = ok resolved

-- resolveStdioCommand
unfoldable pub resolve_command : Bytes → Assoc Bytes → Result Bytes
resolve_command command allowlist = do
  let configured = clean (trim_space command)
  require (is_abs configured) (leaf (codes "command must be an absolute path"))
  allowed_command (lookup configured allowlist)
