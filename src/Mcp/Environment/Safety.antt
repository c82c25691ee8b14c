-- ===== src/Mcp/Environment/Safety.antt =====
-- What the environment of a child process holds.
use agenthub_skill_runtime.Base.{
  ◌≡◌, sym, ◌∙◌, ap, ◌↔◌, true, List, [], ◌∷◌, ◌++◌, Bytes, codes, map, all, All, All-map, arith,
  Bool-cases, inl, inr, append_assoc, append-nil,
}
use agenthub_skill_runtime.Base.Assoc.{Assoc}
use agenthub_skill_runtime.Http.Query.{sort_keys}
use agenthub_skill_runtime.Http.Query.Sorting.{All-sort_keys_iff}
use agenthub_skill_runtime.Executor.{ok}
use agenthub_skill_runtime.Mcp.Environment.Names.{
  IsAcceptable, is_acceptable-IsAcceptable, IsAcceptable-is_acceptable,
}
use agenthub_skill_runtime.Mcp.Environment.{
  default_stdio_command_path, is_acceptable, add_entries, stdio_environment,
}

abbrev pub assignment : Bytes × Bytes → Bytes
assignment p = p.0 ++ (b'=' ∷ p.1)

abbrev Passes : Bytes × Bytes → Type 0
Passes p = is_acceptable p.0 p.1 ≡ true

add_entries-ok :
    (entries : List Bytes) (m : Assoc Bytes) (r : List Bytes)
    → add_entries entries m ≡ ok r
    → All Passes m × (r ≡ entries ++ map assignment m)
unfolding add_entries
add_entries-ok entries [] r h = (tt, ground (arith, append-nil entries))
add_entries-ok entries ((k, v) ∷ m) r h = elim (Bool-cases (is_acceptable k v)) [
  | inl good ↦
      let (all, e) = add_entries-ok (entries ++ assignment (k, v) ∷ []) m r (ground arith) in
      ((good, all), e ∙ append_assoc entries (assignment (k, v) ∷ []) (map assignment m))
  | inr bad ↦ absurd (ground arith)
]

ok-add_entries :
    (entries : List Bytes) (m : Assoc Bytes)
    → All Passes m
    → add_entries entries m ≡ ok (entries ++ map assignment m)
unfolding add_entries
ok-add_entries entries [] h = ap ok (sym (append-nil entries))
ok-add_entries entries ((k, v) ∷ m) (good, h) = rw good (
    ok-add_entries (entries ++ assignment (k, v) ∷ []) m h
    ∙ ap ok (append_assoc entries (assignment (k, v) ∷ []) (map assignment m)))

abbrev path_entry : List Bytes
path_entry = (codes "PATH=" ++ default_stdio_command_path) ∷ []

-- A child process gets an environment exactly if every configured variable has a name of letters,
-- digits and underscores that does not begin with a digit, is in no case of its letters PATH, ENV,
-- BASH_ENV, NODE_OPTIONS, RUBYOPT, PERL5OPT or GODEBUG and begins in no case with LD_, DYLD_ or PYTHON, and
-- a value without a zero byte; it is then the fixed PATH and behind it exactly the configured variables, as
-- they were sorted.
pub stdio_environment_iff :
    (values : Assoc Bytes) (env : List Bytes)
    → (stdio_environment values ≡ ok env) ↔ (
        All IsAcceptable values
        × (env
            ≡ codes "PATH=/usr/local/sbin:/usr/local/bin:/usr/sbin:/usr/bin:/sbin:/bin"
              ∷ map assignment (sort_keys values)))
unfolding stdio_environment
stdio_environment_iff values env = (
  λ h.
      let (passed, e) = add_entries-ok path_entry (sort_keys values) env h in
      (
        All-map Passes IsAcceptable is_acceptable-IsAcceptable values
            ((All-sort_keys_iff Passes values).0 passed),
        e,
      ),
  λ h.
      ok-add_entries path_entry (sort_keys values) (
        (All-sort_keys_iff Passes values).1
          (All-map IsAcceptable Passes IsAcceptable-is_acceptable values h.0))
      ∙ ap ok (sym h.1),
)
