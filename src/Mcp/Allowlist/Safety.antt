-- ===== src/Mcp/Allowlist/Safety.antt =====
-- Which programs a configuration can start.
use mathlib.Core.Path.{subst, subst₂}
use agenthub_skill_runtime.Base.{
  ◌≡◌, ◌∙◌, ◌⊎◌, Any, here, there, true, List, [], ◌∷◌, some, Bytes, eqb, eqb→eq, is_empty,
  split_byte, trim_space, arith, Bool-cases, inl, inr,
}
use agenthub_skill_runtime.Base.Assoc.{Assoc, lookup, insert, lookup-insert}
use agenthub_skill_runtime.Executor.{ok, Result-cases}
use agenthub_skill_runtime.Mcp.Allowlist.{
  is_abs, clean, FileSystem, parse_entry, parse_entries, parse_allowlist, resolve_command,
}

module _ (fs : FileSystem) where
  -- A pair of the allowlist: an absolute path and the executable regular file that it names.
  pub record IsVetted (configured resolved : Bytes) : Type 0 where
    pub absolute : is_abs configured ≡ true
    pub named : fs.eval_symlinks configured ≡ ok resolved
    pub executable : fs.stat resolved ≡ ok (true, true)

  parse_entry-IsVetted :
      (item : Bytes) (p : Bytes × Bytes) → parse_entry fs item ≡ ok p → IsVetted p.0 p.1
  unfolding parse_entry
  parse_entry-IsVetted item p h = ground arith

  abbrev AreVetted : Assoc Bytes → Type 0
  AreVetted m = (k r : Bytes) → lookup k m ≡ some r → IsVetted k r

  AreVetted-insert :
      (k r : Bytes) (m : Assoc Bytes) → IsVetted k r → AreVetted m → AreVetted (insert k r m)
  AreVetted-insert k r m v h j s found = elim (Bool-cases (eqb k j)) [
    | inl same ↦ subst₂ IsVetted (eqb→eq k j same) (ground (arith, lookup-insert k j r m)) v
    | inr other ↦ h j s (ground (arith, lookup-insert k j r m))
  ]

  parse_entries-AreVetted :
      (items : List Bytes) (m r : Assoc Bytes)
      → parse_entries fs items m ≡ ok r
      → AreVetted m
      → AreVetted r
  unfolding parse_entries
  parse_entries-AreVetted [] m r h v = subst AreVetted (ground arith) v
  parse_entries-AreVetted (item ∷ items) m r h v = elim (Result-cases (parse_entry fs item)) [
    | inl (p, q) ↦
        parse_entries-AreVetted items (insert p.0 p.1 m) r (ground arith)
          (AreVetted-insert p.0 p.1 m (parse_entry-IsVetted item p q) v)
    | inr (x, q) ↦ absurd (ground arith)
  ]

  none_vetted : AreVetted []
  none_vetted k r h = unfold lookup in absurd (cc)

  parse_allowlist-AreVetted :
      (raw : Bytes) (m : Assoc Bytes) → parse_allowlist fs raw ≡ ok m → AreVetted m
  unfolding parse_allowlist
  parse_allowlist-AreVetted raw m h = elim (Bool-cases (is_empty (trim_space raw))) [
    | inl nothing ↦ subst AreVetted {x = []} (ground arith) none_vetted
    | inr some_text ↦ parse_entries-AreVetted (split_byte raw b',') [] m (ground arith) none_vetted
  ]

  -- With the allowlist of the deployment, the program that a configured command resolves to is the
  -- one to which the absolute, cleaned path of that command led when the list was read, and it was an
  -- executable regular file.
  pub resolve_command-IsVetted :
      (raw command program : Bytes) (allowlist : Assoc Bytes)
      → parse_allowlist fs raw ≡ ok allowlist
      → resolve_command command allowlist ≡ ok program
      → IsVetted (clean (trim_space command)) program
  resolve_command-IsVetted raw command program allowlist h r =
      parse_allowlist-AreVetted raw allowlist h (clean (trim_space command)) program
        (unfold resolve_command in ground arith)

  -- The items of the list that name the command's path.
  abbrev pub IsListed : Bytes → Bytes → Type 0
  IsListed raw command =
      Any (λ (item : Bytes). clean (trim_space item) ≡ clean (trim_space command))
        (split_byte raw b',')

  parse_entry-clean :
      (item : Bytes) (p : Bytes × Bytes)
      → parse_entry fs item ≡ ok p
      → clean (trim_space item) ≡ p.0
  unfolding parse_entry
  parse_entry-clean item p h = ground arith

  parse_entries-Any :
      (items : List Bytes) (m r : Assoc Bytes) (k v : Bytes)
      → parse_entries fs items m ≡ ok r
      → lookup k r ≡ some v
      → (lookup k m ≡ some v) ⊎ Any (λ (item : Bytes). clean (trim_space item) ≡ k) items
  unfolding parse_entries
  parse_entries-Any [] m r k v h found = inl (ground arith)
  parse_entries-Any (item ∷ items) m r k v h found = elim (Result-cases (parse_entry fs item)) [
    | inr (x, q) ↦ absurd (ground arith)
    | inl (p, q) ↦ elim (parse_entries-Any items (insert p.0 p.1 m) r k v (ground arith) found) [
      | inr i ↦ inr (there i)
      | inl old ↦ elim (Bool-cases (eqb p.0 k)) [
        | inl same ↦ inr (here (parse_entry-clean item p q ∙ eqb→eq p.0 k same))
        | inr other ↦ inl (ground (arith, lookup-insert p.0 k p.1 m))
      ]
    ]
  ]

  nothing_found : (k v : Bytes) → lookup {V = Bytes} k [] ≡ some v → ⊥
  nothing_found k v h = unfold lookup in absurd (cc)

  -- A command that resolves stands on the deployment's list.
  pub resolve_command-IsListed :
      (raw command program : Bytes) (allowlist : Assoc Bytes)
      → parse_allowlist fs raw ≡ ok allowlist
      → resolve_command command allowlist ≡ ok program
      → IsListed raw command
  unfolding parse_allowlist resolve_command
  resolve_command-IsListed raw command program allowlist h r =
      let found : lookup (clean (trim_space command)) allowlist ≡ some program = ground arith in
      elim (Bool-cases (is_empty (trim_space raw))) [
        | inl nothing ↦
            let none_listed : allowlist ≡ [] = ground arith in
            absurd (
              nothing_found (clean (trim_space command)) program (
                subst (λ m. lookup (clean (trim_space command)) m ≡ some program) none_listed
                  found))
        | inr some_text ↦
            elim (parse_entries-Any (split_byte raw b',') [] allowlist (clean (trim_space command))
              program (ground arith) found) [
                | inl q ↦ absurd (nothing_found (clean (trim_space command)) program q)
                | inr i ↦ i
              ]
      ]
