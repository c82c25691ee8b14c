-- ===== src/Mcp/Environment/Names.antt =====
-- Which variables of the environment a server's configuration may set.
use agenthub_skill_runtime.Base.{
  ℕ, ◌≤◌, ◌≡◌, ◌≢◌, refl, ◌⊎◌, inl, inr, Bool, true, false, ◌||◌, List, [], ◌∷◌, ◌++◌, Bytes, codes,
  any, eqb, eqb→eq, eq→eqb, to_upper, has_prefix, has_prefix→append, contains_byte, All, Any, here,
  there, Bool-cases, arith,
}
use agenthub_skill_runtime.Http.Query.Naming.{has_prefix-append}
use agenthub_skill_runtime.Mcp.Environment.{
  protected_names, protected_prefixes, all_name_bytes, is_posix_env_name, is_protected_env_name,
  is_acceptable,
}

-- A letter or an underscore.
abbrev pub IsNameStart : ℕ → Type 0
IsNameStart c = ((b'A' ≤ c) × (c ≤ b'Z')) ⊎ ((b'a' ≤ c) × (c ≤ b'z')) ⊎ (c ≡ b'_')

abbrev pub IsNameByte : ℕ → Type 0
IsNameByte c = IsNameStart c ⊎ ((b'0' ≤ c) × (c ≤ b'9'))

abbrev pub IsPosixName : Bytes → Type 0
IsPosixName [] = ⊥
IsPosixName (c ∷ s) = IsNameStart c × All IsNameByte s

-- A variable that an interpreter or the loader reads before the program runs, in any case of its
-- letters.
pub data IsProtected (name : Bytes) : Type 0 where
  reserved :
      Any
        (λ (n : Bytes). to_upper name ≡ n)
        (codes "PATH"
          ∷ codes "ENV"
          ∷ codes "BASH_ENV"
          ∷ codes "NODE_OPTIONS"
          ∷ codes "RUBYOPT"
          ∷ codes "PERL5OPT"
          ∷ codes "GODEBUG"
          ∷ [])
      → IsProtected name
  of_family :
      Any
        (λ (p : Bytes). (rest : Bytes) × (to_upper name ≡ p ++ rest))
        (codes "LD_" ∷ codes "DYLD_" ∷ codes "PYTHON" ∷ [])
      → IsProtected name

pub record IsAcceptable (p : Bytes × Bytes) : Type 0 where
  pub posix : IsPosixName p.0
  pub unprotected : IsProtected p.0 → ⊥
  pub no_zero : All (λ (c : ℕ). c ≢ 0) p.1

module _ (test : Bytes → Bool) (P : Bytes → Type 0) where
  any-Any : ((s : Bytes) → test s ≡ true → P s) → (xs : List Bytes) → any test xs ≡ true → Any P xs
  any-Any f [] h = absurd (cc)
  any-Any f (x ∷ xs) h = elim (Bool-cases (test x)) [
    | inl q ↦ here (f x q)
    | inr n ↦ there (any-Any f xs (ground (arith, h, n)))
  ]

  Any-any : ((s : Bytes) → P s → test s ≡ true) → (xs : List Bytes) → Any P xs → any test xs ≡ true
  Any-any f [] i = elim i [ ]
  Any-any f (x ∷ xs) (here p) = ground (arith, f x p)
  Any-any f (x ∷ xs) (there i) = ground (arith, Any-any f xs i)

right : (a : Bool) {b : Bool} → b ≡ true → (a || b) ≡ true
right true h = refl
right false h = h

is_protected_env_name-IsProtected :
    (name : Bytes) → is_protected_env_name name ≡ true → IsProtected name
unfolding is_protected_env_name
is_protected_env_name-IsProtected name h =
    elim (Bool-cases (any (λ n. eqb (to_upper name) n) protected_names)) [
      | inl q ↦ reserved (
          any-Any (λ n. eqb (to_upper name) n) (λ n. to_upper name ≡ n)
            (λ n e. eqb→eq (to_upper name) n e) protected_names q)
      | inr other ↦ of_family (
          any-Any (λ p. has_prefix (to_upper name) p)
            (λ p. (rest : Bytes) × (to_upper name ≡ p ++ rest))
            (λ p e. has_prefix→append (to_upper name) p e) protected_prefixes
            (ground (arith, h, other)))
    ]

IsProtected-is_protected_env_name :
    (name : Bytes) → IsProtected name → is_protected_env_name name ≡ true
unfolding is_protected_env_name
IsProtected-is_protected_env_name name (reserved i) =
    let q =
      Any-any (λ n. eqb (to_upper name) n) (λ n. to_upper name ≡ n)
        (λ n e. eq→eqb (to_upper name) n e) protected_names i in
    rw q refl
IsProtected-is_protected_env_name name (of_family i) =
    let q =
      Any-any (λ p. has_prefix (to_upper name) p)
        (λ p. (rest : Bytes) × (to_upper name ≡ p ++ rest))
        (λ p (rest, e). rw e (has_prefix-append p rest)) protected_prefixes i in
    right (any (λ n. eqb (to_upper name) n) protected_names) q

name_bytes-All : (s : Bytes) → all_name_bytes s ≡ true → All IsNameByte s
unfolding all_name_bytes
name_bytes-All [] h = tt
name_bytes-All (c ∷ s) h = (ground arith, name_bytes-All s (ground arith))

All-name_bytes : (s : Bytes) → All IsNameByte s → all_name_bytes s ≡ true
unfolding all_name_bytes
All-name_bytes [] h = refl
All-name_bytes (c ∷ s) (h, hs) = ground (arith, All-name_bytes s hs)

is_posix_env_name-IsPosixName : (s : Bytes) → is_posix_env_name s ≡ true → IsPosixName s
unfolding is_posix_env_name
is_posix_env_name-IsPosixName [] h = absurd (cc)
is_posix_env_name-IsPosixName (c ∷ s) h = (ground arith, name_bytes-All s (ground arith))

IsPosixName-is_posix_env_name : (s : Bytes) → IsPosixName s → is_posix_env_name s ≡ true
unfolding is_posix_env_name
IsPosixName-is_posix_env_name [] h = absurd h
IsPosixName-is_posix_env_name (c ∷ s) (h, hs) = ground (arith, All-name_bytes s hs)

no_byte-All : (s : Bytes) → contains_byte s 0 ≡ false → All (λ (c : ℕ). c ≢ 0) s
unfolding contains_byte
no_byte-All [] h = tt
no_byte-All (c ∷ s) h = (ground arith, no_byte-All s (ground arith))

All-no_byte : (s : Bytes) → All (λ (c : ℕ). c ≢ 0) s → contains_byte s 0 ≡ false
unfolding contains_byte
All-no_byte [] h = refl
All-no_byte (c ∷ s) (h, hs) = ground (arith, All-no_byte s hs)

pub is_acceptable-IsAcceptable : (p : Bytes × Bytes) → is_acceptable p.0 p.1 ≡ true → IsAcceptable p
is_acceptable-IsAcceptable p h = record {
  posix = is_posix_env_name-IsPosixName p.0 (ground arith);
  unprotected = λ i. absurd (ground (arith, IsProtected-is_protected_env_name p.0 i));
  no_zero = no_byte-All p.1 (ground arith);
}

pub IsAcceptable-is_acceptable : (p : Bytes × Bytes) → IsAcceptable p → is_acceptable p.0 p.1 ≡ true
IsAcceptable-is_acceptable p a = elim (Bool-cases (is_protected_env_name p.0)) [
  | inl q ↦ absurd (a.unprotected (is_protected_env_name-IsProtected p.0 q))
  | inr n ↦ ground (arith, IsPosixName-is_posix_env_name p.0 a.posix, All-no_byte p.1 a.no_zero)
]
