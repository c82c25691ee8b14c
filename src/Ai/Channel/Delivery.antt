-- ===== src/Ai/Channel/Delivery.antt =====
-- What the reader of a channel gets, and when the goroutine waits.
use agenthub_skill_runtime.Base.{
  ℕ, zero, suc, ◌+◌, ◌-◌, ◌∙◌, ◌*◌, ◌↔◌, ◌≤◌, ◌≡◌, refl, ap, ◌⊎◌, inl, inr, Bool, true, false, List,
  [], ◌∷◌, ◌++◌, append_assoc, append-nil, length, length-append, Bool-cases, arith,
}
use agenthub_skill_runtime.Ai.{StreamChunk}
use agenthub_skill_runtime.Ai.Channel.{
  capacity, Channel, opened, Step, send, close, receive, end, Reach, here, next, count,
}

-- The chunks are received, in the buffer or to be sent, in this order; a closed channel has nothing to
-- be sent, and a reader that has seen the end has left nothing in the buffer.
pub record Carries (chunks : List StreamChunk) (s : Channel) : Type 0 where
  pub in_order : s.received ++ (s.buffer ++ s.to_send) ≡ chunks
  pub bounded : length s.buffer ≤ capacity
  pub all_sent : (s.closed ≡ false) ⊎ (s.to_send ≡ [])
  pub all_read : (s.ended ≡ false) ⊎ ((s.closed ≡ true) × (s.buffer ≡ []))

Step-Carries :
    {chunks : List StreamChunk} {s t : Channel} → Step s t → Carries chunks s → Carries chunks t
Step-Carries (send s chunk rest e room) c = record {
  in_order = rw (append_assoc s.buffer (chunk ∷ []) rest) (rw e at c.in_order);
  bounded = omega (arith, length-append s.buffer (chunk ∷ []));
  all_sent = ground (arith, c.all_sent);
  all_read = ground (arith, c.all_sent, c.all_read);
}
Step-Carries (close s e o) c = record {
  in_order = c.in_order;
  bounded = c.bounded;
  all_sent = inr e;
  all_read = ground (arith, c.all_read);
}
Step-Carries (receive s chunk rest e) c = record {
  in_order = rw (append_assoc s.received (chunk ∷ []) (rest ++ s.to_send)) (rw e at c.in_order);
  bounded = omega (arith, c.bounded, ap (length {0}) e);
  all_sent = c.all_sent;
  all_read = ground (arith, c.all_read);
}
Step-Carries (end s e o going) c = record {
  in_order = c.in_order;
  bounded = c.bounded;
  all_sent = c.all_sent;
  all_read = inr (o, e);
}

Reach-Carries :
    {chunks : List StreamChunk} {s : Channel} → Reach (opened chunks) s → Carries chunks s
Reach-Carries here = record {
  in_order = refl;
  bounded = omega arith;
  all_sent = inl refl;
  all_read = inl refl;
}
Reach-Carries (next r st) = Step-Carries st (Reach-Carries r)

delivered :
    {chunks : List StreamChunk} (s : Channel)
    → Carries chunks s
    → s.ended ≡ true
    → s.received ≡ chunks
delivered s c e = elim c.all_read [
  | inl going ↦ absurd (cc)
  | inr (closed, empty) ↦ elim c.all_sent [
    | inl open_still ↦ absurd (cc)
    | inr sent ↦ rw (empty, sent, append-nil s.received) at c.in_order
  ]
]

List-cases {ℓ} :
    {A : Type ℓ} (xs : List A) → (xs ≡ []) ⊎ ((x : A) × (rest : List A) × (xs ≡ x ∷ rest))
List-cases [] = inl refl
List-cases (x ∷ rest) = inr (x, rest, refl)

-- With an empty buffer the goroutine can go on, or the reader has seen or sees the end.
moves_empty : (s : Channel) → s.ended ≡ false → s.buffer ≡ [] → (t : Channel) × Step s t
moves_empty s going e = elim (List-cases s.to_send) [
  | inr (chunk, rest, t) ↦ (_, send s chunk rest t (rw e (omega arith)))
  | inl done ↦ elim (Bool-cases s.closed) [
    | inl c ↦ (_, end s e c going)
    | inr o ↦ (_, close s done o)
  ]
]

moves : (s : Channel) → s.ended ≡ false → (t : Channel) × Step s t
moves s going = elim (List-cases s.buffer) [
  | inl e ↦ moves_empty s going e
  | inr (chunk, rest, e) ↦ (_, receive s chunk rest e)
]

-- In whatever order the goroutine and the reader take turns, the reader has received a beginning of
-- the chunks that are sent, at most 32 of the others are in the buffer, and either the reader has
-- seen the end and has received them all, or there is a step.
pub Reach-Delivers :
    (chunks : List StreamChunk) (s : Channel)
    → Reach (opened chunks) s
    → (s.received ++ (s.buffer ++ s.to_send) ≡ chunks)
      × (length s.buffer ≤ 32)
      × (((s.ended ≡ true) × (s.received ≡ chunks)) ⊎ ((t : Channel) × Step s t))
Reach-Delivers chunks s r = (c.in_order, c.bounded, ended_or_not)
  where
    c : Carries chunks s
    c = Reach-Carries r

    ended_or_not : ((s.ended ≡ true) × (s.received ≡ chunks)) ⊎ ((t : Channel) × Step s t)
    ended_or_not = elim (Bool-cases s.ended) [
      | inl e ↦ inl (e, delivered s c e)
      | inr going ↦ inr (moves s going)
    ]

-- What is left to do: two steps for a chunk to be sent, one for one in the buffer, and the close and
-- the end.
abbrev pending : Bool → ℕ
pending true = 0
pending false = 1

abbrev left : Channel → ℕ
left s = 2 * length s.to_send + length s.buffer + pending s.closed + pending s.ended

Step-left : {s t : Channel} → Step s t → left s ≡ suc (left t)
Step-left (send s chunk rest e room) =
    ground (arith, ap (length {0}) e, length-append s.buffer (chunk ∷ []))
Step-left (close s e o) = ground arith
Step-left (receive s chunk rest e) = ground (arith, ap (length {0}) e)
Step-left (end s e o going) = ground arith

count-left :
    {chunks : List StreamChunk} {s : Channel} (r : Reach (opened chunks) s)
    → count r + left s ≡ 2 * length chunks + 2
count-left here = omega arith
count-left (next r st) = omega (arith, count-left r, Step-left st)

ended-left :
    {chunks : List StreamChunk} (s : Channel) → Carries chunks s → s.ended ≡ true → left s ≡ 0
ended-left s c e = elim c.all_read [
  | inl going ↦ absurd (cc)
  | inr (closed, empty) ↦ elim c.all_sent [
    | inl opened ↦ absurd (cc)
    | inr sent ↦ rw (e, closed, empty, sent) (omega arith)
  ]
]

left-ended : (s : Channel) → left s ≡ 0 → s.ended ≡ true
left-ended s e = ground arith

-- A step in front of a run.
before : {s t u : Channel} → Step s t → Reach t u → Reach s u
before st here = next here st
before st (next r last) = next (before st r) last

count-before :
    {s t u : Channel} (st : Step s t) (r : Reach t u) → count (before st r) ≡ suc (count r)
unfolding before
count-before st here = refl
count-before st (next r last) = ap suc (count-before st r)

-- The rest of a run that a reader reads to the end.
pub record Completion (chunks : List StreamChunk) (s : Channel) (steps : ℕ) : Type 0 where
  pub final : Channel
  pub run : Reach s final
  pub ended : final.ended ≡ true
  pub received : final.received ≡ chunks
  pub length_of_run : count run ≡ steps

complete :
    (n : ℕ) {chunks : List StreamChunk} (s : Channel)
    → Carries chunks s
    → left s ≡ n
    → Completion chunks s n
complete zero s c e = record {
  final = s;
  run = here;
  ended = left-ended s e;
  received = delivered s c (left-ended s e);
  length_of_run = refl;
}
complete (suc n) s c e = elim (Bool-cases s.ended) [
  | inl over ↦ absurd (omega (arith, e, ended-left s c over))
  | inr going ↦
      let (t, st) = moves s going in
      let m = complete n t (Step-Carries st c) (omega (arith, e, Step-left st)) in
      record {
        final = m.final;
        run = before st m.run;
        ended = m.ended;
        received = m.received;
        length_of_run = count-before st m.run ∙ ap suc m.length_of_run;
      }
]

-- A reader that reads on always comes to the end: every run of the goroutine and the reader on n
-- chunks, in whatever order they have taken turns, can be completed, and by exactly as many steps as it
-- lacks to 2 n + 2, to one in which the reader has seen the end and received all n chunks. No run is
-- longer than 2 n + 2 steps, and one is that long exactly if the reader has seen the end.
pub Reach-ends :
    (chunks : List StreamChunk) (s : Channel) (r : Reach (opened chunks) s)
    → (count r ≤ 2 * length chunks + 2)
      × ((s.ended ≡ true) ↔ (count r ≡ 2 * length chunks + 2))
      × Completion chunks s (2 * length chunks + 2 - count r)
Reach-ends chunks s r = (
  omega (arith, count-left r),
  (
    λ e. omega (arith, count-left r, ended-left s (Reach-Carries r) e),
    λ e. left-ended s (omega (arith, count-left r)),
  ),
  complete (2 * length chunks + 2 - count r) s (Reach-Carries r) (omega (arith, count-left r)),
)

-- A reader that stops before the end can leave the goroutine waiting for ever: in a state with a full
-- buffer and a chunk to be sent the reader's receipt is the only step.
pub full_waits :
    (s t : Channel)
    → Step s t
    → capacity ≤ length s.buffer
    → (waiting : StreamChunk) (later : List StreamChunk) → s.to_send ≡ waiting ∷ later
    → (chunk : StreamChunk) × (rest : List StreamChunk) × (s.buffer ≡ chunk ∷ rest)
      × (t ≡ record s { buffer = rest; received = s.received ++ chunk ∷ [] })
full_waits s t (send _ chunk rest e room) full waiting later w = absurd (omega arith)
full_waits s t (close _ e o) full waiting later w = absurd (cc)
full_waits s t (receive _ chunk rest e) full waiting later w = (chunk, rest, e, refl)
full_waits s t (end _ e c going) full waiting later w = absurd (omega (arith, ap (length {0}) e))
