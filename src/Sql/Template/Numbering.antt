-- ===== src/Sql/Template/Numbering.antt =====
-- The text of a rendered query, its parameters and its arguments.
use agenthub_skill_runtime.Base.{
  ℕ, zero, suc, ◌+◌, ◌-◌, ◌≡◌, ◌≢◌, refl, ◌∙◌, ap, sym, true, not, ◌||◌, List, [], ◌∷◌, ◌++◌, none,
  some, Bytes, codes, length, length-append, cut_prefix, all, ◌==◌, arith, Option-cases, inl, inr,
  append_assoc,
}
use agenthub_skill_runtime.Base.Decimal.{itoa}
use agenthub_skill_runtime.Executor.{Value, null, Object, empty, field?}
use agenthub_skill_runtime.Sql.Template.{
  is_word, span, without_quote, closed_key, placeholder_at, argument, render_from,
  max_sql_param_index, render_input_template,
}

text_independent :
    (input other : Object) (skip last : ℕ) (s : Bytes)
    → (render_from input skip last s).0 ≡ (render_from other skip last s).0
unfolding render_from
text_independent input other skip last [] = refl
text_independent input other (suc skip) last (c ∷ s) = text_independent input other skip last s
text_independent input other zero last (c ∷ s) = elim (Option-cases (placeholder_at (c ∷ s))) [
  | inl n ↦ ground (arith, text_independent input other 0 last s)
  | inr (p, e) ↦ ground (arith, text_independent input other (length s - length p.1) (last + 1) s)
]

-- The text of a rendered query is the same for every input, so no input value becomes part of the
-- SQL.
pub render_input_template-text :
    (tmpl : Bytes) (input other : Object)
    → (render_input_template tmpl input).0 ≡ (render_input_template tmpl other).0
render_input_template-text tmpl input other =
    unfold render_input_template in text_independent input other 0 (max_sql_param_index tmpl) tmpl

-- A query template: text without a brace or a quote, and placeholders, bare or in quotes.
pub data Segment : Type 0 where
  text : Bytes → Segment
  bare quoted : Bytes → Segment

abbrev pub spell : List Segment → Bytes
spell [] = []
spell (text t ∷ more) = t ++ spell more
spell (bare k ∷ more) = codes "{{input." ++ (k ++ b'}' ∷ b'}' ∷ spell more)
spell (quoted k ∷ more) = 39 ∷ (codes "{{input." ++ (k ++ b'}' ∷ b'}' ∷ 39 ∷ spell more))

-- The text with the placeholders numbered from `last` + 1, and the arguments in that order.
abbrev pub numbered : ℕ → List Segment → Bytes
numbered last [] = []
numbered last (text t ∷ more) = t ++ numbered last more
numbered last (bare k ∷ more) = b'$' ∷ (itoa (last + 1) ++ numbered (last + 1) more)
numbered last (quoted k ∷ more) = b'$' ∷ (itoa (last + 1) ++ numbered (last + 1) more)

abbrev pub arguments : Object → List Segment → List Value
arguments input [] = []
arguments input (text t ∷ more) = arguments input more
arguments input (bare k ∷ more) = argument (field? input k) ∷ arguments input more
arguments input (quoted k ∷ more) = argument (field? input k) ∷ arguments input more

abbrev pub IsKey : Bytes → Type 0
IsKey k = (k ≢ []) × (all is_word k ≡ true)

-- A quote behind a bare placeholder would belong to it.
abbrev pub IsTemplate : List Segment → Type 0
IsTemplate [] = Unit
IsTemplate (text t ∷ more) = (all (λ c. not (c == b'{' || c == 39)) t ≡ true) × IsTemplate more
IsTemplate (bare k ∷ more) = IsKey k × (without_quote (spell more) ≡ spell more) × IsTemplate more
IsTemplate (quoted k ∷ more) = IsKey k × IsTemplate more

span_word :
    (k rest : Bytes) → all is_word k ≡ true → span is_word (k ++ b'}' ∷ rest) ≡ (k, b'}' ∷ rest)
unfolding span
span_word [] rest h = refl
span_word (c ∷ k) rest h = ground (arith, span_word k rest)

closed_at :
    (k rest : Bytes) → IsKey k → closed_key (k, b'}' ∷ b'}' ∷ rest) ≡ some (k, without_quote rest)
unfolding cut_prefix
closed_at [] rest h = absurd (h.0 refl)
closed_at (c ∷ k) rest h = refl

bare_at :
    (k rest : Bytes)
    → IsKey k
    → placeholder_at (codes "{{input." ++ (k ++ b'}' ∷ b'}' ∷ rest)) ≡ some (k, without_quote rest)
unfolding placeholder_at
bare_at k rest h = rw (span_word k (b'}' ∷ rest) h.1) (closed_at k rest h)

quoted_at :
    (k rest : Bytes)
    → IsKey k
    → placeholder_at (39 ∷ (codes "{{input." ++ (k ++ b'}' ∷ b'}' ∷ 39 ∷ rest))) ≡ some (k, rest)
unfolding placeholder_at
quoted_at k rest h = rw (span_word k (b'}' ∷ 39 ∷ rest) h.1) (closed_at k (39 ∷ rest) h)

other_at : (c : ℕ) (s : Bytes) → c ≢ b'{' → c ≢ 39 → placeholder_at (c ∷ s) ≡ none
unfolding placeholder_at
other_at c s h q = ground arith

module _ (input : Object) where
  skip_all :
      (mid behind : Bytes) (last : ℕ)
      → render_from input (length mid) last (mid ++ behind) ≡ render_from input 0 last behind
  unfolding render_from
  skip_all [] behind last = refl
  skip_all (c ∷ mid) behind last = skip_all mid behind last

  -- A placeholder gives one parameter and one argument.
  render_from-placeholder :
      (c last : ℕ) (s mid behind key : Bytes)
      → s ≡ mid ++ behind
      → placeholder_at (c ∷ s) ≡ some (key, behind)
      → render_from input 0 last (c ∷ s) ≡ (
        b'$' ∷ (itoa (last + 1) ++ (render_from input 0 (last + 1) behind).0),
        argument (field? input key) ∷ (render_from input 0 (last + 1) behind).1,
      )
  unfolding render_from
  render_from-placeholder c last s mid behind key e m =
      let skip : length s - length behind ≡ length mid =
        omega (arith, length-append mid behind, ap (λ (t : Bytes). length t) e) in
      rw (m, render_from) (rw skip (rw e (rw (skip_all mid behind (last + 1)))))

  render_from-text :
      (t rest : Bytes) (last : ℕ)
      → all (λ c. not (c == b'{' || c == 39)) t ≡ true
      → render_from input 0 last (t ++ rest)
        ≡ (t ++ (render_from input 0 last rest).0, (render_from input 0 last rest).1)
  unfolding render_from
  render_from-text [] rest last h = refl
  render_from-text (c ∷ t) rest last h =
      ground (arith, other_at c (t ++ rest), render_from-text t rest last)

  render_from-spell :
      (segments : List Segment) (last : ℕ)
      → IsTemplate segments
      → render_from input 0 last (spell segments)
        ≡ (numbered last segments, arguments input segments)
  render_from-spell [] last h = unfold render_from in refl
  render_from-spell (text t ∷ more) last (h, hs) =
      render_from-text t (spell more) last h
      ∙ ap (λ (r : Bytes × List Value). (t ++ r.0, r.1)) (render_from-spell more last hs)
  render_from-spell (bare k ∷ more) last (hk, tight, hs) =
      render_from-placeholder b'{' last _ (codes "{input." ++ (k ++ b'}' ∷ b'}' ∷ [])) (spell more)
        k
        (ap (λ (t : Bytes). codes "{input." ++ t)
          (sym (append_assoc k (b'}' ∷ b'}' ∷ []) (spell more))))
        (bare_at k (spell more) hk ∙ ap (λ (t : Bytes). some (k, t)) tight)
      ∙ ap
          (λ (r : Bytes × List Value).
            (b'$' ∷ (itoa (last + 1) ++ r.0), argument (field? input k) ∷ r.1))
          (render_from-spell more (last + 1) hs)
  render_from-spell (quoted k ∷ more) last (hk, hs) =
      render_from-placeholder 39 last _ (codes "{{input." ++ (k ++ b'}' ∷ b'}' ∷ 39 ∷ []))
        (spell more) k
        (ap (λ (t : Bytes). codes "{{input." ++ t)
          (sym (append_assoc k (b'}' ∷ b'}' ∷ 39 ∷ []) (spell more))))
        (quoted_at k (spell more) hk)
      ∙ ap
          (λ (r : Bytes × List Value).
            (b'$' ∷ (itoa (last + 1) ++ r.0), argument (field? input k) ∷ r.1))
          (render_from-spell more (last + 1) hs)

-- A template of text without opening braces and quotes, and of placeholders, bare (with no quote
-- behind them) or in quotes, is rendered by writing the placeholders as the parameters behind the
-- highest one that the template has itself, in order and without their quotes; the arguments are
-- the values of their keys, in the same order. So there is no argument for a parameter that the
-- template has of its own, say $1.
pub render_input_template-spell :
    (segments : List Segment) (input : Object)
    → IsTemplate segments
    → render_input_template (spell segments) input
      ≡ (numbered (max_sql_param_index (spell segments)) segments, arguments input segments)
render_input_template-spell segments input h =
    unfold render_input_template in
    render_from-spell input segments (max_sql_param_index (spell segments)) h

max_index_test : max_sql_param_index (codes "SELECT $2, $12, $1") ≡ 12
unfolding max_sql_param_index
max_index_test = refl

render_test :
    render_input_template (codes "a = '{{input.x}}' and $3") empty
    ≡ (codes "a = $4 and $3", null ∷ [])
unfolding render_input_template itoa field?
render_test = refl
