-- ===== src/Http/Query/Sorting.antt =====
-- Sorting an association list by its keys keeps its entries.
use agenthub_skill_runtime.Base.{◌↔◌, [], ◌∷◌, Bytes, lex_le, All, Bool-cases, inl, inr}
use agenthub_skill_runtime.Base.Assoc.{Assoc}
use agenthub_skill_runtime.Http.Query.{insert_sorted, sort_keys}

module _ (P : Bytes × Bytes → Type 0) where
  to_insert : (p : Bytes × Bytes) (m : Assoc Bytes) → P p → All P m → All P (insert_sorted p m)
  unfolding insert_sorted
  to_insert p [] hp h = (hp, tt)
  to_insert p (q ∷ m) hp (hq, h) = elim (Bool-cases (lex_le p.0 q.0)) [
    | inl e ↦ rw e (hp, (hq, h))
    | inr e ↦ rw e (hq, to_insert p m hp h)
  ]

  from_insert : (p : Bytes × Bytes) (m : Assoc Bytes) → All P (insert_sorted p m) → P p × All P m
  unfolding insert_sorted
  from_insert p [] (hp, h) = (hp, tt)
  from_insert p (q ∷ m) h = elim (Bool-cases (lex_le p.0 q.0)) [
    | inl e ↦ rw (e, insert_sorted) at h
    | inr e ↦
        let both : P q × All P (insert_sorted p m) = rw (e, insert_sorted) at h in
        let (hp, hm) = from_insert p m both.1 in (hp, (both.0, hm))
  ]

  pub All-sort_keys_iff : (m : Assoc Bytes) → All P (sort_keys m) ↔ All P m
  unfolding sort_keys
  All-sort_keys_iff [] = (λ h. h, λ h. h)
  All-sort_keys_iff (p ∷ m) = (
    λ h. let (hp, hm) = from_insert p (sort_keys m) h in (hp, (All-sort_keys_iff m).0 hm),
    λ h. to_insert p (sort_keys m) h.0 ((All-sort_keys_iff m).1 h.1),
  )
