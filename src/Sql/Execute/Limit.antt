-- ===== src/Sql/Execute/Limit.antt =====
-- The rows that a query returns.
use agenthub_skill_runtime.Base.{
  ℕ, ◌≤◌, ◌<◌, ◌≡◌, refl, ◌∙◌, ap, ◌⊎◌, inl, inr, false, List, [], ◌∷◌, ◌++◌, none, Bytes, length,
  length-append, leb, map, arith, Bool-cases, append_assoc, append-nil,
}
use agenthub_skill_runtime.Executor.{Value, Result, ok, Result-cases}
use agenthub_skill_runtime.Sql.Execute.{Rows, Row, to_object, collect_from, collect_rows}

-- The first rows were read, up to the end or to the limit.
pub record Collected (fields : List Bytes) (max_rows : ℕ) (rows : List (Result (List Value)))
    (results : List Row) : Type 0 where
  pub values : List (List Value)
  pub left : List (Result (List Value))
  pub split : rows ≡ map ok values ++ left
  pub results_eq : results ≡ map (λ v. to_object fields v []) values
  pub bounded : length results ≤ max_rows
  pub complete : (left ≡ []) ⊎ (length results ≡ max_rows)

collect_from-ok :
    (fields : List Bytes) (max_rows : ℕ) (done : List Row) (rows : List (Result (List Value)))
    (results : List Row)
    → length done ≤ max_rows
    → collect_from fields max_rows done rows ≡ ok results
    → (values : List (List Value)) × (left : List (Result (List Value))) × (rows
        ≡ map ok values ++ left)
      × (results ≡ done ++ map (λ v. to_object fields v []) values)
      × (length results ≤ max_rows)
      × ((left ≡ []) ⊎ (length results ≡ max_rows))
unfolding collect_from
collect_from-ok fields max_rows done [] results b h =
    ([], [], refl, ground (arith, append-nil done), ground arith, inl refl)
collect_from-ok fields max_rows done (row ∷ rows) results b h =
    elim (Bool-cases (leb max_rows (length done))) [
      | inl full ↦
          ([], row ∷ rows, refl, ground (arith, append-nil done), ground arith, inr (ground arith))
      | inr room ↦ elim (Result-cases row) [
        | inr (x, bad) ↦ absurd (ground arith)
        | inl (v, good) ↦
            let (values, left, split, e, fits, complete) =
              collect_from-ok fields max_rows (done ++ to_object fields v [] ∷ []) rows results
                (omega (arith, length-append done (to_object fields v [] ∷ []), ltb_of room))
                (ground arith) in
            (
              v ∷ values,
              left,
              ground arith,
              e ∙ append_assoc done (to_object fields v [] ∷ []) _,
              fits,
              complete,
            )
      ]
    ]
  where
    ltb_of : leb max_rows (length done) ≡ false → length done < max_rows
    ltb_of p = ground arith

-- A query that succeeds returns the first rows of the cursor, each with its values under the names
-- of the fields, in order: all of them, or exactly max_rows. So all rows up to there could be read,
-- and the cursor reported no error.
pub collect_rows-Collected :
    (r : Rows) (max_rows : ℕ) (results : List Row)
    → collect_rows r max_rows ≡ ok results
    → Collected r.fields max_rows r.rows results × (r.error ≡ none)
unfolding collect_rows
collect_rows-Collected r max_rows results h =
    elim (Result-cases (collect_from r.fields max_rows [] r.rows)) [
      | inr (x, bad) ↦ absurd (ground arith)
      | inl (done, good) ↦
          let same : done ≡ results = ground arith in
          let (values, left, split, e, fits, complete) =
            collect_from-ok r.fields max_rows [] r.rows results (omega arith) (good ∙ ap ok same) in
          (
            record {
              values = values;
              left = left;
              split = split;
              results_eq = e;
              bounded = fits;
              complete = complete;
            },
            ground arith,
          )
    ]
