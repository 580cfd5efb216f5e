-- ===== src/Config/Reports.antt =====
-- What the errors of `validate` say.
use rfrp.Base.{
  ℕ, zero, suc, ◌+◌, ◌≡◌, ◌≢◌, inl, inr, List, [], ◌∷◌, ◌++◌, none, some, arith, length,
  length-append, get_elem?, get_elem?-append_left, get_elem?-snoc, Option-cases, some_inj,
}
use mathlib.Core.Path.{subst}
use rfrp.Base.Result.{err}
use rfrp.Config.{ClientInfo}
use rfrp.Config.Validate.{
  EntryError, no_usable_entries, check_entry, check_entries, validate_clients,
}
use rfrp.Config.Verdict.{entries_valid, entries_invalid, check_entries-count}

errors_kept :
    (i : ℕ) (cs : List ClientInfo) (v : ℕ) (es : List EntryError) (k : ℕ) {x : EntryError}
    → get_elem? es k ≡ some x
    → get_elem? (check_entries i cs v es).1 k ≡ some x
errors_kept i [] v es k h = unfold check_entries in h
errors_kept i (c ∷ cs) v es k h = elim (Option-cases (check_entry i c)) [
  | inl e ↦ rw (entries_valid i c cs v es e) (errors_kept (i + 1) cs (v + 1) es k h)
  | inr (y, e) ↦
      rw (entries_invalid i c cs v es e)
        (errors_kept (i + 1) cs v (es ++ (y ∷ [])) k (get_elem?-append_left es (y ∷ []) k h))
]

not_counted :
    (i : ℕ) (c : ClientInfo) (cs : List ClientInfo) (v : ℕ) (es : List EntryError)
    → check_entry i c ≡ none
    → (check_entries i (c ∷ cs) v es).0 ≢ v
not_counted i c cs v es e same =
    omega
      (arith, rw (entries_valid i c cs v es e) at same, check_entries-count (i + 1) cs (v + 1) es)

-- Where the loop counts no entry it has an error for each, in the order of the entries.
check_entries-errors :
    (i : ℕ) (cs : List ClientInfo) (v : ℕ) (es : List EntryError)
    → (check_entries i cs v es).0 ≡ v
    → (j n k : ℕ) {d : ClientInfo} → get_elem? cs j ≡ some d
    → n ≡ i + j
    → k ≡ length es + j
    → (x : EntryError) × (check_entry n d ≡ some x)
      × (get_elem? (check_entries i cs v es).1 k ≡ some x)
check_entries-errors i [] v es same j n k at en ek = cc
check_entries-errors i (c ∷ cs) v es same zero n k {d} at en ek =
    elim (Option-cases (check_entry i c)) [
      | inl e ↦ absurd (not_counted i c cs v es e same)
      | inr (y, e) ↦ (
        y,
        subst (λ x. check_entry n x ≡ some y) (some_inj at)
            (let e' : n ≡ i = omega arith in rw e' e),
        rw (entries_invalid i c cs v es e)
            (errors_kept (i + 1) cs v (es ++ (y ∷ [])) k (get_elem?-snoc es y k (omega arith))),
      )
    ]
check_entries-errors i (c ∷ cs) v es same (suc j) n k at en ek =
    elim (Option-cases (check_entry i c)) [
      | inl e ↦ absurd (not_counted i c cs v es e same)
      | inr (y, e) ↦ rw (entries_invalid i c cs v es e) (
          check_entries-errors (i + 1) cs v (es ++ (y ∷ []))
            (rw (entries_invalid i c cs v es e) at same) j n k at (omega arith)
            (omega (arith, length-append es (y ∷ []))))
    ]

-- When `validate` finds no usable entry, the error holds for each entry, at its index, the fault
-- that its checks report.
pub validate-reports :
    (cs : List ClientInfo) (es : List EntryError)
    → validate_clients cs ≡ err (no_usable_entries es)
    → (i : ℕ) (d : ClientInfo) → get_elem? cs i ≡ some d
    → (x : EntryError) × (check_entry i d ≡ some x) × (get_elem? es i ≡ some x)
unfolding validate_clients
validate-reports [] es h i d at = cc
validate-reports (c ∷ cs) es h i d at =
    let (x, bad, found) =
      check_entries-errors 0 (c ∷ cs) 0 [] (ground arith) i i i at (omega arith) (omega arith) in
    (x, bad, ground arith)
