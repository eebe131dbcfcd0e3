-- ===== src/Health/Readiness.antt =====
-- When the server reports that it is ready.
use go_exercise.Base.{
  append_nil, append_snoc, ◌≡◌, ◌⊎◌, ◌↔◌, ◌∙◌, sym, refl, List, [], ◌∷◌, ◌++◌, arith, inl, inr,
}
use go_exercise.Health.{
  Status, healthy, unhealthy, Check, CheckResult, Response, worse, run_checks, readiness_check,
}

module _ {S E : Type 0} where
  -- The results of the checks, each in the state that those before it leave.
  abbrev pub results_of : List (Check S E) → S → List (CheckResult E)
  results_of [] s = []
  results_of (check ∷ checks) s = (check s).1 ∷ results_of checks (check s).0

abbrev pub SomeUnhealthy : {E : Type 0} → List (CheckResult E) → Type 0
SomeUnhealthy [] = ⊥
SomeUnhealthy (r ∷ rs) = (r.status ≡ unhealthy) ⊎ SomeUnhealthy rs

pub Status-cases : (s : Status) → (s ≡ healthy) ⊎ (s ≡ unhealthy)
Status-cases healthy = inl refl
Status-cases unhealthy = inr refl

worse-unhealthy :
    {E : Type 0} (r : CheckResult E) (overall : Status)
    → (worse r overall ≡ unhealthy) ↔ ((overall ≡ unhealthy) ⊎ (r.status ≡ unhealthy))
unfolding worse
worse-unhealthy r overall = elim (Status-cases r.status) [
  | inl good ↦ (
    λ h. inl (rw good at h),
    elim [ inl h ↦ rw (worse, good) h | inr bad ↦ absurd (ground arith) ],
  )
  | inr bad ↦ (λ h. inr bad, λ h. rw (worse, bad) refl)
]

module _ {S E : Type 0} where
  run_checks_lem :
      (checks : List (Check S E)) (sofar : Response E) (s : S)
      → ((run_checks checks sofar s).1.checks ≡ sofar.checks ++ results_of checks s)
        × (((run_checks checks sofar s).1.status ≡ unhealthy)
            ↔ ((sofar.status ≡ unhealthy) ⊎ SomeUnhealthy (results_of checks s)))
  unfolding run_checks
  run_checks_lem [] sofar s =
      (sym (append_nil sofar.checks), (inl, elim [ inl h ↦ h | inr h ↦ absurd h ]))
  run_checks_lem (check ∷ checks) sofar s =
      let (s', result) = check s in
      let next : Response E = record {
        status = worse result sofar.status;
        checks = sofar.checks ++ result ∷ [];
      } in
      let (all, (to, from)) = run_checks_lem checks next s' in
      let (worse_to, worse_from) = worse-unhealthy result sofar.status in
      (
        all ∙ append_snoc sofar.checks result (results_of checks s'),
        (
          λ h. elim (to h) [
            | inl now ↦ elim (worse_to now) [ inl before ↦ inl before | inr bad ↦ inr (inl bad) ]
            | inr later ↦ inr (inr later)
          ],
          elim [
            | inl before ↦ from (inl (worse_from (inl before)))
            | inr (inl bad) ↦ from (inl (worse_from (inr bad)))
            | inr (inr later) ↦ from (inr later)
          ],
        ),
      )

  -- The readiness report has the result of every check, in their order, each made in the state
  -- that those before it leave, and it is unhealthy exactly when one of them is.
  pub readiness_exact :
      (checks : List (Check S E)) (s : S)
      → ((readiness_check checks s).1.checks ≡ results_of checks s)
        × (((readiness_check checks s).1.status ≡ unhealthy) ↔ SomeUnhealthy (results_of checks s))
  unfolding readiness_check
  readiness_exact [] s = (refl, (λ h. absurd (ground arith), λ h. absurd h))
  readiness_exact (check ∷ checks) s =
      let (all, (to, from)) =
        run_checks_lem (check ∷ checks) (record { status = healthy; checks = [] }) s in
      (
        all,
        (λ h. elim (to h) [ inl bad ↦ absurd (ground arith) | inr bad ↦ bad ], λ h. from (inr h)),
      )
