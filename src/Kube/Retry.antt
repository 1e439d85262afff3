-- ===== src/Kube/Retry.antt =====
-- `retry.RetryOnConflict` of client-go, which is not part of the repository: it runs the body, again
-- after a conflict as often as its backoff says, and returns what the last run did.
use aistio.Prelude.{subst, sym, ap, ℕ, zero, suc, ◌≡◌, refl}
use aistio.Kube.{Wrote, written, conflict, write_failed}

-- What a run of the body returns: no error, a conflict, another error.
pub data Outcome : Type 0 where
  succeeded conflicted errored : Outcome

abbrev pub outcome_of : {A : Type 0} → Wrote A → Outcome
outcome_of (written b) = succeeded
outcome_of conflict = conflicted
outcome_of write_failed = errored

module _ {S : Type 0} where
  -- Some runs of the body from a state, each but the last ending in a conflict.
  pub data Runs (body : S → S × Outcome) : S → S × Outcome → Type 0 where
    last : (s : S) → Runs body s (body s)
    again :
        (s : S) (r : S × Outcome) → (body s).1 ≡ conflicted → Runs body (body s).0 r → Runs body s r

  abbrev pub IsRetry : ((S → S × Outcome) → S → S × Outcome) → Type 0
  IsRetry retry = (body : S → S × Outcome) (s : S) → Runs body s (retry body s)

  -- What every run of the body keeps holds at the end.
  pub Runs-keep {κ} :
      (P : S → Type κ) (body : S → S × Outcome) (s : S) (r : S × Outcome)
      → ((u : S) → P u → P (body u).0)
      → Runs body s r
      → P s
      → P r.0
  Runs-keep P body s r keep (last _) h = keep s h
  Runs-keep P body s r keep (again _ _ c rest) h =
      Runs-keep P body (body s).0 r keep rest (keep s h)

  -- The end is a run of the body from some state that the earlier runs led to.
  pub Runs-last {κ} :
      (P : S → Type κ) (body : S → S × Outcome) (s : S) (r : S × Outcome)
      → ((u : S) → P u → P (body u).0)
      → Runs body s r
      → P s
      → (u : S) × P u × (r ≡ body u)
  Runs-last P body s r keep (last _) h = (s, h, refl)
  Runs-last P body s r keep (again _ _ c rest) h =
      Runs-last P body (body s).0 r keep rest (keep s h)

  abbrev pub settle : (S → S × Outcome) → ℕ → S × Outcome → S × Outcome
  settle body zero r = r
  settle body (suc n) (s, conflicted) = settle body n (body s)
  settle body (suc n) (s, succeeded) = (s, succeeded)
  settle body (suc n) (s, errored) = (s, errored)

  -- A retry with a bound on the further runs.
  unfoldable pub retry_up_to : ℕ → (S → S × Outcome) → S → S × Outcome
  retry_up_to n body s = settle body n (body s)

  settle-Runs :
      (body : S → S × Outcome) (n : ℕ) (s : S) (r : S × Outcome)
      → body s ≡ r
      → Runs body s (settle body n r)
  settle-Runs body zero s r e = subst (λ x. Runs body s x) e (last s)
  settle-Runs body (suc n) s (u, conflicted) e =
      let next : Runs body u (settle body n (body u)) = settle-Runs body n u (body u) refl in
      again s _ (ap (λ x. x.1) e)
        (subst (λ x. Runs body x (settle body n (body u))) (sym (ap (λ x. x.0) e)) next)
  settle-Runs body (suc n) s (u, succeeded) e = subst (λ x. Runs body s x) e (last s)
  settle-Runs body (suc n) s (u, errored) e = subst (λ x. Runs body s x) e (last s)

  pub retry_up_to-IsRetry : (n : ℕ) → IsRetry (retry_up_to n)
  unfolding retry_up_to
  retry_up_to-IsRetry n body s = settle-Runs body n s (body s) refl
