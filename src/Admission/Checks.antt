-- ===== src/Admission/Checks.antt =====
-- The shape that the webhooks share: the first test that holds gives the message of the refusal.
use aistio.Prelude.{
  String, ◌≡◌, ◌≢◌, refl, ◌↔◌, Bool, true, false, Option, none, some, if◌then◌else◌, arith, ◌==◌,
  ==_iff, comparable_text,
}

-- `if test { return fmt.Errorf(message) }`, and the tests that follow.
abbrev pub check : Bool → String → Option String → Option String
check test message rest = if test then some message else rest

abbrev pub is_some {ℓ} : {A : Type ℓ} → Option A → Bool
is_some none = false
is_some (some a) = true

-- `admission.Errored(http.StatusBadRequest, err)`, `Denied` and `Allowed`.
pub data Response : Type 0 where
  errored : Response
  denied : String → Response
  allowed : Response

-- `Handle` of a validating webhook: `none` is an object that does not decode.
unfoldable pub handle {ℓ} : {A : Type ℓ} → (A → Option String) → Option A → Response
handle validate none = errored
handle validate (some a) = elim (validate a) [ none ↦ allowed | some message ↦ denied message ]

pub check_iff :
    (test : Bool) (message : String) (rest : Option String)
    → (check test message rest ≡ none) ↔ ((test ≡ false) × (rest ≡ none))
check_iff true message rest = (λ h. cc, λ h. cc)
check_iff false message rest = (λ h. (refl, h), λ h. h.1)

pub empty_iff : (s : String) → ((s == "") ≡ false) ↔ (s ≢ "")
empty_iff s = (λ h e. ground (arith, h, e, ==_iff s ""), λ n. ground (arith, n, ==_iff s ""))
