-- ===== src/Namespaces/Loop/Tallies.antt =====
-- What one step of the loop over the namespaces adds to the counts.
use illumio_k8s_utility_oper.Prelude.{
  ℕ, ◌+◌, ◌≤◌, ◌≡◌, ◌≢◌, refl, Option, none, some, List, [], ◌∷◌, ◌++◌, Bool-cases, inl, inr, arith,
  string_eq, if◌then◌else◌,
}
use illumio_k8s_utility_oper.Prelude.Dict.{Dict, lookup}
use illumio_k8s_utility_oper.Exec.Errors.{Error}
use illumio_k8s_utility_oper.Api.Meta.{Namespace}
use illumio_k8s_utility_oper.Api.ClusterProfile.{ClusterProfile}
use illumio_k8s_utility_oper.Namespaces.Cwp.{DesiredCwp}
use illumio_k8s_utility_oper.Namespaces.Update.{ContainerWorkloadProfile}
use illumio_k8s_utility_oper.Policy.Profile.{desired_for}
use illumio_k8s_utility_oper.Namespaces.Loop.{Tally, add_error, add_managed, add_pending}

abbrev pub one_if_managed : DesiredCwp → ℕ
one_if_managed desired = if desired.managed then 1 else 0

-- A namespace counts as managed if it has a profile in the PCE, and as pending if it has none.
abbrev pub counts_managed : DesiredCwp → Option ContainerWorkloadProfile → ℕ
counts_managed desired none = 0
counts_managed desired (some cwp) = one_if_managed desired

abbrev pub counts_pending : DesiredCwp → Option ContainerWorkloadProfile → ℕ
counts_pending desired none = one_if_managed desired
counts_pending desired (some cwp) = 0

-- Among the namespaces that the profile manages, those with a profile in the PCE, and those without.
abbrev pub managed_among : ClusterProfile → Dict ContainerWorkloadProfile → List Namespace → ℕ
managed_among cp by_ns [] = 0
managed_among cp by_ns (ns ∷ rest) =
    counts_managed (desired_for ns cp) (lookup ns.name by_ns) + managed_among cp by_ns rest

abbrev pub pending_among : ClusterProfile → Dict ContainerWorkloadProfile → List Namespace → ℕ
pending_among cp by_ns [] = 0
pending_among cp by_ns (ns ∷ rest) =
    counts_pending (desired_for ns cp) (lookup ns.name by_ns) + pending_among cp by_ns rest

-- Exactly p more are pending, at most m more managed, and exactly m if no error has been collected.
abbrev pub Adds : ℕ → ℕ → Tally → Tally → Type 0
Adds m p t t' =
    (t'.pending ≡ t.pending + p)
    × (t'.managed ≤ t.managed + m)
    × (t'.errors ≡ [] → (t.errors ≡ []) × (t'.managed ≡ t.managed + m))

pub append-ne-nil : (errors : List Error) (e : Error) → errors ++ (e ∷ []) ≢ []
append-ne-nil [] e h = cc h
append-ne-nil (x ∷ errors) e h = cc h

pub add_error-Adds : (n : ℕ) (e : Error) (t : Tally) → Adds n 0 t (add_error e t)
add_error-Adds n e t = (omega arith, omega arith, λ h. absurd (append-ne-nil t.errors e h))

pub Adds-none : (t : Tally) → Adds 0 0 t t
Adds-none t = (omega arith, omega arith, λ h. (h, omega arith))

pub add_managed-Adds :
    (desired : DesiredCwp) (t : Tally) → Adds (one_if_managed desired) 0 t (add_managed desired t)
add_managed-Adds desired t = elim (Bool-cases desired.managed) [
  | inl h ↦ rw h (omega arith, omega arith, λ none_yet. (none_yet, omega arith))
  | inr h ↦ rw h (omega arith, omega arith, λ none_yet. (none_yet, omega arith))
]

pub add_pending-Adds :
    (desired : DesiredCwp) (t : Tally) → Adds 0 (one_if_managed desired) t (add_pending desired t)
add_pending-Adds desired t = elim (Bool-cases desired.managed) [
  | inl h ↦ rw h (omega arith, omega arith, λ none_yet. (none_yet, omega arith))
  | inr h ↦ rw h (omega arith, omega arith, λ none_yet. (none_yet, omega arith))
]

pub Adds-trans :
    (m n p q : ℕ) (t t' t'' : Tally) → Adds m p t t' → Adds n q t' t'' → Adds (m + n) (p + q) t t''
Adds-trans m n p q t t' t'' (waits, le, exact) (waits', le', exact') = (
  omega (arith, waits, waits'),
  omega (arith, le, le'),
  λ none_yet.
      let (before, sum') = exact' none_yet in
      let (first, sum) = exact before in (first, omega (arith, sum, sum')),
)

pub Adds-after : (m p : ℕ) (t t' t'' : Tally) → Adds 0 0 t t' → Adds m p t' t'' → Adds m p t t''
Adds-after m p t t' t'' (waits, le, exact) (waits', le', exact') = (
  omega (arith, waits, waits'),
  omega (arith, le, le'),
  λ none_yet.
      let (before, sum') = exact' none_yet in
      let (first, sum) = exact before in (first, omega (arith, sum, sum')),
)

pub one_if_same : (a b : DesiredCwp) → a.managed ≡ b.managed → one_if_managed a ≡ one_if_managed b
one_if_same a b same = rw same refl
