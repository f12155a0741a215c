-- ===== src/Insight/Flows/Keys.antt =====
-- internal/controller/preflight.go, classifyFlows: what the entries of `seen` are.
use mathlib.Core.Path.{subst}
use illumio_k8s_utility_oper.Prelude.{
  ℕ, ◌≡◌, refl, ◌∙◌, ◌⊎◌, String, true, false, inl, inr, List, [], ◌∷◌, All, Mem, Bool-cases, arith,
  ◌==◌, Comparable, nat_eq, string_eq, beq_refl,
}
use illumio_k8s_utility_oper.Prelude.Order.{Sorter}
use illumio_k8s_utility_oper.Api.Insight.{FlowFinding}
use illumio_k8s_utility_oper.Pce.Traffic.{TrafficFlow}
use illumio_k8s_utility_oper.Insight.Flows.{
  draft_blocked, proto_name, peer_key, peer_of, peer_ip_of, FindingKey, same_key, Seen, key_of,
  finding_of, see, see_flows, findings_of,
}

==-sym : {A : Type 0} ⦃c : Comparable A⦄ (x y : A) → (y == x) ≡ (x == y)
==-sym ⦃c⦄ x y = ground (arith, c.test_iff x y, c.test_iff y x)

module _ (sorter : Sorter) where
  abbrev pub Entry : Type 0
  Entry = FindingKey sorter × FlowFinding

  -- No two findings have the same peer, port and protocol.
  abbrev pub DistinctKeys : Seen sorter → Type 0
  DistinctKeys [] = Unit
  DistinctKeys ((k, found) ∷ seen) =
      All (λ entry. same_key sorter entry.0 k ≡ false) seen × DistinctKeys seen

  -- The key is the finding's own.
  abbrev pub IsKeyed : Entry → Type 0
  IsKeyed (k, found) =
      (k.peer ≡ peer_key sorter found.peer found.peer_ip)
      × (k.port ≡ found.port)
      × (proto_name k.proto ≡ found.protocol)

  -- The finding tells of one of the flows, which the draft policy would block: the other end of the flow,
  -- seen in the direction, with the port, protocol and decision.
  abbrev pub TellsOf : String → List TrafficFlow → FlowFinding → Type 0
  TellsOf direction flows found =
      (f : TrafficFlow) × Mem flows f
      × (draft_blocked f.draft_policy_decision ≡ true)
      × (found.peer ≡ peer_of sorter direction f)
      × (found.peer_ip ≡ peer_ip_of sorter direction f)
      × (found.port ≡ f.port)
      × (found.protocol ≡ proto_name f.protocol)
      × (found.decision ≡ f.draft_policy_decision)

  abbrev pub HasKey : FindingKey sorter → Seen sorter → Type 0
  HasKey k [] = ⊥
  HasKey k (entry ∷ seen) = (same_key sorter entry.0 k ≡ true) ⊎ HasKey k seen

  same_key_sym : (j k : FindingKey sorter) → same_key sorter k j ≡ same_key sorter j k
  same_key_sym j k = rw (==-sym j.peer k.peer, ==-sym j.port k.port, ==-sym j.proto k.proto) refl

  same_key_refl : (k : FindingKey sorter) → same_key sorter k k ≡ true
  same_key_refl k = rw (beq_refl k.peer, beq_refl k.port, beq_refl k.proto) refl

  see-other :
      (k j : FindingKey sorter) (found : FlowFinding) (seen : Seen sorter)
      → same_key sorter k j ≡ false
      → All (λ entry. same_key sorter entry.0 j ≡ false) seen
      → All (λ entry. same_key sorter entry.0 j ≡ false) (see sorter k found seen)
  unfolding see
  see-other k j found [] ne h = (ne, tt)
  see-other k j found ((i, old) ∷ seen) ne h = elim (Bool-cases (same_key sorter i k)) [
    | inl e ↦ rw e h
    | inr e ↦ rw e (h.0, see-other k j found seen ne h.1)
  ]

  module _ (k : FindingKey sorter) (found : FlowFinding) where
    see-DistinctKeys :
        (seen : Seen sorter) → DistinctKeys seen → DistinctKeys (see sorter k found seen)
    unfolding see
    see-DistinctKeys [] h = (tt, tt)
    see-DistinctKeys ((j, old) ∷ seen) h = elim (Bool-cases (same_key sorter j k)) [
      | inl e ↦ rw e h
      | inr e ↦
          rw e (see-other k j found seen (same_key_sym j k ∙ e) h.0, see-DistinctKeys seen h.1)
    ]

    -- What does not depend on the connections holds of every entry.
    see-All :
        (E : Entry → Type 0)
        → ((j : FindingKey sorter) (old : FlowFinding) (n : ℕ)
            → E (j, old)
            → E (j, record old { connections = n }))
        → (seen : Seen sorter) → E (k, found)
        → All E seen
        → All E (see sorter k found seen)
    unfolding see
    see-All E stable [] b h = (b, tt)
    see-All E stable ((j, old) ∷ seen) b h = elim (Bool-cases (same_key sorter j k)) [
      | inl e ↦ rw e (stable j old _ h.0, h.1)
      | inr e ↦ rw e (h.0, see-All E stable seen b h.1)
    ]

    see-HasKey : (seen : Seen sorter) → HasKey k (see sorter k found seen)
    unfolding see
    see-HasKey [] = inl (same_key_refl k)
    see-HasKey ((j, old) ∷ seen) = elim (Bool-cases (same_key sorter j k)) [
      | inl e ↦ rw e (inl e)
      | inr e ↦ rw e (inr (see-HasKey seen))
    ]

    see-HasKey_before :
        (i : FindingKey sorter) (seen : Seen sorter)
        → HasKey i seen
        → HasKey i (see sorter k found seen)
    unfolding see
    see-HasKey_before i [] h = absurd h
    see-HasKey_before i ((j, old) ∷ seen) h = elim (Bool-cases (same_key sorter j k)) [
      | inl e ↦ rw e (elim h [ inl here ↦ inl here | inr there ↦ inr there ])
      | inr e ↦
          rw e (elim h [ inl here ↦ inl here | inr there ↦ inr (see-HasKey_before i seen there) ])
    ]

  see_flows-HasKey_before :
      (direction : String) (i : FindingKey sorter) (flows : List TrafficFlow) (seen : Seen sorter)
      → HasKey i seen
      → HasKey i (see_flows sorter direction flows seen)
  unfolding see_flows
  see_flows-HasKey_before direction i [] seen h = h
  see_flows-HasKey_before direction i (f ∷ flows) seen h =
      elim (Bool-cases (draft_blocked f.draft_policy_decision)) [
        | inl e ↦
            rw e (see_flows-HasKey_before direction i flows _ (see-HasKey_before _ _ i seen h))
        | inr e ↦ rw e (see_flows-HasKey_before direction i flows seen h)
      ]

  -- Each flow that would be blocked has its entry.
  abbrev pub HasEntry : String → Seen sorter → TrafficFlow → Type 0
  HasEntry direction seen f =
      draft_blocked f.draft_policy_decision ≡ true → HasKey (key_of sorter direction f) seen

  pub see_flows-HasEntry :
      (direction : String) (flows : List TrafficFlow) (seen : Seen sorter)
      → All (HasEntry direction (see_flows sorter direction flows seen)) flows
  unfolding see_flows
  see_flows-HasEntry direction [] seen = tt
  see_flows-HasEntry direction (f ∷ flows) seen =
      elim (Bool-cases (draft_blocked f.draft_policy_decision)) [
        | inl e ↦
            let seen' =
              see sorter (key_of sorter direction f) (finding_of sorter direction f) seen in
            let step : see_flows sorter direction flows seen'
                ≡ see_flows sorter direction (f ∷ flows) seen =
              rw e refl in
            subst (λ s. HasEntry direction s f × All (HasEntry direction s) flows) step
              (
                λ _. see_flows-HasKey_before direction _ flows seen' (see-HasKey _ _ seen),
                see_flows-HasEntry direction flows seen',
              )
        | inr e ↦
            let step : see_flows sorter direction flows seen
                ≡ see_flows sorter direction (f ∷ flows) seen =
              rw e refl in
            subst (λ s. HasEntry direction s f × All (HasEntry direction s) flows) step
              (λ h. cc (e, h), see_flows-HasEntry direction flows seen)
      ]

  -- An entry with its key that tells of one of the flows.
  abbrev pub IsFrom : String → List TrafficFlow → Entry → Type 0
  IsFrom direction flows entry = IsKeyed entry × TellsOf direction flows entry.1

  pub see_flows-IsFrom :
      (direction : String) (whole flows : List TrafficFlow) (seen : Seen sorter)
      → ((f : TrafficFlow) → Mem flows f → Mem whole f)
      → All (IsFrom direction whole) seen
      → DistinctKeys seen
      → All (IsFrom direction whole) (see_flows sorter direction flows seen)
        × DistinctKeys (see_flows sorter direction flows seen)
  unfolding see_flows
  see_flows-IsFrom direction whole [] seen within h d = (h, d)
  see_flows-IsFrom direction whole (f ∷ flows) seen within h d =
      let later : (g : TrafficFlow) → Mem flows g → Mem whole g = λ g m. within g (inr m) in
      elim (Bool-cases (draft_blocked f.draft_policy_decision)) [
        | inl e ↦
            let k = key_of sorter direction f in
            let found = finding_of sorter direction f in
            let tells : TellsOf direction whole found =
              (f, within f (inl refl), e, refl, refl, refl, refl, refl) in
            rw e (
              see_flows-IsFrom direction whole flows (see sorter k found seen) later
                (see-All k found (IsFrom direction whole) (λ j old n x. x) seen
                  ((refl, refl, refl), tells) h)
                (see-DistinctKeys k found seen d))
        | inr e ↦ rw e (see_flows-IsFrom direction whole flows seen later h d)
      ]

  pub findings_of-TellsOf :
      (direction : String) (flows : List TrafficFlow) (seen : Seen sorter)
      → All (IsFrom direction flows) seen
      → All (TellsOf direction flows) (findings_of sorter seen)
  unfolding findings_of
  findings_of-TellsOf direction flows [] h = tt
  findings_of-TellsOf direction flows ((k, found) ∷ seen) h =
      (h.0.1, findings_of-TellsOf direction flows seen h.1)
