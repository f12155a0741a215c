-- ===== src/Policy/Draft/Replace.antt =====
-- reconcileRuleSet against a PCE that does what its API documents: afterwards the ruleset holds the
-- compiled rules and no others.
use mathlib.Core.List.{append-nil, append_assoc, map-append}
use illumio_k8s_utility_oper.Prelude.{
  String, ◌≡◌, refl, sym, ap, ◌∙◌, inl, inr, Bool, true, false, ◌||◌, Option, none, some, List, [],
  ◌∷◌, ◌++◌, map, All, arith, eq_iff, Bool-cases, ◌==◌, string_eq, if◌then◌else◌,
}
use illumio_k8s_utility_oper.Result.{ok}
use illumio_k8s_utility_oper.Exec.{pure, ◌>>=◌}
use illumio_k8s_utility_oper.Exec.Value.{>>=-eq-ok, pure-eq-ok, raise-ne-ok}
use illumio_k8s_utility_oper.Pce.Objects.{Owner, Service, RuleSet, SecRule}
use illumio_k8s_utility_oper.Pce.Interfaces.{PolicyClient}
use illumio_k8s_utility_oper.Policy.Rules.{ResolvedAllow, build_rule_set, build_rule, build_rules}
use illumio_k8s_utility_oper.Policy.Draft.{
  rule_set_update_type_delete, all_services_name, needs_all_services, delete_rules, create_rules,
  service_href, all_services, write_rules, for_existing, reconcile_rule_set,
}

-- The rules without the one that has the href.
abbrev pub without : String → List SecRule → List SecRule
without href [] = []
without href (r ∷ rules) = if r.href == href then without href rules else r ∷ without href rules

-- What a rule says, whatever href the PCE gave it.
abbrev pub body : SecRule → SecRule
body r = record r { href = "" }

-- The documented behaviour of the calls on the draft, for the rules of each ruleset as the PCE holds
-- them. Reads change no rules, a new ruleset has none, a deletion removes the rule, and a creation
-- adds the rule under a href of its own.
pub record IsLawful {W : Type 0} (client : PolicyClient W) (rules_of : W → String → List SecRule)
    : Type 0 where
  pub find_rule_set :
      (owner : Owner) (w w' : W) (o : Option RuleSet)
      → client.find_rule_set_by_owner owner w ≡ (ok o, w')
      → (href : String) → rules_of w' href ≡ rules_of w href
  pub find_service :
      (name : String) (w w' : W) (o : Option Service)
      → client.find_service_by_name name w ≡ (ok o, w')
      → (href : String) → rules_of w' href ≡ rules_of w href
  pub create_rule_set :
      (rs : RuleSet) (w w' : W) (created : RuleSet)
      → client.create_rule_set rs w ≡ (ok created, w')
      → rules_of w' created.href ≡ []
  pub list_rules :
      (href : String) (w w' : W) (rules : List SecRule)
      → client.list_rules href w ≡ (ok rules, w')
      → (rules ≡ rules_of w href) × (rules_of w' href ≡ rules_of w href)
  pub delete_rule :
      (rule_href href : String) (w w' : W) (u : Unit {0})
      → client.delete_rule rule_href w ≡ (ok u, w')
      → rules_of w' href ≡ without rule_href (rules_of w href)
  pub create_rule :
      (href : String) (r created : SecRule) (w w' : W)
      → client.create_rule href r w ≡ (ok created, w')
      → rules_of w' href ≡ rules_of w href ++ (record r { href = created.href } ∷ [])

abbrev without_all : List SecRule → List SecRule → List SecRule
without_all [] m = m
without_all (r ∷ l) m = without_all l (without r.href m)

abbrev listed : String → List SecRule → Bool
listed href [] = false
listed href (r ∷ l) = r.href == href || listed href l

abbrev AreListed : List SecRule → List SecRule → Type 0
AreListed l m = All (λ (r : SecRule). listed r.href l ≡ true) m

without-AreListed :
    (r : SecRule) (l m : List SecRule) → AreListed (r ∷ l) m → AreListed l (without r.href m)
without-AreListed r l [] h = tt
without-AreListed r l (x ∷ m) h = elim (Bool-cases (x.href == r.href)) [
  | inl same ↦ rw same (without-AreListed r l m h.1)
  | inr other ↦
      rw other
        (ground (arith, eq_iff x.href r.href, eq_iff r.href x.href), without-AreListed r l m h.1)
]

without_all-eq-nil : (l m : List SecRule) → AreListed l m → without_all l m ≡ []
without_all-eq-nil [] [] h = refl
without_all-eq-nil [] (x ∷ m) h = cc (h.0)
without_all-eq-nil (r ∷ l) m h = without_all-eq-nil l (without r.href m) (without-AreListed r l m h)

AreListed-grow : (r : SecRule) (l m : List SecRule) → AreListed l m → AreListed (r ∷ l) m
AreListed-grow r l [] h = tt
AreListed-grow r l (x ∷ m) h = (ground arith, AreListed-grow r l m h.1)

AreListed-self : (l : List SecRule) → AreListed l l
AreListed-self [] = tt
AreListed-self (r ∷ l) =
    (ground (arith, eq_iff r.href r.href), AreListed-grow r l l (AreListed-self l))

body-build_rules :
    (narrow : List String) (svc : String) (resolved : List ResolvedAllow)
    → map body (build_rules narrow svc resolved) ≡ build_rules narrow svc resolved
unfolding build_rules
body-build_rules narrow svc [] = refl
body-build_rules narrow svc (a ∷ resolved) =
    ap (λ l. build_rule narrow svc a ∷ l) (body-build_rules narrow svc resolved)

module _ {W : Type 0} (client : PolicyClient W) (rules_of : W → String → List SecRule)
    (lawful : IsLawful client rules_of) where
  rules_of-delete_rules :
      (l : List SecRule) (href : String) (w w' : W) (u : Unit {0})
      → delete_rules client l w ≡ (ok u, w')
      → rules_of w' href ≡ without_all l (rules_of w href)
  unfolding delete_rules
  rules_of-delete_rules [] href w w' u h =
      ap (λ v. rules_of v href) (sym (pure-eq-ok tt u w w' h).1)
  rules_of-delete_rules (r ∷ l) href w w' u h =
      let (v, w1, deleted, rest) =
        >>=-eq-ok (client.delete_rule r.href) (λ _. delete_rules client l) w w' u h in
      rules_of-delete_rules l href w1 w' u rest
      ∙ ap (without_all l) (lawful.delete_rule r.href href w w1 v deleted)

  rules_of-create_rules :
      (rules : List SecRule) (href : String) (w w' : W) (u : Unit {0})
      → create_rules client href rules w ≡ (ok u, w')
      → map body (rules_of w' href) ≡ map body (rules_of w href) ++ map body rules
  unfolding create_rules
  rules_of-create_rules [] href w w' u h =
      rw append-nil (ap (λ v. map body (rules_of v href)) (sym (pure-eq-ok tt u w w' h).1))
  rules_of-create_rules (r ∷ rules) href w w' u h =
      let (c, w1, created, rest) =
        >>=-eq-ok (client.create_rule href r) (λ _. create_rules client href rules) w w' u h in
      rules_of-create_rules rules href w1 w' u rest
      ∙ rw (lawful.create_rule href r c w w1 created, map-append, append_assoc)

  -- Where the service is needed, it is the one that the PCE has under its name.
  abbrev pub NamesService : Bool → String → Type 0
  NamesService needed svc =
      needed ≡ true
      → (s : Service) × (v : W) × (v' : W) × (client.find_service_by_name all_services_name v
          ≡ (ok (some s), v'))
        × (s.href ≡ svc)

  service_href-eq-ok :
      (o : Option Service) (svc : String) (w w' : W)
      → service_href client o w ≡ (ok svc, w')
      → (s : Service) × (o ≡ some s) × (s.href ≡ svc) × (w ≡ w')
  unfolding service_href
  service_href-eq-ok none svc w w' h = absurd (raise-ne-ok _ svc w w' h)
  service_href-eq-ok (some s) svc w w' h =
      let (same, unmoved) = pure-eq-ok s.href svc w w' h in (s, refl, same, unmoved)

  all_services-NamesService :
      (needed : Bool) (svc : String) (w w' : W)
      → (if needed
            then client.find_service_by_name all_services_name >>= service_href client
            else pure "")
          w
        ≡ (ok svc, w')
      → ((href : String) → rules_of w' href ≡ rules_of w href) × NamesService needed svc
  all_services-NamesService false svc w w' h =
      (λ href. ap (λ v. rules_of v href) (sym (pure-eq-ok "" svc w w' h).1), λ e. cc)
  all_services-NamesService true svc w w' h =
      let (o, w1, found, rest) =
        >>=-eq-ok (client.find_service_by_name all_services_name) (service_href client) w w' svc
          h in
      let (s, is, same, unmoved) = service_href-eq-ok o svc w1 w' rest in
      (
        λ href.
            ap (λ v. rules_of v href) (sym unmoved)
            ∙ lawful.find_service all_services_name w w1 o found href,
        λ _. (s, w, w1, found ∙ ap (λ x. (ok x, w1)) is, same),
      )

  abbrev pub Holds : W → String → List String → List ResolvedAllow → Type 0
  Holds w href narrow resolved =
      (svc : String) × (map body (rules_of w href) ≡ build_rules narrow svc resolved)
      × NamesService (needs_all_services resolved) svc

  write_rules-Holds :
      (href : String) (narrow : List String) (resolved : List ResolvedAllow) (r : String) (w w' : W)
      → rules_of w href ≡ []
      → write_rules client href narrow resolved w ≡ (ok r, w')
      → Holds w' r narrow resolved
  unfolding write_rules all_services
  write_rules-Holds href narrow resolved r w w' empty h =
      let (svc, w1, served, rest) =
        >>=-eq-ok (all_services client resolved)
          (λ svc. create_rules client href (build_rules narrow svc resolved) >>= λ _. pure href) w
          w' r h in
      let (u, w2, created, last) =
        >>=-eq-ok (create_rules client href (build_rules narrow svc resolved)) (λ _. pure href) w1
          w' r rest in
      let (same, unmoved) = pure-eq-ok href r w2 w' last in
      let (kept, is) = all_services-NamesService (needs_all_services resolved) svc w w1 served in
      (
        svc,
        ap (λ v. map body (rules_of v r)) (sym unmoved)
            ∙ ap (λ x. map body (rules_of w2 x)) (sym same)
            ∙ rules_of-create_rules (build_rules narrow svc resolved) href w1 w2 u created
            ∙ rw (kept href, empty) (body-build_rules narrow svc resolved),
        is,
      )

  module _ (cr_name namespace : String) (owner : Owner) (scope_hrefs narrow : List String)
      (resolved : List ResolvedAllow) where
    replace-Holds :
        (rs : RuleSet) (r : String) (w w' : W)
        → (client.list_rules rs.href >>= λ rules.
              delete_rules client rules >>= λ _. write_rules client rs.href narrow resolved)
            w
          ≡ (ok r, w')
        → Holds w' r narrow resolved
    replace-Holds rs r w w' h =
        let (l, w1, got, rest) =
          >>=-eq-ok (client.list_rules rs.href)
            (λ rules. delete_rules client rules >>= λ _. write_rules client rs.href narrow resolved)
            w w' r h in
        let (u, w2, deleted, last) =
          >>=-eq-ok (delete_rules client l) (λ _. write_rules client rs.href narrow resolved) w1 w'
            r rest in
        let (is, kept) = lawful.list_rules rs.href w w1 l got in
        write_rules-Holds rs.href narrow resolved r w2 w'
          (rules_of-delete_rules l rs.href w1 w2 u deleted
            ∙ ap (without_all l) (kept ∙ sym is)
            ∙ without_all-eq-nil l l (AreListed-self l))
          last

    for_existing-Holds :
        (o : Option RuleSet) (r : String) (w w' : W)
        → for_existing client cr_name namespace owner scope_hrefs narrow resolved o w ≡ (ok r, w')
        → Holds w' r narrow resolved
    unfolding for_existing
    for_existing-Holds none r w w' h =
        let (c, w1, created, rest) =
          >>=-eq-ok (client.create_rule_set (build_rule_set namespace cr_name scope_hrefs owner))
            (λ c. write_rules client c.href narrow resolved) w w' r h in
        write_rules-Holds c.href narrow resolved r w1 w' (lawful.create_rule_set _ w w1 c created)
          rest
    for_existing-Holds (some rs) r w w' h =
        elim (Bool-cases (rs.update_type == rule_set_update_type_delete)) [
          | inl marked ↦ absurd (raise-ne-ok _ r w w' (rw marked at h))
          | inr live ↦ replace-Holds rs r w w' (rw live at h)
        ]

    -- Against a PCE that does what it documents, a reconciliation that succeeds leaves exactly the
    -- compiled rules in the ruleset whose href it returns, whatever rules were there before, and the
    -- rules without ports refer to the PCE's own service for all services.
    pub reconcile_rule_set-Holds :
        (r : String) (w w' : W)
        → reconcile_rule_set client cr_name namespace owner scope_hrefs narrow resolved w
          ≡ (ok r, w')
        → Holds w' r narrow resolved
    unfolding reconcile_rule_set
    reconcile_rule_set-Holds r w w' h =
        let (o, w1, found, rest) =
          >>=-eq-ok (client.find_rule_set_by_owner owner)
            (for_existing client cr_name namespace owner scope_hrefs narrow resolved) w w' r h in
        for_existing-Holds o r w1 w' rest
