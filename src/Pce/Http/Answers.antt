-- ===== src/Pce/Http/Answers.antt =====
-- The errors that stand for the answers of the PCE.
use illumio_k8s_utility_oper.Prelude.{
  ◌≤◌, ◌<◌, String, ◌≡◌, ◌↔◌, ◌⊎◌, refl, true, ◌||◌, Option, none, some, Bool-cases, inl, inr, leb,
  ltb, arith, ◌==◌, nat_eq, if◌then◌else◌,
}
use illumio_k8s_utility_oper.Prelude.Int.{ℤ}
use illumio_k8s_utility_oper.Result.{Result, ok, err}
use illumio_k8s_utility_oper.Exec.Errors.{Error, is_not_found, pce_rate_limit}
use illumio_k8s_utility_oper.Pce.Http.{Response, parse_retry_after, receive}

-- How the rest of the program reads the outcome of an exchange.
abbrev pub Answer : (String → Option ℤ) → Response → Result Error String → Type 0
Answer atoi r (ok text) = (text ≡ r.body) × (200 ≤ r.status) × (r.status < 300)
Answer atoi r (err e) =
    ((is_not_found e ≡ true) ↔ (r.status ≡ 404))
    × (pce_rate_limit e
        ≡ (if r.status == 429 then some (parse_retry_after atoi r.retry_after) else none))
    × ((r.status < 200) ⊎ (300 ≤ r.status))

-- An exchange succeeds only with a status from 200 to 299, and then with the body of the answer. An
-- error is one of the others; it is taken for "not found" exactly if the status is 404, and for a rate
-- limit exactly if it is 429, with the time that the header asks for.
pub receive_lem : (atoi : String → Option ℤ) (r : Response) → Answer atoi r (receive atoi r)
unfolding receive is_not_found pce_rate_limit
receive_lem atoi r = elim (Bool-cases (r.status == 429)) [
  | inl limited ↦ rw limited (ground (arith, limited), rw limited refl, ground (arith, limited))
  | inr other ↦ elim (Bool-cases (ltb r.status 200 || leb 300 r.status)) [
    | inl failed ↦ rw (other, failed) (ground (arith, other), rw other refl, ground (arith, failed))
    | inr fine ↦ rw (other, fine) (refl, ground (arith, fine), ground (arith, fine))
  ]
]
