-- ===== src/Models/Health.antt =====
-- What `_wait_for_health` of backend/app/services/model_service.py waits for.
use my_frist_reop.Prelude.{
  ℕ, zero, suc, ◌+◌, ◌-◌, ◌≤◌, ◌<◌, ◌≡◌, refl, ◌↔◌, inl, inr, true, none, Bool-cases, ltb, subst,
  sym, arith,
}
use my_frist_reop.Models.{ModelInstance}
use my_frist_reop.Models.Deploy.{DeployEnv, HealthReply, is_healthy, health_rounds, wait_for_health}

-- A round, not before the given one, that starts before the deadline and whose answer is good.
abbrev pub HasAnswer : (ℕ → ℕ) → (ℕ → HealthReply) → ℕ → ℕ → Type 0
HasAnswer clock probe deadline n =
    (k : ℕ) × (n ≤ k) × (clock k < deadline) × (is_healthy (probe k) ≡ true)

le_refl : (a : ℕ) → a ≤ a
le_refl a = omega arith

le_step : (a b c : ℕ) → a ≤ b → suc b ≤ c → a ≤ c
le_step a b c h k = omega arith

out_of_time : (a b d : ℕ) → a ≤ b → b < d → d ≤ a + 0 → ⊥
out_of_time a b d h k l = omega arith

in_time : (a b d : ℕ) → a ≤ b → b < d → ltb a d ≡ true
in_time a b d h k = ground arith

le_fuel : (a b d fuel : ℕ) → suc a ≤ b → d ≤ a + suc fuel → d ≤ b + fuel
le_fuel a b d fuel h k = omega arith

deadline_le : (a b t r : ℕ) → suc a ≤ b → t ≤ r → a + t ≤ b + r
deadline_le a b t r h k = omega arith

zero_plus : (n k : ℕ) → 0 + n ≡ k → n ≡ k
zero_plus n k e = omega arith

suc_plus : (d n k : ℕ) → suc d + n ≡ k → suc (d + n) ≡ k
suc_plus d n k e = omega arith

plus_suc : (d n k : ℕ) → suc d + n ≡ k → d + suc n ≡ k
plus_suc d n k e = omega arith

module _ (clock : ℕ → ℕ) (probe : ℕ → HealthReply) (deadline : ℕ) where
  HasAnswer-of_rounds :
      (n fuel : ℕ)
      → health_rounds clock probe deadline n fuel ≡ true
      → HasAnswer clock probe deadline n
  unfolding health_rounds
  HasAnswer-of_rounds n zero h = absurd (ground arith)
  HasAnswer-of_rounds n (suc fuel) h = elim (Bool-cases (ltb (clock n) deadline)) [
    | inr e ↦ absurd (let k = (rw (e, health_rounds) at h) in ground arith)
    | inl e ↦ elim (Bool-cases (is_healthy (probe n))) [
      | inl a ↦ (n, omega arith, ground arith, a)
      | inr a ↦
          let (k, le, lt, good) =
            HasAnswer-of_rounds (suc n) fuel (rw (e, a, health_rounds) at h) in
          (k, omega arith, lt, good)
    ]
  ]

  module _ (advances : (n : ℕ) → suc (clock n) ≤ clock (suc n)) where
    clock_le : (n d k : ℕ) → d + n ≡ k → clock n ≤ clock k
    clock_le n zero k e = subst (λ x. clock n ≤ clock x) (zero_plus n k e) (le_refl (clock n))
    clock_le n (suc d) k e =
        subst (λ x. clock n ≤ clock x) (suc_plus d n k e)
          (le_step (clock n) (clock (d + n)) _ (clock_le n d (d + n) refl) (advances (d + n)))

    rounds-of_answer :
        (n fuel k d : ℕ)
        → d + n ≡ k
        → clock k < deadline
        → is_healthy (probe k) ≡ true
        → deadline ≤ clock n + fuel
        → health_rounds clock probe deadline n fuel ≡ true
    unfolding health_rounds
    rounds-of_answer n zero k d e lt good enough =
        let below = clock_le n d k e in
        absurd (out_of_time (clock n) (clock k) deadline below lt enough)
    rounds-of_answer n (suc fuel) k zero e lt good enough =
        let early =
          in_time (clock n) (clock n) deadline (le_refl (clock n))
            (subst (λ x. clock x < deadline) (sym (zero_plus n k e)) lt) in
        let answer = subst (λ x. is_healthy (probe x) ≡ true) (sym (zero_plus n k e)) good in
        rw (early, answer, health_rounds) refl
    rounds-of_answer n (suc fuel) k (suc d) e lt good enough =
        let below = clock_le n (suc d) k e in
        let early = in_time (clock n) (clock k) deadline below lt in
        elim (Bool-cases (is_healthy (probe n))) [
          | inl a ↦ rw (early, a, health_rounds) refl
          | inr a ↦
              rw (early, a, health_rounds)
                (rounds-of_answer (suc n) fuel k d (plus_suc d n k e) lt good
                  (le_fuel (clock n) (clock (suc n)) deadline fuel (advances n) enough))
        ]

-- If each round takes at least one unit of time, and the fuel covers the timeout, then the wait for an
-- instance returns without an exception exactly when some round that starts before the deadline gets an
-- answer below 400; it ends in any case.
pub wait_for_health_iff :
    (env : DeployEnv) (i : ModelInstance)
    → ((n : ℕ) → suc (env.clock i n) ≤ env.clock i (suc n))
    → env.health_timeout ≤ env.rounds
    → (wait_for_health env i ≡ none)
      ↔ HasAnswer (env.clock i) (env.probe i) (env.clock i 0 + env.health_timeout) 1
unfolding wait_for_health
wait_for_health_iff env i advances enough =
    let clock = env.clock i in
    let deadline = clock 0 + env.health_timeout in
    (
      (λ h.
          HasAnswer-of_rounds clock (env.probe i) deadline 1 env.rounds
            (elim (Bool-cases (health_rounds clock (env.probe i) deadline 1 env.rounds)) [
              | inl e ↦ e
              | inr e ↦ absurd (let k = (rw (e, wait_for_health) at h) in ground arith)
            ])),
      (λ (k, le, lt, good).
          rw
            (
              rounds-of_answer clock (env.probe i) deadline advances 1 env.rounds k (k - 1)
                  (omega arith) lt good
                  (deadline_le (clock 0) (clock 1) env.health_timeout env.rounds (advances 0)
                    enough),
              wait_for_health,
            )
            refl),
    )
