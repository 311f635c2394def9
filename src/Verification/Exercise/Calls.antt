-- ===== src/Verification/Exercise/Calls.antt =====
-- Which tools are called, and what a successful outcome says of the server.
use discovery_application.Base.{
  ℕ, suc, ◌≡◌, ◌≤◌, refl, inl, inr, arith, String, true, ◌||◌, Option, List, [], ◌∷◌, any, All, In,
  All-mono, length, is_empty, str_eq, Bool-cases,
}
use discovery_application.Verification.Models.{Tool, ToolOutcome}
use discovery_application.Verification.Checks.{call_succeeded}
use discovery_application.Verification.Judge.{Fields}
use discovery_application.Verification.Invocation.{
  Reply, answered, timed_out, raised, InvokeResult, LanguageModel, call_each, call_returned,
  call_overdue, call_raised, local_call, remote_call,
}

-- The server answered some call of a tool with success.
pub HasAnswered : (ℕ → Tool → Reply InvokeResult) → Type 0
HasAnswered invoke =
    (n : ℕ) × (t : Tool) × (r : InvokeResult) × (invoke n t ≡ answered r)
    × (str_eq r.status "success" ≡ true)

-- What a way to settle a call keeps: the tool's name, and success only from an answer that says so.
pub record IsSettling (settle : Tool → Reply InvokeResult → ToolOutcome) : Type 0 where
  pub same_name : (t : Tool) (reply : Reply InvokeResult) → (settle t reply).tool_name ≡ t.name
  pub of_answer :
      (t : Tool) (reply : Reply InvokeResult)
      → call_succeeded (settle t reply) ≡ true
      → (r : InvokeResult) × (reply ≡ answered r) × (str_eq r.status "success" ≡ true)

module _ (dumps : Fields → String) (model : Option LanguageModel) where
  call_returned-success :
      (t : Tool) (r : InvokeResult)
      → call_succeeded (call_returned dumps model t r) ≡ true
      → str_eq r.status "success" ≡ true
  unfolding call_returned call_succeeded
  call_returned-success t r h = elim (Bool-cases (str_eq r.status "success")) [
    | inl e ↦ e
    | inr e ↦ rw e at h
  ]

  call_returned-name :
      (t : Tool) (r : InvokeResult) → (call_returned dumps model t r).tool_name ≡ t.name
  unfolding call_returned
  call_returned-name t r = ground arith

  local_call-name :
      (t : Tool) (reply : Reply InvokeResult) → (local_call dumps model t reply).tool_name ≡ t.name
  unfolding local_call call_overdue call_raised
  local_call-name t (answered r) = call_returned-name t r
  local_call-name t (timed_out m) = refl
  local_call-name t (raised m) = refl

  local_call-success :
      (t : Tool) (reply : Reply InvokeResult)
      → call_succeeded (local_call dumps model t reply) ≡ true
      → (r : InvokeResult) × (reply ≡ answered r) × (str_eq r.status "success" ≡ true)
  unfolding local_call call_overdue call_raised call_succeeded
  local_call-success t (answered r) h = (r, refl, call_returned-success t r h)
  local_call-success t (timed_out m) h = cc h
  local_call-success t (raised m) h = cc h

  pub local_call-IsSettling : IsSettling (local_call dumps model)
  local_call-IsSettling = record { same_name = local_call-name; of_answer = local_call-success }

  remote_call-name :
      (t : Tool) (reply : Reply InvokeResult) → (remote_call dumps model t reply).tool_name ≡ t.name
  unfolding remote_call call_raised
  remote_call-name t (answered r) = call_returned-name t r
  remote_call-name t (timed_out m) = refl
  remote_call-name t (raised m) = refl

  remote_call-success :
      (t : Tool) (reply : Reply InvokeResult)
      → call_succeeded (remote_call dumps model t reply) ≡ true
      → (r : InvokeResult) × (reply ≡ answered r) × (str_eq r.status "success" ≡ true)
  unfolding remote_call call_raised call_succeeded
  remote_call-success t (answered r) h = (r, refl, call_returned-success t r h)
  remote_call-success t (timed_out m) h = cc h
  remote_call-success t (raised m) h = cc h

  pub remote_call-IsSettling : IsSettling (remote_call dumps model)
  remote_call-IsSettling = record { same_name = remote_call-name; of_answer = remote_call-success }

module _ (settle : Tool → Reply InvokeResult → ToolOutcome) (ok : IsSettling settle)
    (invoke : ℕ → Tool → Reply InvokeResult) where
  pub call_each-HasAnswered :
      (n : ℕ) (ts : List Tool)
      → any call_succeeded (call_each settle invoke n ts) ≡ true
      → HasAnswered invoke
  unfolding call_each HasAnswered
  call_each-HasAnswered n [] h = cc h
  call_each-HasAnswered n (t ∷ ts) h = elim (Bool-cases (is_empty t.name)) [
    | inl e ↦ call_each-HasAnswered (suc n) ts (rw e at h)
    | inr e ↦
        let found : (call_succeeded (settle t (invoke n t))
              || any call_succeeded (call_each settle invoke (suc n) ts))
            ≡ true =
          rw e at h in
        elim (Bool-cases (call_succeeded (settle t (invoke n t)))) [
          | inl good ↦
              let (r, same, said) = ok.of_answer t (invoke n t) good in (n, t, r, same, said)
          | inr bad ↦ call_each-HasAnswered (suc n) ts (rw bad at found)
        ]
  ]

  -- Each outcome is of a tool in the list.
  pub call_each-In :
      (n : ℕ) (ts : List Tool)
      → All (λ o. (t : Tool) × In t ts × (o.tool_name ≡ t.name)) (call_each settle invoke n ts)
  unfolding call_each
  call_each-In n [] = tt
  call_each-In n (t ∷ ts) =
      let rest =
        All-mono _ (λ o. (u : Tool) × In u (t ∷ ts) × (o.tool_name ≡ u.name))
          (call_each settle invoke (suc n) ts) (λ o (u, i, same). (u, inr i, same))
          (call_each-In (suc n) ts) in
      elim (Bool-cases (is_empty t.name)) [
        | inl e ↦ rw e rest
        | inr e ↦ rw e ((t, inl refl, ok.same_name t (invoke n t)), rest)
      ]

  pub call_each-le : (n : ℕ) (ts : List Tool) → length (call_each settle invoke n ts) ≤ length ts
  unfolding call_each
  call_each-le n [] = omega arith
  call_each-le n (t ∷ ts) = ground (arith, call_each-le (suc n) ts)
