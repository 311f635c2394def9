-- ===== src/Sandbox/Oauth/Flows.antt =====
-- A flow is taken once, in time, and by its own state.
use discovery_application.Base.{
  ℕ, ◌≤◌, ◌≡◌, refl, arith, String, false, none, some, List, [], ◌∷◌, All, str_eq, lookup, put, pop,
  lookup-put, lookup-pop, IsKeyed, put-IsKeyed, lookup-IsKeyed, Bool-cases, Option-cases, inl, inr,
}
use discovery_application.Sandbox.Oauth.{
  OAuthFlowContext, FlowStore, flow_expired, evict_expired, put_flow, take_flow,
}

lookup-evict :
    (now : ℕ) (state : String) (flow : OAuthFlowContext) (flows : FlowStore)
    → now ≤ flow.expires_at
    → lookup state flows ≡ some flow
    → lookup state (evict_expired now flows) ≡ some flow
unfolding evict_expired
lookup-evict now state flow [] fresh h = cc
lookup-evict now state flow ((k, f) ∷ flows) fresh h = elim (Bool-cases (str_eq k state)) [
  | inl own ↦
      let same : f ≡ flow = ground arith in
      let kept : flow_expired now f ≡ false = rw same (ground arith) in rw (kept, own, same) refl
  | inr other ↦
      let rest = lookup-evict now state flow flows fresh (rw other at h) in
      elim (Bool-cases (flow_expired now f)) [
        | inl old ↦ rw old rest
        | inr live ↦ rw (live, other) rest
      ]
]

evict-All :
    (P : String × OAuthFlowContext → Type 0) (now : ℕ) (flows : FlowStore)
    → All P flows
    → All P (evict_expired now flows)
unfolding evict_expired
evict-All P now [] h = tt
evict-All P now ((k, f) ∷ flows) (p, h) =
    let rest = evict-All P now flows h in
    elim (Bool-cases (flow_expired now f)) [ inl old ↦ rw old rest | inr live ↦ rw live (p, rest) ]

pop-All :
    (P : String × OAuthFlowContext → Type 0) (state : String) (flows : FlowStore)
    → All P flows
    → All P (pop state flows)
pop-All P state [] h = tt
pop-All P state ((k, f) ∷ flows) (p, h) =
    let rest = pop-All P state flows h in
    elim (Bool-cases (str_eq k state)) [ inl own ↦ rw own rest | inr other ↦ rw other (p, rest) ]

-- Every flow is filed under its own state.
abbrev pub AreFiled : FlowStore → Type 0
AreFiled flows = IsKeyed (λ flow. flow.state) flows

evict-AreFiled : (now : ℕ) (flows : FlowStore) → AreFiled flows → AreFiled (evict_expired now flows)
unfolding evict_expired
evict-AreFiled now [] h = tt
evict-AreFiled now ((k, f) ∷ flows) (own, others, h) =
    let rest = evict-AreFiled now flows h in
    elim (Bool-cases (flow_expired now f)) [
      | inl old ↦ rw old rest
      | inr live ↦ rw live (own, evict-All _ now flows others, rest)
    ]

pop-AreFiled : (state : String) (flows : FlowStore) → AreFiled flows → AreFiled (pop state flows)
pop-AreFiled state [] h = tt
pop-AreFiled state ((k, f) ∷ flows) (own, others, h) =
    let rest = pop-AreFiled state flows h in
    elim (Bool-cases (str_eq k state)) [
      | inl same ↦ rw same rest
      | inr other ↦ rw other (own, pop-All _ state flows others, rest)
    ]

-- A call of the store, with the time.
pub data FlowCall : Type 0 where
  putting : ℕ → OAuthFlowContext → FlowCall
  taking : ℕ → String → FlowCall

abbrev pub after_call : FlowCall → FlowStore → FlowStore
after_call (putting now flow) flows = put_flow now flow flows
after_call (taking now state) flows = (take_flow now state flows).1

abbrev pub after_calls : List FlowCall → FlowStore → FlowStore
after_calls [] flows = flows
after_calls (call ∷ calls) flows = after_calls calls (after_call call flows)

after_call-AreFiled :
    (call : FlowCall) (flows : FlowStore) → AreFiled flows → AreFiled (after_call call flows)
unfolding put_flow take_flow
after_call-AreFiled (putting now flow) flows h =
    put-IsKeyed (λ f. f.state) flow (evict_expired now flows) (evict-AreFiled now flows h)
after_call-AreFiled (taking now state) flows h =
    pop-AreFiled state (evict_expired now flows) (evict-AreFiled now flows h)

after_calls-AreFiled :
    (calls : List FlowCall) (flows : FlowStore)
    → AreFiled flows
    → AreFiled (after_calls calls flows)
after_calls-AreFiled [] flows h = h
after_calls-AreFiled (call ∷ calls) flows h =
    after_calls-AreFiled calls (after_call call flows) (after_call-AreFiled call flows h)

-- Whatever calls were made before, the flow that a callback takes is the one of its own state, and
-- has not expired.
pub take_flow-own :
    (calls : List FlowCall) (now : ℕ) (state : String) (flow : OAuthFlowContext)
    → (take_flow now state (after_calls calls [])).0 ≡ some flow
    → (flow.state ≡ state) × (now ≤ flow.expires_at)
unfolding take_flow
take_flow-own calls now state flow h =
    let flows = evict_expired now (after_calls calls []) in
    let filed = evict-AreFiled now _ (after_calls-AreFiled calls [] tt) in
    elim (Option-cases (lookup state flows)) [
      | inl missing ↦ cc (rw missing at h)
      | inr (found, hit) ↦ elim (Bool-cases (flow_expired now found)) [
        | inl old ↦ cc (rw (hit, old) at h)
        | inr live ↦
            let same : found ≡ flow = cc (rw (hit, live) at h) in
            rw (← same)
              ((lookup-IsKeyed (λ f. f.state) state found flows filed hit).0, ground arith)
      ]
    ]

lookup-evict_none :
    (now : ℕ) (state : String) (flows : FlowStore)
    → lookup state flows ≡ none
    → lookup state (evict_expired now flows) ≡ none
unfolding evict_expired
lookup-evict_none now state [] h = refl
lookup-evict_none now state ((k, f) ∷ flows) h = elim (Bool-cases (str_eq k state)) [
  | inl own ↦ cc (rw own at h)
  | inr other ↦
      let rest = lookup-evict_none now state flows (rw other at h) in
      elim (Bool-cases (flow_expired now f)) [
        | inl old ↦ rw old rest
        | inr live ↦ rw (live, other) rest
      ]
]

-- A flow that was put can be taken once until it expires: whole the first time, and not again.
pub take_flow-put :
    (flows : FlowStore) (start now later : ℕ) (flow : OAuthFlowContext)
    → now ≤ flow.expires_at
    → ((take_flow now flow.state (put_flow start flow flows)).0 ≡ some flow)
      × ((take_flow later flow.state (take_flow now flow.state (put_flow start flow flows)).1).0
          ≡ none)
unfolding take_flow put_flow
take_flow-put flows start now later flow fresh =
    let stored = put flow.state flow (evict_expired start flows) in
    let hit = lookup-evict now flow.state flow stored fresh (lookup-put flow.state flow _) in
    let live : flow_expired now flow ≡ false = ground arith in
    let gone =
      lookup-evict_none later flow.state _ (lookup-pop flow.state (evict_expired now stored)) in
    (rw (hit, live) refl, rw gone refl)
