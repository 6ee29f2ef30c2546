-- ===== src/Command/Egress.antt =====
-- cmd/agent/main.go: what leaves the host through the investigate loop of the command.
use mathlib.Core.Path.{subst}
use gpufleet_agent.Prelude.{
  String, ◌≡◌, ◌≢◌, refl, sym, ◌⊎◌, inl, inr, true, ◌==◌, eq_iff, Option, none, some, arith,
  Bool-cases,
}
use gpufleet_agent.Prelude.Strings.{◌<>◌}
use gpufleet_agent.Wire.{
  ConsentTier, tier_unprivileged, tier_privileged, tier_unspecified, EvidencePack,
  CapabilityDescriptor, CollectDirective, InvestigateResponse,
}
use gpufleet_agent.Semantics.{Result, ok, err}
use gpufleet_agent.Directive.{validate}
use gpufleet_agent.Directive.Vetted.{validate-IsVetted}
use gpufleet_agent.Investigate.{
  Net, Client, HttpResponse, request, http_client, receive, send, post, investigate,
}
use gpufleet_agent.Investigate.Answers.{investigate-once}
use gpufleet_agent.Command.{Environment, Flags, tier0_consent, investigate_client, egress}

module _ {F W : Type 0} (net : Net F W) where
  -- What an investigation of a pack asks of the network: nothing, or one request, whose body is this
  -- pack.
  abbrev pub SendsOnce : Client W → EvidencePack F → W → W → Type 0
  SendsOnce c pack w w' =
      (w' ≡ w)
      ⊎ ((body : String) × (net.marshal pack ≡ ok body)
          × (w' ≡ (http_client net c w (request c body)).1))

  post-SendsOnce :
      (c : Client W) (pack : EvidencePack F) (w : W) → SendsOnce c pack w (post net c w pack).1
  unfolding post
  post-SendsOnce c pack w = by_body (net.marshal pack) refl
    where
      by_answer : (r : Result HttpResponse × W) → (receive net r).1 ≡ r.1
      by_answer (err e, w') = refl
      by_answer (ok resp, w') = refl

      by_request :
          (body : String) (o : Option String)
          → net.marshal pack ≡ ok body
          → SendsOnce c pack w
              (elim o as (λ _. Result (InvestigateResponse F) × W) [
                | some e ↦ (err ("build request: " <> e), w)
                | none ↦ receive net (http_client net c w (request c body))
              ]).1
      by_request body (some e) m = inl refl
      by_request body none m = inr (body, m, by_answer (http_client net c w (request c body)))

      by_body : (r : Result String) → net.marshal pack ≡ r → SendsOnce c pack w (send net c w r).1
      by_body (err e) m = inl refl
      by_body (ok body) m = by_request body (net.request_error w (request c body)) m

-- What the gate lets through needs no privilege.
abbrev pub Unprivileged : Result (CapabilityDescriptor × CollectDirective) → Type 0
Unprivileged (ok (desc, safe)) = desc.tier ≡ tier_unprivileged
Unprivileged (err e) = Unit

tier0_consent-unprivileged :
    (tier : ConsentTier) → tier0_consent tier ≡ true → tier ≡ tier_unprivileged
unfolding tier0_consent
tier0_consent-unprivileged tier_unprivileged h = refl
tier0_consent-unprivileged tier_privileged h = ground (arith, h)
tier0_consent-unprivileged tier_unspecified h = ground (arith, h)

tier0-Unprivileged : (d : Option CollectDirective) → Unprivileged (validate d (some tier0_consent))
tier0-Unprivileged d = by_result (validate d (some tier0_consent)) refl
  where
    by_result :
        (r : Result (CapabilityDescriptor × CollectDirective))
        → validate d (some tier0_consent) ≡ r
        → Unprivileged r
    by_result (err e) h = tt
    by_result (ok (desc, safe)) h =
        tier0_consent-unprivileged desc.tier
          (validate-IsVetted d (some tier0_consent) desc safe h).consented

module _ {F W : Type 0} where
  egress_cases :
      (env : Environment) (fs : Flags F) (c : Client W)
      → egress env fs ≡ some c
      → (fs.investigate_url ≢ "") × (investigate_client env fs ≡ c)
  unfolding egress
  egress_cases env fs c e = elim (Bool-cases (fs.investigate_url == "")) [
    | inl off ↦ absurd (ground (arith, rw off at e))
    | inr on ↦ (λ p. ground (arith, (eq_iff fs.investigate_url "").1 p), some_inj (rw on at e))
  ]
    where
      some_inj : {a b : Client W} → some a ≡ some b → a ≡ b
      some_inj p = cc

  -- Where the command lets anything out, a URL was given; then an investigation of a window's pack,
  -- whatever the control plane answers, makes at most one request, to that URL, and its body is this
  -- pack with nothing added; and no directive that its gate lets through is of a privileged capability.
  pub egress-SendsOnce :
      (net : Net F W) (env : Environment) (fs : Flags F) (c : Client W)
      → egress env fs ≡ some c
      → (pack : EvidencePack F) (w : W) (d : Option CollectDirective)
      → (fs.investigate_url ≢ "")
        × (c.url ≡ fs.investigate_url)
        × SendsOnce net c pack w (investigate net c pack w).world
        × Unprivileged (validate d c.consent)
  egress-SendsOnce net env fs c e pack w d =
      let (given, same) = egress_cases env fs c e in
      let own : Client W = investigate_client env fs in
      subst
        (λ k.
          (fs.investigate_url ≢ "")
          × (k.url ≡ fs.investigate_url)
          × SendsOnce net k pack w (investigate net k pack w).world
          × Unprivileged (validate d k.consent))
        same
        (
          given,
          refl,
          subst (SendsOnce net own pack w) (sym (investigate-once net own pack w (inr refl)))
              (post-SendsOnce net own pack w),
          tier0-Unprivileged d,
        )
