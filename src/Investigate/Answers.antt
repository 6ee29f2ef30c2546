-- ===== src/Investigate/Answers.antt =====
-- What `Investigate` returns.
use mathlib.Core.Path.{subst}
use gpufleet_agent.Prelude.{
  Each, ℕ, zero, suc, ◌-◌, String, ◌≡◌, refl, sym, ap, ◌∙◌, Bool, true, false, not, ◌||◌, Option,
  none, some, is_some, List, [], ◌∷◌, length, nat_eq, arith, if◌then◌else◌, ◌⊎◌, inl, inr,
}
use gpufleet_agent.Wire.{
  TimelineEntry, EvidencePack, CapabilityDescriptor, CollectDirective, InvestigateResponse, Verdict,
}
use gpufleet_agent.Semantics.{Result, ok, err}
use gpufleet_agent.Directive.{validate}
use gpufleet_agent.Investigate.{
  Net, Client, post, Running, append_entries, noop_execute, finish_execute, execute_vetted,
  execute_directives, Outcome, Next, done, again, after_execute, after_verdict, after_post, rounds,
  investigate, max_rounds, is_abstain, round_error,
}

module _ {F W : Type 0} (net : Net F W) (c : Client W) where
  -- Some post was answered with the verdict.
  pub Answered : Verdict F → Type 0
  Answered v =
      (w : W) × (pack : EvidencePack F) × (resp : InvestigateResponse F) × ((post net c w pack).0
        ≡ ok resp)
      × (resp.verdict ≡ some v)

  pub record IsAnswer (out : Outcome F W) : Type 0 where
    -- Without an error there is a verdict.
    pub given : (is_some out.error || is_some out.verdict) ≡ true
    pub honest : Each Answered out.verdict

  abbrev AllAnswered : Option (Verdict F) → Type 0
  AllAnswered last = Each Answered last

  abbrev Fine : Next F W → Type 0
  Fine (done out) = IsAnswer out
  Fine (again run v) = Answered v

  known :
      (v : Verdict F) (e : Option String) (w : W)
      → Answered v
      → IsAnswer (record { verdict = some v; error = e; world = w })
  known v e w a = record { given = ground arith; honest = a }

  after_post-Fine :
      (round : ℕ) (last : Option (Verdict F)) (pack : EvidencePack F) (w : W)
      → AllAnswered last
      → (r : Result (InvestigateResponse F) × W) → (post net c w pack).0 ≡ r.0
      → Fine (after_post c round last pack r)
  unfolding after_post Answered
  after_post-Fine round last pack w all (err x, w') e = record { given = refl; honest = all }
  after_post-Fine round last pack w all (ok resp, w') e = decided resp.verdict refl
    where
      ran : Running F W
      ran = execute_directives c resp.directives (record { pack = pack; world = w'; added = 0 })

      executed :
          (v : Verdict F) (b : Bool)
          → Answered v
          → Fine (
              if b
              then done (record { verdict = some v; error = none; world = ran.world })
              else again ran v)
      executed v true a = known v none ran.world a
      executed v false a = a

      abstained :
          (v : Verdict F) (b : Bool)
          → Answered v
          → Fine (
              if b
              then done (record { verdict = some v; error = none; world = w' })
              else after_execute v ran)
      abstained v true a = known v none w' a
      abstained v false a = executed v (nat_eq ran.added 0) a

      decided :
          (o : Option (Verdict F))
          → resp.verdict ≡ o
          → Fine (elim o [
            | none ↦ done (record {
              verdict = last;
              error = some (round_error round ": server returned nil verdict");
              world = w';
            })
            | some v ↦ after_verdict c pack resp.directives v w'
          ])
      decided none h = record { given = refl; honest = all }
      decided (some v) h =
          abstained v (not (is_abstain v.fault_class) || nat_eq (length resp.directives) 0)
            (w, pack, resp, e, h)

  rounds-IsAnswer :
      (left : ℕ) (last : Option (Verdict F)) (pack : EvidencePack F) (w : W)
      → AllAnswered last
      → (left ≡ 0 → is_some last ≡ true)
      → IsAnswer (rounds net c left last pack w)
  unfolding rounds
  rounds-IsAnswer zero last pack w all some_last = record { given = some_last refl; honest = all }
  rounds-IsAnswer (suc left) last pack w all some_last =
      next (λ v run a. rounds-IsAnswer left (some v) run.pack run.world a (λ _. refl))
        (after_post c (max_rounds - suc left) last pack (post net c w pack))
        (after_post-Fine (max_rounds - suc left) last pack w all (post net c w pack) refl)
    where
      next :
          ((v : Verdict F) (run : Running F W)
            → Answered v
            → IsAnswer (rounds net c left (some v) run.pack run.world))
          → (r : Next F W) → Fine r
          → IsAnswer (elim r as (λ _. Outcome F W) [
            | done out ↦ out
            | again run v ↦ rounds net c left (some v) run.pack run.world
          ])
      next later (done out) h = h
      next later (again run v) a = later v run a

  -- `Investigate` makes no verdict up: what it returns is a verdict with which some post was answered,
  -- and when it returns no verdict it returns an error.
  pub investigate-IsAnswer : (pack : EvidencePack F) (w : W) → IsAnswer (investigate net c pack w)
  unfolding investigate
  investigate-IsAnswer pack w = rounds-IsAnswer max_rounds none pack w tt (λ h. ground arith)

  execute_directives-idle :
      (c.executor ≡ none) ⊎ (c.executor ≡ some noop_execute)
      → (ds : List (Option CollectDirective)) (run : Running F W)
      → execute_directives c ds run ≡ run
  unfolding execute_directives append_entries
  execute_directives-idle idle [] run = refl
  execute_directives-idle idle (none ∷ ds) run = execute_directives-idle idle ds run
  execute_directives-idle idle (some d ∷ ds) run =
      ap (execute_directives c ds) (vetted (validate (some d) c.consent) idle)
      ∙ execute_directives-idle idle ds run
    where
      ran :
          CollectDirective
          → Option (W → CollectDirective → Result (List (Option TimelineEntry)) × W)
          → Running F W
      ran safe o = elim o [
        | none ↦ run
        | some execute ↦ finish_execute run (execute run.world safe)
      ]

      vetted :
          (r : Result (CapabilityDescriptor × CollectDirective))
          → (c.executor ≡ none) ⊎ (c.executor ≡ some noop_execute)
          → execute_vetted c run r ≡ run
      vetted (err e) i = refl
      vetted (ok (desc, safe)) (inl e) = ap (ran safe) e
      vetted (ok (desc, safe)) (inr e) = ap (ran safe) e

  abbrev EndsIn : W → Next F W → Type 0
  EndsIn w (done out) = out.world ≡ w
  EndsIn w (again run v) = ⊥

  after_post-EndsIn :
      (c.executor ≡ none) ⊎ (c.executor ≡ some noop_execute)
      → (round : ℕ) (last : Option (Verdict F)) (pack : EvidencePack F)
        (r : Result (InvestigateResponse F) × W)
      → EndsIn r.1 (after_post c round last pack r)
  unfolding after_post
  after_post-EndsIn idle round last pack (err x, w) = refl
  after_post-EndsIn idle round last pack (ok resp, w) = decided resp.verdict
    where
      fresh : Running F W
      fresh = record { pack = pack; world = w; added = 0 }

      abstained :
          (v : Verdict F) (b : Bool)
          → EndsIn w (
              if b
              then done (record { verdict = some v; error = none; world = w })
              else after_execute v (execute_directives c resp.directives fresh))
      abstained v true = refl
      abstained v false =
          subst (λ run. EndsIn w (after_execute v run))
            (sym (execute_directives-idle idle resp.directives fresh)) refl

      decided :
          (o : Option (Verdict F))
          → EndsIn w (elim o [
            | none ↦ done (record {
              verdict = last;
              error = some (round_error round ": server returned nil verdict");
              world = w;
            })
            | some v ↦ after_verdict c pack resp.directives v w
          ])
      decided none = refl
      decided (some v) =
          abstained v (not (is_abstain v.fault_class) || nat_eq (length resp.directives) 0)

  -- The agent as it is shipped, whose executor does nothing, and one without an executor post
  -- exactly once, whatever the control plane answers.
  pub investigate-once :
      (pack : EvidencePack F) (w : W)
      → (c.executor ≡ none) ⊎ (c.executor ≡ some noop_execute)
      → (investigate net c pack w).world ≡ (post net c w pack).1
  unfolding investigate rounds
  investigate-once pack w idle =
      ended (after_post c 0 none pack (post net c w pack))
        (after_post-EndsIn idle 0 none pack (post net c w pack))
    where
      ended :
          (r : Next F W)
          → EndsIn (post net c w pack).1 r
          → (elim r as (λ _. Outcome F W) [
            | done out ↦ out
            | again run v ↦ rounds net c 2 (some v) run.pack run.world
          ]).world
            ≡ (post net c w pack).1
      ended (done out) h = h
      ended (again run v) h = elim h [ ]
