-- ===== src/Investigate/Rounds.antt =====
-- What every run of `Investigate` keeps: a rule for its loop.
use mathlib.Core.Path.{subst}
use gpufleet_agent.Prelude.{
  ℕ, zero, suc, ◌+◌, ◌-◌, ◌≤◌, ◌≡◌, refl, sym, ap, ◌∙◌, Bool, true, false, not, ◌||◌, Option, none,
  some, List, [], ◌∷◌, ◌++◌, append-nil, append_assoc, length, nat_eq, arith, if◌then◌else◌,
}
use gpufleet_agent.Wire.{
  TimelineEntry, EvidencePack, CapabilityDescriptor, CollectDirective, InvestigateResponse, Verdict,
}
use gpufleet_agent.Semantics.{Result, ok, err}
use gpufleet_agent.Directive.{validate}
use gpufleet_agent.Directive.Vetted.{IsVetted, validate-IsVetted}
use gpufleet_agent.Investigate.{
  Net, Client, post, Running, append_entries, finish_execute, execute_vetted, execute_directives,
  Outcome, Next, done, again, after_execute, after_verdict, after_post, rounds, investigate,
  max_rounds, is_abstain, round_error,
}

-- The entries of a reply that are not nil.
abbrev pub present : List (Option TimelineEntry) → List TimelineEntry
present [] = []
present (none ∷ es) = present es
present (some e ∷ es) = e ∷ present es

-- What an execution adds: nothing if it fails.
abbrev pub gained : Result (List (Option TimelineEntry)) → List TimelineEntry
gained (ok es) = present es
gained (err e) = []

abbrev pub grown : {F : Type 0} → EvidencePack F → List TimelineEntry → EvidencePack F
grown pack extra = record pack { timeline = pack.timeline ++ extra }

append_entries_lem :
    {F W : Type 0} (es : List (Option TimelineEntry)) (run : Running F W)
    → append_entries es run ≡ record {
      pack = grown run.pack (present es);
      world = run.world;
      added = run.added + length (present es);
    }
unfolding append_entries
append_entries_lem [] run = ground (arith, append-nil run.pack.timeline)
append_entries_lem (none ∷ es) run = append_entries_lem es run
append_entries_lem (some e ∷ es) run =
    append_entries_lem es _ ∙ ground (arith, append_assoc run.pack.timeline (e ∷ []) (present es))

grown-grown :
    {F : Type 0} (pack : EvidencePack F) (xs ys : List TimelineEntry)
    → grown (grown pack xs) ys ≡ grown pack (xs ++ ys)
grown-grown pack xs ys = ground (arith, append_assoc pack.timeline xs ys)

grown-nil : {F : Type 0} (pack : EvidencePack F) → pack ≡ grown pack []
grown-nil pack = ground (arith, append-nil pack.timeline)

-- `I n extra w`: after `n` posts the pack has grown by `extra`, and `w` is the world.
module _ {F W : Type 0} (net : Net F W) (c : Client W) (pack : EvidencePack F)
    (I : ℕ → List TimelineEntry → W → Type 0)
    (posts : (n : ℕ) (extra : List TimelineEntry) (w : W)
      → I n extra w
      → I (suc n) extra (post net c w (grown pack extra)).1)
    (runs : (execute : W → CollectDirective → Result (List (Option TimelineEntry)) × W)
        (desc : CapabilityDescriptor) (safe : CollectDirective) (n : ℕ) (extra : List TimelineEntry)
        (w : W)
      → c.executor ≡ some execute
      → IsVetted c.consent desc safe
      → I n extra w
      → I n (extra ++ gained (execute w safe).0) (execute w safe).1) where
  abbrev Keeps : ℕ → Running F W → Type 0
  Keeps n run = (extra : List TimelineEntry) × (run.pack ≡ grown pack extra) × I n extra run.world

  execute_vetted-Keeps :
      (n : ℕ) (d : CollectDirective) (run : Running F W)
      → Keeps n run
      → Keeps n (execute_vetted c run (validate (some d) c.consent))
  execute_vetted-Keeps n d run h =
      vetted (validate (some d) c.consent)
        (λ desc safe. validate-IsVetted (some d) c.consent desc safe)
    where
      ran :
          (n : ℕ) (run : Running F W) (extra : List TimelineEntry)
          → run.pack ≡ grown pack extra
          → (r : Result (List (Option TimelineEntry)) × W) → I n (extra ++ gained r.0) r.1
          → Keeps n (finish_execute run r)
      ran n run extra e (err x, w) i = (extra, e, subst (λ x. I n x w) (append-nil extra) i)
      ran n run extra e (ok es, w) i =
          let all = append_entries_lem es (record run { world = w }) in
          (
            extra ++ present es,
            ap (λ (r : Running F W). r.pack) all
                ∙ ap (λ q. grown q (present es)) e
                ∙ grown-grown pack extra (present es),
            subst (I n (extra ++ present es)) (sym (ap (λ (r : Running F W). r.world) all)) i,
          )

      vetted :
          (r : Result (CapabilityDescriptor × CollectDirective))
          → ((desc : CapabilityDescriptor) (safe : CollectDirective)
              → r ≡ ok (desc, safe)
              → IsVetted c.consent desc safe)
          → Keeps n (execute_vetted c run r)
      vetted (err e) v = h
      vetted (ok (desc, safe)) v = given c.executor refl
        where
          given :
              (o : Option (W → CollectDirective → Result (List (Option TimelineEntry)) × W))
              → c.executor ≡ o
              → Keeps n (elim o [
                | none ↦ run
                | some execute ↦ finish_execute run (execute run.world safe)
              ])
          given none e = h
          given (some execute) e =
              ran n run h.0 h.1 (execute run.world safe)
                (runs execute desc safe n h.0 run.world e (v desc safe refl) h.2)

  execute_directives-Keeps :
      (n : ℕ) (ds : List (Option CollectDirective)) (run : Running F W)
      → Keeps n run
      → Keeps n (execute_directives c ds run)
  unfolding execute_directives
  execute_directives-Keeps n [] run h = h
  execute_directives-Keeps n (none ∷ ds) run h = execute_directives-Keeps n ds run h
  execute_directives-Keeps n (some d ∷ ds) run h =
      execute_directives-Keeps n ds (execute_vetted c run (validate (some d) c.consent))
        (execute_vetted-Keeps n d run h)

  abbrev Holds : ℕ → Next F W → Type 0
  Holds n (done out) = (extra : List TimelineEntry) × I n extra out.world
  Holds n (again run v) = Keeps n run

  after_post-Holds :
      (n round : ℕ) (last : Option (Verdict F)) (extra : List TimelineEntry) (p : EvidencePack F)
      → p ≡ grown pack extra
      → (r : Result (InvestigateResponse F) × W) → I n extra r.1
      → Holds n (after_post c round last p r)
  unfolding after_post
  after_post-Holds n round last extra p e (err x, w) h = (extra, h)
  after_post-Holds n round last extra p e (ok resp, w) h = decided resp.verdict
    where
      ran : Verdict F → Running F W
      ran v = execute_directives c resp.directives (record { pack = p; world = w; added = 0 })

      ran-Keeps : (v : Verdict F) → Keeps n (ran v)
      ran-Keeps v = execute_directives-Keeps n resp.directives _ (extra, e, h)

      executed :
          (v : Verdict F) (b : Bool)
          → Holds n (
              if b
              then done (record { verdict = some v; error = none; world = (ran v).world })
              else again (ran v) v)
      executed v true = ((ran-Keeps v).0, (ran-Keeps v).2)
      executed v false = ran-Keeps v

      abstained :
          (v : Verdict F) (b : Bool)
          → Holds n (
              if b
              then done (record { verdict = some v; error = none; world = w })
              else after_execute v (ran v))
      abstained v true = (extra, h)
      abstained v false = executed v (nat_eq (ran v).added 0)

      decided :
          (o : Option (Verdict F))
          → Holds n (elim o [
            | none ↦ done (record {
              verdict = last;
              error = some (round_error round ": server returned nil verdict");
              world = w;
            })
            | some v ↦ after_verdict c p resp.directives v w
          ])
      decided none = (extra, h)
      decided (some v) =
          abstained v (not (is_abstain v.fault_class) || nat_eq (length resp.directives) 0)

  Kept : W → Type 0
  Kept w = (n : ℕ) × (extra : List TimelineEntry) × (n ≤ 3) × I n extra w

  rounds-keeps :
      (left n : ℕ) (last : Option (Verdict F)) (extra : List TimelineEntry) (w : W)
      (p : EvidencePack F)
      → p ≡ grown pack extra
      → n + left ≤ 3
      → I n extra w
      → Kept (rounds net c left last p w).world
  unfolding rounds Kept
  rounds-keeps zero n last extra w p e k h = (n, extra, omega arith, h)
  rounds-keeps (suc left) n last extra w p e k h =
      next
        (λ v x run q i. rounds-keeps left (suc n) (some v) x run.world run.pack q (omega arith) i)
        (after_post c (max_rounds - suc left) last p (post net c w p))
        (after_post-Holds (suc n) (max_rounds - suc left) last extra p e (post net c w p)
          (subst (λ q. I (suc n) extra (post net c w q).1) (sym e) (posts n extra w h)))
    where
      next :
          ((v : Verdict F) (x : List TimelineEntry) (run : Running F W)
            → run.pack ≡ grown pack x
            → I (suc n) x run.world
            → Kept (rounds net c left (some v) run.pack run.world).world)
          → (r : Next F W) → Holds (suc n) r
          → Kept
              (elim r as (λ _. Outcome F W) [
                | done out ↦ out
                | again run v ↦ rounds net c left (some v) run.pack run.world
              ]).world
      next later (done out) (x, i) = (suc n, x, omega arith, i)
      next later (again run v) (x, q, i) = later v x run q i

  -- The rule of the loop: a property of the number of posts, the entries gained and the world that
  -- holds at the start, is kept by each post of the pack with the entries gained so far, and is kept
  -- by each execution of a directive that the gate of this host has vetted, holds at the end of
  -- `Investigate`, after at most three posts.
  pub investigate-keeps :
      (w : W)
      → I 0 [] w
      → (n : ℕ) × (extra : List TimelineEntry) × (n ≤ 3)
        × I n extra (investigate net c pack w).world
  unfolding investigate Kept
  investigate-keeps w h = rounds-keeps max_rounds 0 none [] w pack (grown-nil pack) (omega arith) h
