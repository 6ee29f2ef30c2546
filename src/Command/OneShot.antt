-- ===== src/Command/OneShot.antt =====
-- cmd/agent/main.go: the run without `-serve` prints the window of its own cycle.
use mathlib.Core.Path.{subst}
use gpufleet_agent.Prelude.{
  String, Bool, ◌≡◌, refl, inl, inr, ◌⊎◌, true, false, Option, none, some, arith,
}
use gpufleet_agent.Prelude.Strings.{◌<>◌}
use gpufleet_agent.Float.{Float64}
use gpufleet_agent.Wire.{EvidencePack}
use gpufleet_agent.Semantics.{Semantics, Pricing, Result, ok, err}
use gpufleet_agent.Daemon.{Host, State, Daemon}
use gpufleet_agent.Daemon.Refresh.{Cycle, collect_all, new_cycle, after_loop, refresh}
use gpufleet_agent.Daemon.Cycles.{
  published, Follows, ending_with, ending_of, ending, refresh-Follows,
}
use gpufleet_agent.Command.Once.{
  Printout, Exit, printed, exited, panicked, printout, marshalled, after_refresh, run_once,
}

module _ {F W : Type 0} ⦃fl : Float64 F⦄ {pr : Pricing F} (sem : Semantics F)
    (host : Host F W) where
  -- A cycle that returns no error publishes a window that began with it.
  pub refresh-published :
      (d : Daemon pr W) (w : W)
      → (refresh sem host d w).0 ≡ none
      → (st : State pr) × ((refresh sem host d w).1.state ≡ some st) × (st.refresh_at ≡ (d.now w).0)
  unfolding refresh ending
  refresh-published d w e =
      by_loop
        (collect_all host (d.now w).0 d.window d.collectors (new_cycle sem host d) (d.now w).1) e
        (refresh-Follows sem host d w).0
    where
      by_ending :
          (b : Bool) (d' : Daemon pr W)
          → Follows (d.now w).0 d (published b) d'
          → (st : State pr) × (d'.state ≡ some st) × (st.refresh_at ≡ (d.now w).0)
      by_ending true d' (st, (s, at, n), c, f) = (st, s, at)
      by_ending false d' (st, (s, at, n), c, f) = (st, s, at)

      by_loop :
          (r : Option String × Cycle F × W)
          → (after_loop sem host (d.now w).0 r d).0 ≡ none
          → Follows
              (d.now w).0
              d
              (ending_of r (after_loop sem host (d.now w).0 r d).0)
              (after_loop sem host (d.now w).0 r d).1
          → (st : State pr) × ((after_loop sem host (d.now w).0 r d).1.state ≡ some st)
            × (st.refresh_at ≡ (d.now w).0)
      by_loop (some x, cycle, w') h f = ground (arith, h)
      by_loop (none, cycle, w') h f =
          by_ending _ (after_loop sem host (d.now w).0 (none, cycle, w') d).1 (
            subst
              (λ o.
                Follows (d.now w).0 d (ending_with cycle o)
                  (after_loop sem host (d.now w).0 (none, cycle, w') d).1)
              h f)

module _ {F W : Type 0} ⦃fl : Float64 F⦄ {pr : Pricing F} (sem : Semantics F) (host : Host F W)
    (marshal : EvidencePack F → Result String) (encode_error : Printout pr → Option String) where
  -- The encoding of a state fails at one of its two steps.
  abbrev pub Fails : State pr → Type 0
  Fails st =
      ((e : String) × (marshal st.window.pack ≡ err e))
      ⊎ ((text : String) × (e : String) × (marshal st.window.pack ≡ ok text)
          × (encode_error (printout st text) ≡ some e))

  -- What an end of the run says of the cycle.
  abbrev pub Tells : Daemon pr W → W → Exit pr → Type 0
  Tells d w panicked = ⊥
  Tells d w (exited message) =
      ((e : String) × ((refresh sem host d w).0 ≡ some e))
      ⊎ ((st : State pr) × ((refresh sem host d w).1.state ≡ some st) × Fails st)
  Tells d w (printed out) =
      ((refresh sem host d w).0 ≡ none)
      × ((st : State pr) × ((refresh sem host d w).1.state ≡ some st)
          × (st.refresh_at ≡ (d.now w).0)
          × (marshal st.window.pack ≡ ok out.signals_json)
          × (out ≡ printout st out.signals_json))

  -- The run of a single cycle never dereferences a state that is missing. It prints only after a cycle
  -- without an error, and then the pack, the cost and the degradation of the window that this cycle
  -- published; it exits with a message only if the cycle failed, or if the pack or the output of the
  -- window that it published cannot be encoded.
  pub run_once-Tells :
      (d : Daemon pr W) (w : W) → Tells d w (run_once sem host marshal encode_error d w)
  unfolding run_once
  run_once-Tells d w = by_error (refresh sem host d w).0 refl
    where
      by_encoding :
          (st : State pr) (text : String) (o : Option String)
          → (refresh sem host d w).0 ≡ none
          → (refresh sem host d w).1.state ≡ some st
          → st.refresh_at ≡ (d.now w).0
          → marshal st.window.pack ≡ ok text
          → encode_error (printout st text) ≡ o
          → Tells d w (elim o [
            | none ↦ printed (printout st text)
            | some e ↦ exited ("agent: encode failed: " <> e)
          ])
      by_encoding st text none h s at m e = (h, (st, s, at, m, refl))
      by_encoding st text (some x) h s at m e = inr (st, s, inr (text, x, m, e))

      by_marshal :
          (st : State pr) (r : Result String)
          → (refresh sem host d w).0 ≡ none
          → (refresh sem host d w).1.state ≡ some st
          → st.refresh_at ≡ (d.now w).0
          → marshal st.window.pack ≡ r
          → Tells d w (marshalled sem host marshal encode_error st r)
      by_marshal st (err e) h s at m = inr (st, s, inl (e, m))
      by_marshal st (ok text) h s at m =
          by_encoding st text (encode_error (printout st text)) h s at m refl

      by_error :
          (o : Option String)
          → (refresh sem host d w).0 ≡ o
          → Tells d w (after_refresh sem host marshal encode_error o (refresh sem host d w).1.state)
      by_error (some e) h = inl (e, h)
      by_error none h =
          let (st, s, at) = refresh-published sem host d w h in
          rw s (by_marshal st (marshal st.window.pack) h s at refl)
