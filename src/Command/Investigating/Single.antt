-- ===== src/Command/Investigating/Single.antt =====
-- cmd/agent/main.go, `runInvestigateLoop`: one investigation at a time, and none twice.
use mathlib.Core.Path.{subst}
use gpufleet_agent.Prelude.{
  ℕ, suc, ◌^◌, ◌≤◌, ◌<◌, ◌≡◌, refl, sym, ap, ◌∙◌, inl, inr, ◌⊎◌, true, false, Option, none, some,
  List, [], ◌∷◌, ◌++◌, In, length, length-append, nat_eq, nat_eq_iff, ltb, arith, Bool-cases,
}
use gpufleet_agent.Float.{Float64}
use gpufleet_agent.Wire.{Time, EvidencePack}
use gpufleet_agent.Semantics.{Semantics, Pricing}
use gpufleet_agent.Daemon.{Host, State, Daemon, inc64}
use gpufleet_agent.Daemon.Refresh.{previous_refreshes}
use gpufleet_agent.Daemon.Cycles.{
  Ending, stopped, lost, published, Follows, ending, refresh-Follows,
}
use gpufleet_agent.Command.Investigating.{
  System, max_in_flight, at_snapshot, on_tick, initial, Step, cycle, tick, finish, Reach, start,
  next,
}

-- The numbers fall strictly from `n` on.
abbrev Below : ℕ → List ℕ → Type 0
Below n [] = Unit
Below n (m ∷ ns) = (m < n) × Below m ns

-- The newest number is the last that was sent; before any, it is 0.
abbrev pub Descends : ℕ → List ℕ → Type 0
Descends last [] = last ≡ 0
Descends last (n ∷ ns) = (last ≡ n) × Below n ns

Descends-Below : (last n : ℕ) (ns : List ℕ) → last < n → Descends last ns → Below n ns
Descends-Below last n [] lt h = tt
Descends-Below last n (m ∷ ns) lt (e, h) = (omega arith, h)

module _ {F : Type 0} {pr : Pricing F} where
  -- A published window has a number.
  abbrev Numbered : Option (State pr) → Type 0
  Numbered none = Unit
  Numbered (some st) = 0 < st.refreshes

module _ {F W : Type 0} {pr : Pricing F} where
  pub record IsSingle (s : System pr W) : Type 0 where
    pub slots : length s.running ≡ s.in_flight
    pub single : s.in_flight ≤ max_in_flight
    pub behind : s.last_refreshes ≤ previous_refreshes s.daemon.state
    pub counted : previous_refreshes s.daemon.state ≤ s.cycles
    pub numbered : Numbered s.daemon.state
    pub descends : Descends s.last_refreshes s.sent

  -- What a cycle does to the number of the newest window.
  abbrev Numbers : Daemon pr W → Daemon pr W → Type 0
  Numbers d d' =
      (d'.state ≡ d.state)
      ⊎ ((st : State pr) × (d'.state ≡ some st)
          × (st.refreshes ≡ inc64 (previous_refreshes d.state)))

  Follows-Numbers :
      (now : Time) (d d' : Daemon pr W) (e : Ending) → Follows now d e d' → Numbers d d'
  Follows-Numbers now d d' stopped h = inl h.0
  Follows-Numbers now d d' lost h = inl h.0
  Follows-Numbers now d d' (published true) (st, (s, at, n), c, f) = inr (st, s, n)
  Follows-Numbers now d d' (published false) (st, (s, at, n), c, f) = inr (st, s, n)

  cycle-IsSingle :
      (s : System pr W) (d' : Daemon pr W)
      → Numbers s.daemon d'
      → suc s.cycles < 2 ^ 64
      → IsSingle s
      → IsSingle (record s { daemon = d'; cycles = suc s.cycles })
  cycle-IsSingle s d' (inl same) few h = record {
    slots = h.slots;
    single = h.single;
    behind = rw same h.behind;
    counted = rw same (omega (arith, h.counted));
    numbered = rw same h.numbered;
    descends = h.descends;
  }
  cycle-IsSingle s d' (inr (st, shown, number)) few h =
      let up : st.refreshes ≡ suc (previous_refreshes s.daemon.state) =
        number ∙ omega (arith, h.counted) in
      record {
        slots = h.slots;
        single = h.single;
        behind = rw shown (omega (arith, up, h.behind));
        counted = rw shown (omega (arith, up, h.counted));
        numbered = rw shown (omega (arith, up));
        descends = h.descends;
      }

  snapshot-IsSingle :
      (s : System pr W) (o : Option (State pr))
      → s.daemon.state ≡ o
      → IsSingle s
      → IsSingle (at_snapshot o s)
  snapshot-IsSingle s none e h = h
  snapshot-IsSingle s (some st) e h = elim (Bool-cases (nat_eq st.refreshes s.last_refreshes)) [
    | inl old ↦ rw old h
    | inr new ↦ elim (Bool-cases (ltb s.in_flight max_in_flight)) [
      | inr busy ↦ rw (new, busy) h
      | inl free ↦
          let last : s.last_refreshes ≤ st.refreshes = rw e at h.behind in
          let ahead : s.last_refreshes < st.refreshes = ground arith in
          rw (new, free)
            (record {
              slots = omega (arith, h.slots);
              single = ground arith;
              behind = rw e (omega arith);
              counted = h.counted;
              numbered = h.numbered;
              descends =
                  (refl, Descends-Below s.last_refreshes st.refreshes s.sent ahead h.descends);
            })
    ]
  ]

  finish-IsSingle :
      (s : System pr W) (before after : List (EvidencePack F)) (pack : EvidencePack F) (n : ℕ)
      → s.running ≡ before ++ pack ∷ after
      → s.in_flight ≡ suc n
      → IsSingle s
      → IsSingle (record s { running = before ++ after; in_flight = n })
  finish-IsSingle s before after pack n e k h = record {
    slots = omega (
      arith,
      h.slots,
      ap length e,
      length-append before (pack ∷ after),
      length-append before after,
    );
    single = omega (arith, h.single);
    behind = h.behind;
    counted = h.counted;
    numbered = h.numbered;
    descends = h.descends;
  }

  on_tick-IsSingle : (s : System pr W) → IsSingle s → IsSingle (on_tick s)
  unfolding on_tick
  on_tick-IsSingle s h = snapshot-IsSingle s s.daemon.state refl h

  snapshot-cycles : (s : System pr W) (o : Option (State pr)) → (at_snapshot o s).cycles ≡ s.cycles
  snapshot-cycles s none = refl
  snapshot-cycles s (some st) = ground arith

  pub on_tick-cycles : (s : System pr W) → (on_tick s).cycles ≡ s.cycles
  unfolding on_tick
  on_tick-cycles s = snapshot-cycles s s.daemon.state

  initial-IsSingle : (d : Daemon pr W) → d.state ≡ none → IsSingle (initial d)
  initial-IsSingle d e = record {
    slots = refl;
    single = omega arith;
    behind = omega arith;
    counted = rw e (omega arith);
    numbered = rw e tt;
    descends = refl;
  }

  -- The newest window is among those that were sent, after a tick that no investigation holds up.
  snapshot-Sends :
      (s : System pr W) (st : State pr)
      → IsSingle s
      → s.daemon.state ≡ some st
      → s.running ≡ []
      → In st.refreshes (at_snapshot (some st) s).sent
  snapshot-Sends s st h e idle = elim (Bool-cases (nat_eq st.refreshes s.last_refreshes)) [
    | inl old ↦
        let numbered : 0 < st.refreshes = (rw e at h.numbered) in
        rw old (
          sent_last st.refreshes s.last_refreshes s.sent ((nat_eq_iff _ _).0 old) numbered
            h.descends)
    | inr new ↦
        let free : s.in_flight ≡ 0 = sym h.slots ∙ ap length idle in rw (new, free) (inl refl)
  ]
    where
      sent_last : (n last : ℕ) (ns : List ℕ) → n ≡ last → 0 < n → Descends last ns → In n ns
      sent_last n last [] e lt d = absurd (omega (arith, d))
      sent_last n last (m ∷ ns) e lt (d, b) = inl (omega arith)

module _ {F W : Type 0} ⦃fl : Float64 F⦄ {pr : Pricing F} {sem : Semantics F}
    {host : Host F W} where
  Step-IsSingle :
      {s t : System pr W} → Step sem host s t → t.cycles < 2 ^ 64 → IsSingle s → IsSingle t
  Step-IsSingle (cycle s w) few h =
      cycle-IsSingle s _
        (Follows-Numbers _ s.daemon _ (ending sem host s.daemon w)
          (refresh-Follows sem host s.daemon w).0)
        few h
  Step-IsSingle (tick s) few h = on_tick-IsSingle s h
  Step-IsSingle (finish s before after pack n e k) few h =
      finish-IsSingle s before after pack n e k h

  Step-cycles : {s t : System pr W} → Step sem host s t → s.cycles ≤ t.cycles
  Step-cycles (cycle s w) = omega arith
  Step-cycles (tick s) = omega (arith, on_tick-cycles s)
  Step-cycles (finish s before after pack n e k) = omega arith

  -- However the cycles of the daemon, the ticks of the loop and the ends of the investigations follow
  -- one another, for fewer than 2 ^ 64 cycles of a daemon that has published nothing at the start: at
  -- most one investigation runs, and as many run as tokens are in the channel, so none waits for its
  -- own; the windows whose investigation was started have strictly increasing numbers, so that none is
  -- sent twice, and the last of them is the one that the loop remembers.
  pub Reach-IsSingle :
      {d : Daemon pr W} {s : System pr W}
      → d.state ≡ none
      → Reach sem host (initial d) s
      → s.cycles < 2 ^ 64
      → IsSingle s
  Reach-IsSingle {d} e start few = initial-IsSingle d e
  Reach-IsSingle e (next r step) few =
      Step-IsSingle step few (Reach-IsSingle e r (omega (arith, Step-cycles step)))

  -- However the cycles of the daemon, the ticks of the loop and the ends of the investigations follow
  -- one another, for fewer than 2 ^ 64 cycles of a daemon that has published nothing at the start: if no
  -- investigation runs at a tick, the window that the daemon shows then was sent before or is sent by
  -- this tick, so no window that is still the newest is left out.
  pub on_tick-Sends :
      {d : Daemon pr W} {s : System pr W} {st : State pr}
      → d.state ≡ none
      → Reach sem host (initial d) s
      → s.cycles < 2 ^ 64
      → s.running ≡ []
      → s.daemon.state ≡ some st
      → In st.refreshes (on_tick s).sent
  unfolding on_tick
  on_tick-Sends {d} {s} {st} e r few idle shown =
      subst (λ o. In st.refreshes (at_snapshot o s).sent) (sym shown)
        (snapshot-Sends s st (Reach-IsSingle e r few) shown idle)
