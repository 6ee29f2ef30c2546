-- ===== src/Command/Investigating.antt =====
-- cmd/agent/main.go, `runInvestigateLoop`: the loop that posts each new window to the control plane,
-- beside the daemon's own loop. An interleaving of the two loops and of the goroutines of the
-- investigations is a run of steps.
pub mod Single
use gpufleet_agent.Prelude.{
  ℕ, suc, ◌+◌, ◌≡◌, Option, none, some, List, [], ◌∷◌, ◌++◌, nat_eq, ltb, if◌then◌else◌,
}
use gpufleet_agent.Float.{Float64}
use gpufleet_agent.Wire.{EvidencePack}
use gpufleet_agent.Semantics.{Semantics, Pricing}
use gpufleet_agent.Daemon.{Host, State, Daemon}
use gpufleet_agent.Daemon.Refresh.{refresh}

module _ {F : Type 0} (pr : Pricing F) (W : Type 0) where
  -- The daemon; the variables of the loop, `in_flight` being the length of the channel with room for
  -- one; the packs of the goroutines that run; the refresh numbers of all windows whose investigation
  -- was started, the newest first; and how many cycles the daemon began.
  pub record System : Type 0 where
    pub daemon : Daemon pr W
    pub last_refreshes : ℕ
    pub in_flight : ℕ
    pub running : List (EvidencePack F)
    pub sent : List ℕ
    pub cycles : ℕ

abbrev pub max_in_flight : ℕ
max_in_flight = 1

module _ {F W : Type 0} {pr : Pricing F} where
  abbrev pub launched : State pr → System pr W → System pr W
  launched st s = record s {
    last_refreshes = st.refreshes;
    in_flight = s.in_flight + 1;
    running = st.window.pack ∷ s.running;
    sent = st.refreshes ∷ s.sent;
  }

  abbrev pub at_snapshot : Option (State pr) → System pr W → System pr W
  at_snapshot none s = s
  at_snapshot (some st) s =
      if nat_eq st.refreshes s.last_refreshes
      then s
      else if ltb s.in_flight max_in_flight
      then launched st s
      else s

  -- A tick of the loop: what it does with the daemon's snapshot.
  unfoldable pub on_tick : System pr W → System pr W
  on_tick s = at_snapshot s.daemon.state s

  abbrev pub initial : Daemon pr W → System pr W
  initial d = record {
    daemon = d;
    last_refreshes = 0;
    in_flight = 0;
    running = [];
    sent = [];
    cycles = 0;
  }

module _ {F W : Type 0} ⦃fl : Float64 F⦄ {pr : Pricing F} (sem : Semantics F)
    (host : Host F W) where
  -- A step: a cycle of the daemon, a tick of the loop, or the end of a goroutine, which takes its
  -- token from the channel, and would wait if there were none.
  pub data Step : System pr W → System pr W → Type 0 where
    cycle :
        (s : System pr W) (w : W)
        → Step s (record s { daemon = (refresh sem host s.daemon w).1; cycles = suc s.cycles })
    tick : (s : System pr W) → Step s (on_tick s)
    finish :
        (s : System pr W) (before after : List (EvidencePack F)) (pack : EvidencePack F) (n : ℕ)
        → s.running ≡ before ++ pack ∷ after
        → s.in_flight ≡ suc n
        → Step s (record s { running = before ++ after; in_flight = n })

  pub data Reach (s : System pr W) : System pr W → Type 0 where
    start : Reach s s
    next : {t u : System pr W} → Reach s t → Step t u → Reach s u
