-- ===== src/Dcgm/Exposition/Scrape.antt =====
-- collectors_dcgm.go, `Collect`: one scrape of the exporter, under the cap on bursts.
use gpufleet_agent.Prelude.{
  ℕ, ◌*◌, String, ◌≡◌, ◌∙◌, refl, arith, Bool, true, false, not, ◌==◌, Option, none, some, nat_eq,
  if◌then◌else◌,
}
use gpufleet_agent.Prelude.Int.{pos}
use gpufleet_agent.Prelude.Strings.{◌<>◌, itoa}
use gpufleet_agent.Float.{Float64}
use gpufleet_agent.Wire.{Time, Duration}
use gpufleet_agent.Observation.{Observation, Failure, Collected, observed, failed}
use gpufleet_agent.Semantics.{Result, ok, err}
use gpufleet_agent.Daemon.{Clock, second, positive_or}
use gpufleet_agent.Dcgm.{
  DcgmExporterCollector, scrape_allowed, apply_dbe_delta, apply_link_err_delta,
}
use gpufleet_agent.Dcgm.Exposition.Devices.{parse_dcgm_exposition}

-- A response: its status, and its body or the error of reading it.
pub record GetResponse : Type 0 where
  pub status_code : ℕ
  pub body : Result String

-- The GET of a URL, by a client and under a timeout.
abbrev pub Get : Type 0 → Type 0
Get W = Duration → String → W → Result GetResponse × W

-- net/http: the error of a request that cannot be made, the client for a given timeout, and
-- `time.Now`.
pub record Web (W : Type 0) : Type 0 where
  pub request_error : String → Option String
  pub client : Duration → Get W
  pub clock : Clock W

-- The rest of the fields of `DCGMExporterCollector`; `gate` holds those that a scrape changes.
pub record DcgmExporter (W : Type 0) : Type 0 where
  pub scrape_url : String
  pub node : String
  pub http_client : Option (Get W)
  pub timeout : Duration
  pub now : Option (Clock W)
  pub gate : DcgmExporterCollector

abbrev pub hard : String → Failure
hard text = record { text = text; is_capped = false }

-- `ErrProfilingCapped`
abbrev pub profiling_capped : Failure
profiling_capped = record { text = "agent: dcgm profiling burst rate-capped"; is_capped = true }

module _ {W : Type 0} where
  -- `clock`, which only a burst reads.
  abbrev gate_time : Web W → DcgmExporter W → W → Time × W
  gate_time web c w =
      if c.gate.profiling_burst
      then elim c.now [ none ↦ web.clock w | some now ↦ now w ]
      else (pos 0, w)

  abbrev get_of : Web W → DcgmExporter W → Get W
  get_of web c = elim c.http_client [
    | none ↦ web.client (positive_or (pos (5 * second)) c.timeout)
    | some get ↦ get
  ]

module _ {F W : Type 0} ⦃fl : Float64 F⦄ where
  -- The deltas of both counters, against the readings that are kept.
  abbrev pub with_deltas : DcgmExporter W → Observation F → Observation F × DcgmExporter W
  with_deltas c o =
      let ecc = apply_dbe_delta o.device_windows c.gate in
      let link = apply_link_err_delta ecc.0 ecc.1 in
      (record o { device_windows = link.0 }, record c { gate = link.1 })

  abbrev pub parsed : DcgmExporter W → Result (Observation F) → Collected F × DcgmExporter W
  parsed c (err e) = (failed (hard e), c)
  parsed c (ok o) = let done = with_deltas c o in (observed done.0, done.1)

  abbrev pub received :
      Time → Duration → DcgmExporter W → Result GetResponse → Collected F × DcgmExporter W
  received now window c (err e) = (failed (hard ("agent: dcgm-exporter scrape: " <> e)), c)
  received now window c (ok resp) =
      if not (nat_eq resp.status_code 200)
      then (failed (hard ("agent: dcgm-exporter scrape status " <> itoa resp.status_code)), c)
      else parsed c (parse_dcgm_exposition resp.body now window c.node)

  abbrev requested :
      Web W
      → Time
      → Duration
      → DcgmExporter W
      → W
      → Option String
      → Collected F × DcgmExporter W × W
  requested web now window c w (some e) = (failed (hard e), c, w)
  requested web now window c w none =
      let answer = get_of web c (positive_or (pos (5 * second)) c.timeout) c.scrape_url w in
      let done = received now window c answer.0 in (done.0, done.1, answer.1)

  abbrev pub gated :
      Web W
      → Time
      → Duration
      → DcgmExporter W
      → Bool × DcgmExporterCollector
      → W
      → Collected F × DcgmExporter W × W
  gated web now window c (false, gate) w = (failed profiling_capped, record c { gate = gate }, w)
  gated web now window c (true, gate) w =
      requested web now window (record c { gate = gate }) w (web.request_error c.scrape_url)

  -- `Collect`
  unfoldable pub dcgm_collect :
      Web W → DcgmExporter W → Time → Duration → W → Collected F × DcgmExporter W × W
  unfolding scrape_allowed apply_dbe_delta apply_link_err_delta parse_dcgm_exposition
  dcgm_collect web c now window w =
      let at = gate_time web c w in
      if c.scrape_url == ""
      then (failed (hard "agent: DCGMExporterCollector requires ScrapeURL"), c, w)
      else gated web now window c (scrape_allowed at.0 c.gate) at.1

  -- The collector after a call: a failure keeps the last readings of both counters.
  abbrev pub Keeps : DcgmExporter W → Collected F → DcgmExporter W → Type 0
  Keeps c (failed e) c' =
      (c'.gate.prev_dbe ≡ c.gate.prev_dbe) × (c'.gate.prev_link_err ≡ c.gate.prev_link_err)
  Keeps c (observed o) c' = Unit

allowed_same :
    (now : Time) (gate : DcgmExporterCollector)
    → ((scrape_allowed now gate).1.prev_dbe ≡ gate.prev_dbe)
      × ((scrape_allowed now gate).1.prev_link_err ≡ gate.prev_link_err)
unfolding scrape_allowed
allowed_same now gate = ground arith

module _ (F : Type 0) {W : Type 0} ⦃fl : Float64 F⦄ where
  received-Keeps :
      (now : Time) (window : Duration) (c : DcgmExporter W) (r : Result GetResponse)
      → Keeps c (received {F = F} now window c r).0 (received {F = F} now window c r).1
  received-Keeps now window c (err e) = (refl, refl)
  received-Keeps now window c (ok resp) = by_status (nat_eq resp.status_code 200)
    where
      by_parse : (r : Result (Observation F)) → Keeps c (parsed c r).0 (parsed c r).1
      by_parse (err e) = (refl, refl)
      by_parse (ok o) = tt

      by_status :
          (b : Bool)
          → let r : Collected F × DcgmExporter W =
              if not b
              then (
                failed (hard ("agent: dcgm-exporter scrape status " <> itoa resp.status_code)),
                c,
              )
              else parsed c (parse_dcgm_exposition resp.body now window c.node) in
            Keeps c r.0 r.1
      by_status false = (refl, refl)
      by_status true = by_parse (parse_dcgm_exposition resp.body now window c.node)

  Keeps-trans :
      (c c' : DcgmExporter W) (r : Collected F) (last : DcgmExporter W)
      → c'.gate.prev_dbe ≡ c.gate.prev_dbe
      → c'.gate.prev_link_err ≡ c.gate.prev_link_err
      → Keeps c' r last
      → Keeps c r last
  Keeps-trans c c' (failed e) last h g k = (k.0 ∙ h, k.1 ∙ g)
  Keeps-trans c c' (observed o) last h g k = tt

  requested-Keeps :
      (web : Web W) (now : Time) (window : Duration) (c : DcgmExporter W) (w : W)
      (o : Option String)
      → Keeps c
          (requested {F = F} web now window c w o).0
          (requested {F = F} web now window c w o).1
  requested-Keeps web now window c w (some e) = (refl, refl)
  requested-Keeps web now window c w none =
      received-Keeps now window c
        (get_of web c (positive_or (pos (5 * second)) c.timeout) c.scrape_url w).0

  gated-Keeps :
      (web : Web W) (now : Time) (window : Duration) (c : DcgmExporter W)
      (p : Bool × DcgmExporterCollector) (w : W)
      → p.1.prev_dbe ≡ c.gate.prev_dbe
      → p.1.prev_link_err ≡ c.gate.prev_link_err
      → Keeps c (gated {F = F} web now window c p w).0 (gated {F = F} web now window c p w).1
  gated-Keeps web now window c (false, gate) w h g = (h, g)
  gated-Keeps web now window c (true, gate) w h g =
      Keeps-trans c (record c { gate = gate }) _ _ h g
        (requested-Keeps web now window (record c { gate = gate }) w
          (web.request_error c.scrape_url))

  -- Whatever makes a scrape fail (the cap on bursts, the network, the status or the body), the last
  -- readings of both counters are kept, so no error that is counted meanwhile is lost.
  pub dcgm_collect-Keeps :
      (web : Web W) (c : DcgmExporter W) (now : Time) (window : Duration) (w : W)
      → Keeps c
          (dcgm_collect {F = F} web c now window w).0
          (dcgm_collect {F = F} web c now window w).1
  unfolding dcgm_collect
  dcgm_collect-Keeps web c now window w = by_url (c.scrape_url == "")
    where
      at : Time × W
      at = gate_time web c w

      by_url :
          (b : Bool)
          → let r : Collected F × DcgmExporter W × W =
              if b
              then (failed (hard "agent: DCGMExporterCollector requires ScrapeURL"), c, w)
              else gated web now window c (scrape_allowed at.0 c.gate) at.1 in
            Keeps c r.0 r.1
      by_url true = (refl, refl)
      by_url false =
          let same = allowed_same at.0 c.gate in
          gated-Keeps web now window c (scrape_allowed at.0 c.gate) at.1 same.0 same.1
