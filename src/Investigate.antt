-- ===== src/Investigate.antt =====
-- internal/investigate/client.go: the loop that posts the pack, runs what the control plane asks
-- for, and posts again.
-- `W` is the state of everything outside the client: the network, the control plane, the executor
-- and the context.
pub mod Rounds
pub mod Answers
use gpufleet_agent.Prelude.{
  ℕ, zero, suc, String, ◌+◌, ◌-◌, ◌*◌, ◌^◌, Bool, true, false, not, ◌||◌, Option, none, some, List,
  [], ◌∷◌, ◌++◌, ◌==◌, nat_eq, leb, ltb, length, if◌then◌else◌,
}
use gpufleet_agent.Prelude.Int.{pos}
use gpufleet_agent.Prelude.Strings.{◌<>◌, itoa}
use gpufleet_agent.Wire.{
  Duration, TimelineEntry, CapabilityDescriptor, EvidencePack, FaultClass, abstain, fault, Verdict,
  CollectDirective, InvestigateResponse,
}
use gpufleet_agent.Semantics.{Result, ok, err}
use gpufleet_agent.Directive.{TierEnabled, validate}

abbrev pub max_rounds : ℕ
max_rounds = 3

-- `maxBody`, 1 MiB.
abbrev pub max_body : ℕ
max_body = 2 ^ 20

pub record HttpRequest : Type 0 where
  pub url : String
  pub body : String
  pub headers : List (String × String)

-- The bytes that the peer sends, and the error that ends them, if one does.
pub record HttpResponse : Type 0 where
  pub status_code : ℕ
  pub body : List ℕ
  pub read_error : Option String

-- net/http and protojson.
pub record Net (F : Type 0) (W : Type 0) : Type 0 where
  pub marshal : EvidencePack F → Result String
  pub unmarshal : List ℕ → Result (InvestigateResponse F)
  -- The error of `http.NewRequestWithContext`.
  pub request_error : W → HttpRequest → Option String
  -- A client with a timeout that does the request.
  pub default_client : Duration → W → HttpRequest → Result HttpResponse × W

pub record Client (W : Type 0) : Type 0 where
  pub url : String
  pub token : String
  pub node_id : String
  pub consent : TierEnabled
  -- `DirectiveExecutor.Execute`; an entry may be nil.
  pub executor : Option (W → CollectDirective → Result (List (Option TimelineEntry)) × W)
  -- `HC.Do`
  pub hc : Option (W → HttpRequest → Result HttpResponse × W)

-- `NoopExecutor`
abbrev pub noop_execute :
    {W : Type 0} → W → CollectDirective → Result (List (Option TimelineEntry)) × W
noop_execute w d = (ok [], w)

abbrev pub take : {A : Type 0} → ℕ → List A → List A
take zero xs = []
take (suc n) [] = []
take (suc n) (x ∷ xs) = x ∷ take n xs

-- `io.ReadAll(io.LimitReader(body, n))`: an error that comes after the limit is not met.
unfoldable pub read_limited : ℕ → HttpResponse → Result (List ℕ)
read_limited n resp =
    if leb n (length resp.body)
    then ok (take n resp.body)
    else elim resp.read_error [ none ↦ ok resp.body | some e ↦ err e ]

abbrev wrap : {A : Type 0} → String → Result A → Result A
wrap context (ok a) = ok a
wrap context (err e) = err (context <> e)

-- `req.Header.Set` under a test that the value is not empty.
abbrev header : String → String → String → List (String × String)
header name test value = if test == "" then [] else (name, value) ∷ []

abbrev pub request : {W : Type 0} → Client W → String → HttpRequest
request c body = record {
  url = c.url <> "/v1/investigate";
  body = body;
  headers =
      ("Content-Type", "application/json")
      ∷ (header "Authorization" c.token ("Bearer " <> c.token)
          ++ header "X-Gpufleet-Node-Id" c.node_id c.node_id);
}

module _ {F W : Type 0} where
  abbrev pub http_client : Net F W → Client W → W → HttpRequest → Result HttpResponse × W
  http_client net c = elim c.hc [
    | none ↦ net.default_client (pos (30 * 1000000000))
    | some do_request ↦ do_request
  ]

  -- What `post` does with the bytes that were read.
  unfoldable pub decode : Net F W → ℕ → Result (List ℕ) → Result (InvestigateResponse F)
  decode net status (err e) = err ("read response body: " <> e)
  decode net status (ok raw) =
      if ltb max_body (length raw)
      then err ("response body exceeds " <> itoa max_body <> " bytes")
      else if not (nat_eq status 200)
      then err ("server returned HTTP " <> itoa status)
      else wrap "decode InvestigateResponse: " (net.unmarshal raw)

  abbrev pub receive : Net F W → Result HttpResponse × W → Result (InvestigateResponse F) × W
  receive net (err e, w) = (err ("POST /v1/investigate: " <> e), w)
  receive net (ok resp, w) = (decode net resp.status_code (read_limited (max_body + 1) resp), w)

  abbrev pub send : Net F W → Client W → W → Result String → Result (InvestigateResponse F) × W
  send net c w (err e) = (err ("marshal pack: " <> e), w)
  send net c w (ok body) = elim (net.request_error w (request c body)) [
    | some e ↦ (err ("build request: " <> e), w)
    | none ↦ receive net (http_client net c w (request c body))
  ]

  unfoldable pub post : Net F W → Client W → W → EvidencePack F → Result (InvestigateResponse F) × W
  unfolding decode read_limited
  post net c w pack = send net c w (net.marshal pack)

-- The variables of a round: the running pack, and how many entries it gained.
pub record Running (F W : Type 0) : Type 0 where
  pub pack : EvidencePack F
  pub world : W
  pub added : ℕ

module _ {F W : Type 0} where
  -- `for _, e := range entries`
  unfoldable pub append_entries : List (Option TimelineEntry) → Running F W → Running F W
  append_entries [] run = run
  append_entries (none ∷ es) run = append_entries es run
  append_entries (some e ∷ es) run = append_entries es (record {
    pack = record run.pack { timeline = run.pack.timeline ++ e ∷ [] };
    world = run.world;
    added = run.added + 1;
  })

  abbrev pub finish_execute : Running F W → Result (List (Option TimelineEntry)) × W → Running F W
  finish_execute run (err e, w) = record run { world = w }
  finish_execute run (ok entries, w) = append_entries entries (record run { world = w })

  abbrev pub execute_vetted :
      Client W → Running F W → Result (CapabilityDescriptor × CollectDirective) → Running F W
  execute_vetted c run (err e) = run
  execute_vetted c run (ok (desc, safe)) = elim c.executor [
    | none ↦ run
    | some execute ↦ finish_execute run (execute run.world safe)
  ]

  unfoldable pub execute_directives :
      Client W → List (Option CollectDirective) → Running F W → Running F W
  unfolding append_entries
  execute_directives c [] run = run
  execute_directives c (none ∷ ds) run = execute_directives c ds run
  execute_directives c (some d ∷ ds) run =
      execute_directives c ds (execute_vetted c run (validate (some d) c.consent))

-- The verdict and the error that `Investigate` returns, and the state it leaves.
pub record Outcome (F W : Type 0) : Type 0 where
  pub verdict : Option (Verdict F)
  pub error : Option String
  pub world : W

abbrev round_error : ℕ → String → String
round_error round e = "investigate round " <> itoa (round + 1) <> e

abbrev is_abstain : FaultClass → Bool
is_abstain abstain = true
is_abstain (fault _) = false

-- What a round does after its post: return, or run the directives.
pub data Next (F W : Type 0) : Type 0 where
  done : Outcome F W → Next F W
  again : Running F W → Verdict F → Next F W

module _ {F W : Type 0} where
  abbrev pub after_execute : Verdict F → Running F W → Next F W
  after_execute v run =
      if nat_eq run.added 0
      then done (record { verdict = some v; error = none; world = run.world })
      else again run v

  abbrev pub after_verdict :
      Client W → EvidencePack F → List (Option CollectDirective) → Verdict F → W → Next F W
  after_verdict c pack directives v w =
      if not (is_abstain v.fault_class) || nat_eq (length directives) 0
      then done (record { verdict = some v; error = none; world = w })
      else after_execute v
          (execute_directives c directives (record { pack = pack; world = w; added = 0 }))

  unfoldable pub after_post :
      Client W
      → ℕ
      → Option (Verdict F)
      → EvidencePack F
      → Result (InvestigateResponse F) × W
      → Next F W
  unfolding execute_directives
  after_post c round last pack (err e, w) =
      done (record { verdict = last; error = some (round_error round (": " <> e)); world = w })
  after_post c round last pack (ok resp, w) = elim resp.verdict [
    | none ↦ done (record {
      verdict = last;
      error = some (round_error round ": server returned nil verdict");
      world = w;
    })
    | some v ↦ after_verdict c pack resp.directives v w
  ]

  -- The loop with `left` rounds to go.
  unfoldable pub rounds :
      Net F W → Client W → ℕ → Option (Verdict F) → EvidencePack F → W → Outcome F W
  unfolding after_post post
  rounds net c zero last pack w = record { verdict = last; error = none; world = w }
  rounds net c (suc left) last pack w =
      elim (after_post c (max_rounds - suc left) last pack (post net c w pack)) [
        | done out ↦ out
        | again run v ↦ rounds net c left (some v) run.pack run.world
      ]

  unfoldable pub investigate : Net F W → Client W → EvidencePack F → W → Outcome F W
  unfolding rounds
  investigate net c pack w = rounds net c max_rounds none pack w
