-- ===== src/Reflow.antt =====
-- internal/reflow/reflow.go: the digest that an agent may send back, and its signature.
-- Ed25519, base64 and the encoding of protobuf are outside of the repository.
pub mod Signed
use gpufleet_agent.Prelude.{
  ℕ, String, ◌≡◌, Bool, true, false, not, ◌||◌, Option, none, some, List, [], ◌∷◌, length, ltb,
  nat_eq, if◌then◌else◌,
}
use gpufleet_agent.Prelude.Int.{ℤ, pos, leb_ℤ}
use gpufleet_agent.Prelude.Strings.{◌<>◌, itoa}
use gpufleet_agent.Wire.{FaultClass, Verdict}
use gpufleet_agent.Semantics.{Result, ok, err}

-- `CountBucket`
pub data CountBucket : Type 0 where
  bucket_unspecified one few many : CountBucket

-- `DesensitizedDigest`
pub record Digest : Type 0 where
  pub fault_class : FaultClass
  pub signature : String
  pub count_bucket : CountBucket
  pub agent_version : String
  pub signed_digest : List ℕ

unfoldable pub bucket : ℤ → CountBucket
bucket count =
    if leb_ℤ count (pos 0)
    then bucket_unspecified
    else if leb_ℤ count (pos 1)
    then one
    else if leb_ℤ count (pos 5)
    then few
    else many

unfoldable pub build : {F : Type 0} → Option (Verdict F) → ℤ → String → Bool → Option Digest
unfolding bucket
build none count agent_version opted_in = none
build (some v) count agent_version opted_in =
    if not opted_in
    then none
    else some (record {
      fault_class = v.fault_class;
      signature = v.signature;
      count_bucket = bucket count;
      agent_version = agent_version;
      signed_digest = [];
    })

-- What the package calls: the keys and signatures of Ed25519, over bytes.
pub record Crypto : Type 1 where
  pub PrivateKey : Type 0
  pub PublicKey : Type 0
  -- `ed25519.SeedSize`
  pub seed_size : ℕ
  pub new_key_from_seed : List ℕ → PrivateKey
  pub public : PrivateKey → PublicKey
  pub sign : PrivateKey → List ℕ → List ℕ
  pub verify : PublicKey → List ℕ → List ℕ → Bool
  -- `base64.StdEncoding`, on a seed and on a public key.
  pub decode_string : String → Result (List ℕ)
  pub encode_key : PublicKey → String
  -- `proto.MarshalOptions{Deterministic: true}.Marshal`
  pub marshal : Digest → Result (List ℕ)

module _ (c : Crypto) where
  -- `Signer`
  pub record Signer : Type 0 where
    pub priv : c.PrivateKey

  unfoldable pub canonical_bytes : Digest → Result (List ℕ)
  canonical_bytes d = c.marshal (record d { signed_digest = [] })

  abbrev from_seed : Result (List ℕ) → Result Signer
  from_seed (err e) = err ("reflow: decode signing seed: " <> e)
  from_seed (ok seed) =
      if not (nat_eq (length seed) c.seed_size)
      then err ("reflow: seed must be " <> itoa c.seed_size <> " bytes, got " <> itoa (length seed))
      else ok (record { priv = c.new_key_from_seed seed })

  unfoldable pub new_signer_from_seed_b64 : String → Result Signer
  new_signer_from_seed_b64 seed_b64 = from_seed (c.decode_string seed_b64)

  unfoldable pub public_key_b64 : Signer → String
  public_key_b64 s = c.encode_key (c.public s.priv)

  abbrev pub signed_with : Signer → Digest → Result (List ℕ) → Result Digest
  signed_with s d (err e) = err ("reflow: canonicalize: " <> e)
  signed_with s d (ok msg) = ok (record d { signed_digest = c.sign s.priv msg })

  -- `Sign` returns the digest as it leaves it.
  unfoldable pub sign : Signer → Option Digest → Result Digest
  unfolding canonical_bytes
  sign s none = err "reflow: nil digest"
  sign s (some d) = signed_with s d (canonical_bytes d)

  abbrev pub verified_by : c.PublicKey → Digest → Result (List ℕ) → Bool
  verified_by key d (err e) = false
  verified_by key d (ok msg) = c.verify key msg d.signed_digest

  unfoldable pub verify : c.PublicKey → Option Digest → Bool
  unfolding canonical_bytes
  verify key none = false
  verify key (some d) =
      if nat_eq (length d.signed_digest) 0 then false else verified_by key d (canonical_bytes d)
