-- ===== src/Reflow/Signed.antt =====
-- internal/reflow/reflow.go: what a digest tells, and when it verifies.
use gpufleet_agent.Prelude.{
  ℕ, String, ◌≡◌, ◌≢◌, ◌⊎◌, refl, Bool, true, false, none, some, List, [], ◌∷◌, length, nat_eq,
  arith, if◌then◌else◌,
}
use gpufleet_agent.Prelude.Int.{ℤ, pos, ◌≤ℤ◌}
use gpufleet_agent.Prelude.Strings.{◌<>◌}
use gpufleet_agent.Wire.{Verdict}
use gpufleet_agent.Semantics.{Result, ok, err}
use gpufleet_agent.Reflow.{Digest, bucket, build, Crypto, Signer, canonical_bytes, sign, verify}

-- What the digest code relies on in Ed25519: a signature is not empty, and it verifies under the
-- public key of its signer.
pub record IsSound (c : Crypto) : Type 0 where
  pub signature_ne_nil : (k : c.PrivateKey) (msg : List ℕ) → c.sign k msg ≢ []
  pub verify_signed :
      (k : c.PrivateKey) (msg : List ℕ) → c.verify (c.public k) msg (c.sign k msg) ≡ true

abbrev result_or : Digest → Result Digest → Digest
result_or d (err e) = d
result_or d (ok d') = d'

module _ (c : Crypto) (sound : IsSound c) where
  nonempty : (sig : List ℕ) → sig ≢ [] → nat_eq (length sig) 0 ≡ false
  nonempty [] h = absurd (h refl)
  nonempty (b ∷ bs) h = ground arith

  verified :
      (s : Signer c) (d : Digest) (msg : List ℕ)
      → canonical_bytes c d ≡ ok msg
      → verify c (c.public s.priv) (some (record d { signed_digest = c.sign s.priv msg })) ≡ true
  unfolding verify canonical_bytes
  verified s d msg e =
      rw (nonempty _ (sound.signature_ne_nil s.priv msg), e) (sound.verify_signed s.priv msg)

  -- What `Sign` makes of a digest: the failure of its encoding, or the same digest with a signature
  -- that verifies.
  abbrev pub Signs : Signer c → Digest → Result (List ℕ) → Type 0
  Signs s d (err e) =
      (sign c s (some d) ≡ err ("reflow: canonicalize: " <> e))
      × (verify c (c.public s.priv) (some d) ≡ false)
  Signs s d (ok msg) =
      (sig : List ℕ) × (sign c s (some d) ≡ ok (record d { signed_digest = sig }))
      × (verify c (c.public s.priv) (some (record d { signed_digest = sig })) ≡ true)

  signs : (s : Signer c) (d : Digest) (r : Result (List ℕ)) → canonical_bytes c d ≡ r → Signs s d r
  unfolding sign verify
  signs s d (err e) h = (rw h refl, rw h (either (nat_eq (length d.signed_digest) 0)))
    where
      either : (b : Bool) → (if b then false else false) ≡ false
      either true = refl
      either false = refl
  signs s d (ok msg) h = (c.sign s.priv msg, rw h refl, verified s d msg h)

  -- Signing changes only the signature of a digest, and what is signed verifies under the signer's
  -- public key; if the digest cannot be encoded, `Sign` returns that error and nothing verifies.
  -- Ed25519 accepts its own signatures, which are not empty.
  pub verify-sign :
      (s : Signer c) (d : Digest) → Signs s d (c.marshal (record d { signed_digest = [] }))
  unfolding canonical_bytes
  verify-sign s d = signs s d _ refl

-- Counts that must not be told apart.
abbrev pub Alike : ℤ → ℤ → Type 0
Alike m n =
    (m ≡ n)
    ⊎ ((m ≤ℤ pos 0) × (n ≤ℤ pos 0))
    ⊎ ((pos 2 ≤ℤ m) × (m ≤ℤ pos 5) × (pos 2 ≤ℤ n) × (n ≤ℤ pos 5))
    ⊎ ((pos 6 ≤ℤ m) × (pos 6 ≤ℤ n))

bucket-Alike : (m n : ℤ) → Alike m n → bucket m ≡ bucket n
unfolding bucket
bucket-Alike m n h = ground arith

-- A digest tells no more than the class and the signature of the verdict, the release, and whether
-- the count is at most zero, one, two to five, or more: verdicts and counts that agree in these give
-- the same digest, and without the opt-in there is none.
pub build-anonymous :
    {F : Type 0} (v v' : Verdict F) (m n : ℤ) (version : String) (opted_in : Bool)
    → v.fault_class ≡ v'.fault_class
    → v.signature ≡ v'.signature
    → Alike m n
    → (build (some v) m version opted_in ≡ build (some v') n version opted_in)
      × (build (some v) m version false ≡ none)
unfolding build
build-anonymous v v' m n version opted_in same_class same_signature alike =
    (rw (same_class, same_signature, bucket-Alike m n alike) refl, refl)
