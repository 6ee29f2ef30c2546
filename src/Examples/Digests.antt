-- ===== src/Examples/Digests.antt =====
-- Witnesses: a digest that is signed with a toy scheme.
use gpufleet_agent.Prelude.{ℕ, refl, [], ◌∷◌, length, suc, nat_eq, nat_eq_iff, arith}
use gpufleet_agent.Wire.{Verdict, fault}
use gpufleet_agent.Semantics.{ok}
use gpufleet_agent.Reflow.{Digest, few, Crypto, Signer}
use gpufleet_agent.Reflow.Signed.{IsSound, Signs, verify-sign}

-- A signature is the key in front of the message; it is checked by its length.
abbrev scheme : Crypto
scheme = record {
  PrivateKey = ℕ;
  PublicKey = ℕ;
  seed_size = 1;
  new_key_from_seed = λ seed. length seed;
  public = λ k. k;
  sign = λ k msg. k ∷ msg;
  verify = λ k msg sig. nat_eq (length sig) (suc (length msg));
  decode_string = λ s. ok (1 ∷ []);
  encode_key = λ k. "";
  marshal = λ d. ok (7 ∷ 8 ∷ []);
}

sound : IsSound scheme
sound = record {
  signature_ne_nil = λ k msg e. ground arith;
  verify_signed = λ k msg. (nat_eq_iff (suc (length msg)) (suc (length msg))).1 refl;
}

abbrev signer : Signer scheme
signer = record { priv = 3 }

abbrev verdict : Verdict ℕ
verdict = record {
  contract_version = "v1";
  fault_class = fault 4;
  confidence = 1;
  signature = "xid79+link";
}

abbrev digest : Digest
digest = record {
  fault_class = fault 4;
  signature = "xid79+link";
  count_bucket = few;
  agent_version = "1.2.0";
  signed_digest = [];
}

verify-sign_example :
    Signs scheme sound signer digest (scheme.marshal (record digest { signed_digest = [] }))
verify-sign_example = verify-sign scheme sound signer digest
