-- ===== src/Timeline/Tokens.antt =====
-- The tokens that identities are embedded by hold no dot, so they cannot split a signal id.
use Prim.Native.Char.{code}
use text.Mathlib.TextLemmas.{nil-append, cons-append}
use gpufleet_agent.Prelude.{
  String, ◌≡◌, refl, true, false, ◌⊎◌, inl, inr, ◌==◌, nat_eq, nat_eq_iff, arith, Bool-cases,
  if◌then◌else◌,
}
use gpufleet_agent.Prelude.Strings.{◌<>◌, Lacks, Lacks-append, itoa, itoa-Lacks}
use gpufleet_agent.Wire.{XidEvent, NcclEvent}
use gpufleet_agent.Timeline.{sanitize_token, xid_dev_token, nccl_scope_token}

abbrev pub NoDot : String → Type 0
NoDot = Lacks b'.'

-- A sanitized text holds no dot.
pub sanitize_token-NoDot : (s : String) → NoDot (sanitize_token s)
unfolding sanitize_token
sanitize_token-NoDot String.[] = tt
sanitize_token-NoDot (String.◌∷◌ c s) = elim (Bool-cases (nat_eq (code c) b'.')) [
  | inl dot ↦ rw dot (Lacks-append _ "-" _ (omega arith) (sanitize_token-NoDot s))
  | inr other ↦
      rw other (Lacks-append _ (String.◌∷◌ c "") _ (ground arith, tt) (sanitize_token-NoDot s))
]

-- Sanitizing leaves a text without dots as it is.
sanitize_token_of_NoDot : (s : String) → NoDot s → sanitize_token s ≡ s
unfolding sanitize_token
sanitize_token_of_NoDot String.[] h = refl
sanitize_token_of_NoDot (String.◌∷◌ c s) (p, h) = elim (Bool-cases (nat_eq (code c) b'.')) [
  | inl dot ↦ absurd (p ((nat_eq_iff _ _).0 dot))
  | inr other ↦ rw (other, sanitize_token_of_NoDot s h, cons-append, nil-append)
]

xid_dev_token-NoDot : (e : XidEvent) → NoDot (xid_dev_token e)
unfolding xid_dev_token
xid_dev_token-NoDot e = elim (Bool-cases (e.device_uuid == "")) [
  | inl absent ↦ rw absent (omega arith)
  | inr given ↦ rw given (sanitize_token-NoDot e.device_uuid)
]

nccl_scope_token-NoDot : (e : NcclEvent) → NoDot (nccl_scope_token e)
unfolding nccl_scope_token
nccl_scope_token-NoDot e = elim (Bool-cases (e.communicator_id == "")) [
  | inl absent ↦ rw absent (rank (Bool-cases (nat_eq e.rank 0)))
  | inr given ↦ rw given (sanitize_token-NoDot e.communicator_id)
]
  where
    rank :
        (nat_eq e.rank 0 ≡ true) ⊎ (nat_eq e.rank 0 ≡ false)
        → NoDot (if nat_eq e.rank 0 then "unknown" else "rank" <> itoa e.rank)
    rank (inl z) = rw z (omega arith)
    rank (inr p) = rw p (Lacks-append _ "rank" _ (omega arith) (itoa-Lacks _ e.rank (omega arith)))

-- Neither the device token of an XID event nor the scope token of an NCCL event holds a dot, whatever
-- the events carry, so each is one segment of a signal's name.
pub tokens-NoDot :
    (e : XidEvent) (f : NcclEvent) → NoDot (xid_dev_token e) × NoDot (nccl_scope_token f)
tokens-NoDot e f = (xid_dev_token-NoDot e, nccl_scope_token-NoDot f)
