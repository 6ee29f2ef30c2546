-- ===== src/Logs/Records.antt =====
-- collectors_logs.go, `parseKmsgXID`: the loop folds the lines of each record, and only a record
-- that names an XID gives an event.
use mathlib.Core.Path.{subst}
use gpufleet_agent.Prelude.{
  ℕ, String, ◌≡◌, refl, sym, ap, inl, inr, ◌==◌, Option, none, some, List, [], ◌∷◌, ◌++◌,
  append-nil, All, All-append, All-In, In, if◌then◌else◌, Bool-cases,
}
use gpufleet_agent.Prelude.Strings.{◌<>◌}
use gpufleet_agent.Prelude.Text.{trim_space}
use gpufleet_agent.Prelude.Pattern.{find_match, group_2}
use gpufleet_agent.Wire.{Time, XidEvent}
use gpufleet_agent.Logs.{
  xid_line, is_kmsg_continuation, emit, xid_event, then_parse, kmsg_loop, scan_lines,
  parse_kmsg_xid,
}

-- The continuation lines in front.
leading : List String → List String
leading [] = []
leading (l ∷ ls) = if is_kmsg_continuation l then l ∷ leading ls else []

abbrev joined : String → List String → String
joined raw [] = raw
joined raw (l ∷ ls) = joined (raw <> " " <> trim_space l) ls

-- The records of a log: each header with the continuation lines behind it. Continuation lines in
-- front of the first header belong to none.
unfoldable pub records : List String → List String
unfolding leading
records [] = []
records (l ∷ ls) =
    let rest = records ls in if is_kmsg_continuation l then rest else joined l (leading ls) ∷ rest

abbrev pub events_of : Time → List String → List XidEvent
events_of now [] = []
events_of now (raw ∷ raws) = emit now raw ++ events_of now raws

loop-record :
    (now : Time) (raw : String) (lines : List String)
    → kmsg_loop now (some raw) lines
      ≡ emit now (joined raw (leading lines)) ++ events_of now (records lines)
unfolding kmsg_loop leading records
loop-record now raw [] = sym (append-nil _)
loop-record now raw (l ∷ ls) = elim (Bool-cases (is_kmsg_continuation l)) [
  | inl e ↦ rw e (loop-record now (raw <> " " <> trim_space l) ls)
  | inr e ↦ rw e (ap (λ r. emit now raw ++ r) (loop-record now l ls))
]

loop-records :
    (now : Time) (lines : List String) → kmsg_loop now none lines ≡ events_of now (records lines)
unfolding kmsg_loop records
loop-records now [] = refl
loop-records now (l ∷ ls) = elim (Bool-cases (is_kmsg_continuation l)) [
  | inl e ↦ rw e (loop-records now ls)
  | inr e ↦ rw e (loop-record now l ls)
]

-- The events of a kernel log are those of its records, in their order: the loop with its growing
-- record gives what grouping each header with the continuation lines behind it gives.
pub parse_kmsg_xid-records :
    (text : String) (now : Time)
    → parse_kmsg_xid text now ≡ events_of now (records (scan_lines text))
unfolding parse_kmsg_xid
parse_kmsg_xid-records text now = loop-records now (scan_lines text)

-- An event that was read from a record: the record names this XID by digits below 2 ^ 32.
abbrev pub IsRead : Time → List String → XidEvent → Type 0
IsRead now raws e =
    (raw : String) × In raw raws
    × (then_parse 32 (group_2 (find_match xid_line raw)) ≡ some e.xid)
    × (e.raw_message ≡ trim_space raw)
    × (e.ts ≡ some now)

emit-IsRead :
    (now : Time) (raw : String) (raws : List String)
    → In raw raws
    → All (IsRead now raws) (emit now raw)
unfolding emit
emit-IsRead now raw raws at = elim (Bool-cases (raw == "")) [
  | inl e ↦ rw e tt
  | inr e ↦ rw e (by_number (then_parse 32 (group_2 (find_match xid_line raw))) refl)
]
  where
    by_number :
        (o : Option ℕ)
        → then_parse 32 (group_2 (find_match xid_line raw)) ≡ o
        → All (IsRead now raws) (xid_event now raw o)
    by_number none h = tt
    by_number (some x) h = ((raw, at, h, refl, refl), tt)

events_of-IsRead :
    (now : Time) (raws all : List String)
    → All (λ raw. In raw all) raws
    → All (IsRead now all) (events_of now raws)
events_of-IsRead now [] all h = tt
events_of-IsRead now (raw ∷ raws) all (p, h) =
    All-append _ (emit now raw) _ (emit-IsRead now raw all p) (events_of-IsRead now raws all h)

-- Every XID event comes from one record of the log, whose text names that XID and is kept; no event
-- is made up.
pub parse_kmsg_xid-AreRead :
    (text : String) (now : Time)
    → All (IsRead now (records (scan_lines text))) (parse_kmsg_xid text now)
parse_kmsg_xid-AreRead text now =
    subst (All (IsRead now (records (scan_lines text)))) (sym (parse_kmsg_xid-records text now))
      (events_of-IsRead now _ _ (All-In (records (scan_lines text))))
