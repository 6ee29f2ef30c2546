-- ===== src/Logs/Lines.antt =====
-- collectors_logs.go: which lines the scanner gives, up to the first that is too long.
use Prim.Native.Char.{Char, code}
use text.Mathlib.TextLemmas.{nil-append, cons-append, append-nil, append_assoc}
use mathlib.Core.List.{append-nil as append-nil'}
use gpufleet_agent.Prelude.{
  ℕ, suc, ◌+◌, ◌<◌, ◌≤◌, String, ◌≡◌, ◌≢◌, ◌∙◌, refl, sym, ap, List, [], ◌∷◌, ◌++◌, All, arith, inl,
  inr, Bool-cases, leb→le, leb,
}
use gpufleet_agent.Prelude.Strings.{◌<>◌, Lacks}
use gpufleet_agent.Prelude.Text.{text_length}
use gpufleet_agent.Logs.{max_line, drop_cr, scan_from, scan_lines}

-- A character of a line that may go on.
scan_char :
    (c : Char) (n : ℕ) (line s : String)
    → code c ≢ b'\n'
    → suc n < max_line
    → scan_from n line (String.◌∷◌ c s) ≡ scan_from (suc n) (line <> String.◌∷◌ c "") s
unfolding scan_from
scan_char c n line s p g = ground arith

one_more : (c : Char) (line l : String) → (line <> String.◌∷◌ c "") <> l ≡ line <> String.◌∷◌ c l
one_more c line l =
    append_assoc line (String.◌∷◌ c "") l
    ∙ ap (λ t. line <> t) (cons-append c "" l ∙ rw nil-append refl)

-- A line is read over, into the line so far.
scan_over :
    (l : String) (n : ℕ) (line s : String)
    → Lacks b'\n' l
    → n + text_length l < max_line
    → scan_from n line (l <> s) ≡ scan_from (n + text_length l) (line <> l) s
scan_over String.[] n line s h g =
    rw (nil-append, append-nil) (ap (λ m. scan_from m line s) (omega arith))
scan_over (String.◌∷◌ c l) n line s (p, h) g =
    ap (scan_from n line) (cons-append c l s)
    ∙ scan_char c n line (l <> s) p (omega (arith, g))
    ∙ scan_over l (suc n) (line <> String.◌∷◌ c "") s h (omega (arith, g))
    ∙ ap (λ m. scan_from m ((line <> String.◌∷◌ c "") <> l) s) (omega arith)
    ∙ ap (λ t. scan_from (n + suc (text_length l)) t s) (one_more c line l)

-- A line that the scanner gives as it stands.
abbrev pub IsLine : String → Type 0
IsLine l = Lacks b'\n' l × (text_length l < max_line) × (drop_cr l ≡ l)

-- Each line, ended by a newline.
abbrev pub unlines : List String → String
unlines [] = ""
unlines (l ∷ ls) = l <> "\n" <> unlines ls

scan_newline :
    (n : ℕ) (line s : String) → scan_from n line ("\n" <> s) ≡ drop_cr line ∷ scan_from 0 "" s
unfolding scan_from
scan_newline n line s = rw (cons-append, nil-append) refl

scan_lines-prepend :
    (ls : List String) (s : String)
    → All IsLine ls
    → scan_from 0 "" (unlines ls <> s) ≡ ls ++ scan_from 0 "" s
scan_lines-prepend [] s h = rw nil-append refl
scan_lines-prepend (l ∷ ls) s ((lacks, short, whole), h) =
    ap (scan_from 0 "")
      (append_assoc l ("\n" <> unlines ls) s ∙ ap (λ t. l <> t) (append_assoc "\n" (unlines ls) s))
    ∙ scan_over l 0 "" ("\n" <> unlines ls <> s) lacks (omega (arith, short))
    ∙ scan_newline (0 + text_length l) ("" <> l) (unlines ls <> s)
    ∙ cc (ap drop_cr (nil-append l) ∙ whole, scan_lines-prepend ls s h)

-- The character that makes a line too long.
scan_stop :
    (c : Char) (n : ℕ) (line s : String)
    → code c ≢ b'\n'
    → max_line ≤ suc n
    → scan_from n line (String.◌∷◌ c s) ≡ []
unfolding scan_from
scan_stop c n line s p g = ground arith

-- Nothing of a line that is too long, and nothing behind it, is a line.
scan_long :
    (l : String) (n : ℕ) (line s : String)
    → Lacks b'\n' l
    → n < max_line
    → max_line ≤ n + text_length l
    → scan_from n line (l <> s) ≡ []
scan_long String.[] n line s h g k = absurd (omega (arith, g, k))
scan_long (String.◌∷◌ c l) n line s (p, h) g k =
    ap (scan_from n line) (cons-append c l s) ∙ elim (Bool-cases (leb max_line (suc n))) [
      | inl e ↦ scan_stop c n line (l <> s) p (leb→le max_line (suc n) e)
      | inr e ↦
          scan_char c n line (l <> s) p (ground arith)
          ∙ scan_long l (suc n) (line <> String.◌∷◌ c "") s h (ground arith) (omega (arith, k))
    ]

-- What the scanner gives for lines that are each ended by a newline is those lines, if none has a
-- newline within, a carriage return at its end or 1 MiB of length.
pub scan_lines-unlines : (ls : List String) → All IsLine ls → scan_lines (unlines ls) ≡ ls
unfolding scan_lines
scan_lines-unlines ls h =
    ap (scan_from 0 "") (sym (append-nil (unlines ls)))
    ∙ scan_lines-prepend ls "" h
    ∙ (unfold scan_from in append-nil' ls)

-- A line of 1 MiB or more ends the scan without an error: the lines in front of it are given, and
-- whatever stands behind it is lost.
pub scan_lines-cut :
    (ls : List String) (long rest : String)
    → All IsLine ls
    → Lacks b'\n' long
    → max_line ≤ text_length long
    → scan_lines (unlines ls <> long <> rest) ≡ ls
unfolding scan_lines
scan_lines-cut ls long rest h lacks too_long =
    scan_lines-prepend ls (long <> rest) h
    ∙ ap (λ r. ls ++ r) (scan_long long 0 "" rest lacks (omega arith) (omega (arith, too_long)))
    ∙ append-nil' ls
