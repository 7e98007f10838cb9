-- ===== src/Eval/Cascade/Order.antt =====
-- The order in which eval/cascade.py runs its stages.
use mathlib.Core.List.{Perm}
use mathlib.Core.List.Perm
use recursive_self_improveme.Common.{
  ℕ, ◌≤◌, ◌<◌, ◌≡◌, refl, ◌≢◌, inl, inr, ◌&&◌, not, List, [], ◌∷◌, map, arith, ltb, leb,
  if◌then◌else◌, leb→le, ==_iff, Bool-cases, All,
}
use recursive_self_improveme.Eval.Cascade.{
  CascadeStage, insert, sorted, count, has_number, repeated, duplicates,
}

insert-Perm : (s : CascadeStage) (ss : List CascadeStage) → Perm (s ∷ ss) (insert s ss)
unfolding insert
insert-Perm s [] = Perm.refl (s ∷ [])
insert-Perm s (t ∷ ts) = elim (Bool-cases (leb s.stage t.stage)) [
  | inl h ↦ rw h (Perm.refl (s ∷ t ∷ ts))
  | inr h ↦ rw h (Perm.trans (Perm.swap _ _ _) (Perm.cons t (insert-Perm s ts)))
]

-- The ordered stages are the given ones, each as often.
pub sorted-Perm : (ss : List CascadeStage) → Perm ss (sorted ss)
unfolding sorted
sorted-Perm [] = Perm.refl []
sorted-Perm (s ∷ ss) = Perm.trans (Perm.cons s (sorted-Perm ss)) (insert-Perm s (sorted ss))

-- No stage before one with a smaller number, from a lower bound.
abbrev Ascending : ℕ → List CascadeStage → Type 0
Ascending low [] = Unit {0}
Ascending low (s ∷ ss) = (low ≤ s.stage) × Ascending s.stage ss

-- Each stage has a number above that of the one before.
abbrev pub StrictlyAscending : List CascadeStage → Type 0
StrictlyAscending [] = Unit {0}
StrictlyAscending (s ∷ []) = Unit {0}
StrictlyAscending (s ∷ t ∷ ts) = (s.stage < t.stage) × StrictlyAscending (t ∷ ts)

insert-Ascending :
    (low : ℕ) (s : CascadeStage) (ss : List CascadeStage)
    → low ≤ s.stage
    → Ascending low ss
    → Ascending low (insert s ss)
unfolding insert
insert-Ascending low s [] h a = (h, tt)
insert-Ascending low s (t ∷ ts) h a = elim (Bool-cases (leb s.stage t.stage)) [
  | inl e ↦ rw e (h, (leb→le s.stage t.stage e, a.1))
  | inr e ↦ rw e (a.0, insert-Ascending t.stage s ts (ground arith) a.1)
]

sorted-Ascending : (ss : List CascadeStage) → Ascending 0 (sorted ss)
unfolding sorted
sorted-Ascending [] = tt
sorted-Ascending (s ∷ ss) = insert-Ascending 0 s (sorted ss) (omega arith) (sorted-Ascending ss)

abbrev pub numbers : List CascadeStage → List ℕ
numbers ss = map (λ (t : CascadeStage). t.stage) ss

repeated-step :
    (n : ℕ) (all rest : List ℕ)
    → (if ltb 1 (count n all) && not (has_number n rest) then n ∷ rest else rest) ≡ []
    → (count n all ≤ 1) × (rest ≡ [])
unfolding has_number
repeated-step n all [] h = (ground arith, refl)
repeated-step n all (k ∷ ks) h = ground arith

-- If none is repeated, each occurs at most once.
repeated-none : (all ns : List ℕ) → repeated all ns ≡ [] → All (λ n. count n all ≤ 1) ns
unfolding repeated
repeated-none all [] h = tt
repeated-none all (n ∷ ns) h =
    let (once, rest) = repeated-step n all (repeated all ns) h in (once, repeated-none all ns rest)

once-tail :
    (k : ℕ) (all ns : List ℕ) → All (λ n. count n (k ∷ all) ≤ 1) ns → All (λ n. count n all ≤ 1) ns
unfolding count
once-tail k all [] h = tt
once-tail k all (n ∷ ns) h = (ground (arith, h.0), once-tail k all ns h.1)

adjacent-differ : (k n : ℕ) (ns : List ℕ) → count k (k ∷ n ∷ ns) ≤ 1 → k ≢ n
unfolding count
adjacent-differ k n ns h e = ground (arith, ==_iff k k, ==_iff n k)

strict :
    (low : ℕ) (ss : List CascadeStage)
    → Ascending low ss
    → All (λ n. count n (numbers ss) ≤ 1) (numbers ss)
    → StrictlyAscending ss
strict low [] a h = tt
strict low (s ∷ []) a h = tt
strict low (s ∷ t ∷ ts) a h = (
  omega (arith, a.1.0, adjacent-differ s.stage t.stage (numbers ts) h.0),
  strict s.stage (t ∷ ts) a.1 (once-tail s.stage (numbers (t ∷ ts)) (numbers (t ∷ ts)) h.1),
)

-- If no stage number is a duplicate, the ordered stages have strictly ascending numbers.
pub sorted-StrictlyAscending :
    (ss : List CascadeStage) → duplicates (numbers (sorted ss)) ≡ [] → StrictlyAscending (sorted ss)
unfolding duplicates
sorted-StrictlyAscending ss h =
    strict 0 (sorted ss) (sorted-Ascending ss)
      (repeated-none (numbers (sorted ss)) (numbers (sorted ss)) h)
