-- ===== src/Prelude/Split.antt =====
-- `str::split` and `join` on one separator byte.
use Prim.Native.Nat.{ℕ}
use mathlib.Core.Path.{◌≡◌, refl, ap, ◌∙◌}
use mathlib.Core.Logic.{◌≢◌, inl, inr}
use mathlib.Core.List.{List, [], ◌∷◌, ◌++◌}
use mathlib.Core.Option.{Option, none, some}
use native.Mathlib.Omega.{arith}
use wiremirage.Prelude.Tests.{◌==◌, if◌then◌else◌, Bool-cases}
use wiremirage.Prelude.Lists.{All}
use wiremirage.Prelude.Text.{Str}

-- One more byte on the first piece.
abbrev pub grow : ℕ → List Str → List Str
grow x [] = (x ∷ []) ∷ []
grow x (p ∷ ps) = (x ∷ p) ∷ ps

-- `s.split(c)`: at least one piece, empty pieces kept.
unfoldable pub split : ℕ → Str → List Str
split c [] = [] ∷ []
split c (x ∷ s) = let rest = split c s in if x == c then [] ∷ rest else grow x rest

-- `parts.join(c)`.
unfoldable pub join : ℕ → List Str → Str
join c [] = []
join c (p ∷ []) = p
join c (p ∷ q ∷ ps) = p ++ c ∷ join c (q ∷ ps)

abbrev pub Lacks : ℕ → Str → Type 0
Lacks c = All (λ x. x ≢ c)

grow-ne-nil : (x : ℕ) (ps : List Str) → grow x ps ≢ []
grow-ne-nil x [] = λ e. cc
grow-ne-nil x (p ∷ ps) = λ e. cc

pub split-ne-nil : (c : ℕ) (s : Str) → split c s ≢ []
unfolding split
split-ne-nil c [] = cc
split-ne-nil c (x ∷ s) = elim (Bool-cases (x == c)) [
  | inl here ↦ rw here (λ e. cc)
  | inr later ↦ rw later (grow-ne-nil x (split c s))
]

pub join-grow : (c x : ℕ) (ps : List Str) → ps ≢ [] → join c (grow x ps) ≡ x ∷ join c ps
unfolding join
join-grow c x [] h = absurd (h refl)
join-grow c x (p ∷ []) h = refl
join-grow c x (p ∷ q ∷ ps) h = refl

join-empty : (c : ℕ) (ps : List Str) → ps ≢ [] → join c ([] ∷ ps) ≡ c ∷ join c ps
unfolding join
join-empty c [] h = absurd (h refl)
join-empty c (p ∷ ps) h = refl

-- Joining the pieces gives the text back.
pub join-split : (c : ℕ) (s : Str) → join c (split c s) ≡ s
unfolding split join
join-split c [] = refl
join-split c (x ∷ s) = ground (
  arith,
  join-empty c (split c s) (split-ne-nil c s),
  join-grow c x (split c s) (split-ne-nil c s),
  join-split c s,
)

split-append : (c : ℕ) (p s : Str) → Lacks c p → split c (p ++ c ∷ s) ≡ p ∷ split c s
unfolding split
split-append c [] s h = ground arith
split-append c (x ∷ p) s (n, h) = ground (arith, split-append c p s h)

split-Lacks : (c : ℕ) (p : Str) → Lacks c p → split c p ≡ p ∷ []
unfolding split
split-Lacks c [] h = refl
split-Lacks c (x ∷ p) (n, h) = ground (arith, split-Lacks c p h)

-- Splitting a join gives the pieces back, if none of them holds the separator.
pub split-join :
    (c : ℕ) (p : Str) (ps : List Str) → All (Lacks c) (p ∷ ps) → split c (join c (p ∷ ps)) ≡ p ∷ ps
unfolding join
split-join c p [] (h, _) = split-Lacks c p h
split-join c p (q ∷ ps) (h, hs) =
    split-append c p (join c (q ∷ ps)) h ∙ ap (λ r. p ∷ r) (split-join c q ps hs)

grow-Lacks : (c x : ℕ) (ps : List Str) → x ≢ c → All (Lacks c) ps → All (Lacks c) (grow x ps)
grow-Lacks c x [] n h = ((n, tt), tt)
grow-Lacks c x (p ∷ ps) n (h, hs) = ((n, h), hs)

-- No piece holds the separator.
pub split-All-Lacks : (c : ℕ) (s : Str) → All (Lacks c) (split c s)
unfolding split
split-All-Lacks c [] = (tt, tt)
split-All-Lacks c (x ∷ s) =
    ground (
      arith,
      split-All-Lacks c s,
      λ (n : x ≢ c). grow-Lacks c x (split c s) n (split-All-Lacks c s),
    )

-- `s.rsplit_once(c)`
unfoldable pub rsplit_once : ℕ → Str → Option (Str × Str)
rsplit_once c [] = none
rsplit_once c (x ∷ s) = elim (rsplit_once c s) [
  | some (before, behind) ↦ some (x ∷ before, behind)
  | none ↦ if x == c then some ([], s) else none
]

rsplit_once-Lacks : (c : ℕ) (t : Str) → Lacks c t → rsplit_once c t ≡ none
unfolding rsplit_once
rsplit_once-Lacks c [] h = refl
rsplit_once-Lacks c (x ∷ t) (other, h) = rw (rsplit_once-Lacks c t h) (ground arith)

-- A text without the separator is what stands behind the last one.
pub rsplit_once-last : (c : ℕ) (s t : Str) → Lacks c t → rsplit_once c (s ++ (c ∷ t)) ≡ some (s, t)
unfolding rsplit_once
rsplit_once-last c [] t h = rw (rsplit_once-Lacks c t h) (ground arith)
rsplit_once-last c (x ∷ s) t h = rw (rsplit_once-last c s t h) refl

-- `s.split_once(c)`
unfoldable pub split_once : ℕ → Str → Option (Str × Str)
split_once c [] = none
split_once c (x ∷ s) =
    let later = split_once c s in
    if x == c
    then some ([], s)
    else (elim later [ none ↦ none | some (before, behind) ↦ some (x ∷ before, behind) ])

-- A text without the separator is what stands before the first one.
pub split_once-first : (c : ℕ) (s t : Str) → Lacks c s → split_once c (s ++ (c ∷ t)) ≡ some (s, t)
unfolding split_once
split_once-first c [] t h = ground arith
split_once-first c (x ∷ s) t (other, h) = rw (split_once-first c s t h) (ground arith)
