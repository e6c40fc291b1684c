-- ===== src/Pattern/Tails.antt =====
-- Where a tail may stand in a pattern, and how the loop over the zipped segments sees it.
use wiremirage.Prelude.Text.{Str}
use wiremirage.Prelude.{suc, none, some, List, [], ◌∷◌, ◌++◌, ◌≡◌, refl, ap, length, init}
use wiremirage.Pattern.{Segment, literal, param, tail, misplaced_tail, tail_name}

abbrev pub IsTailFree : List Segment → Type 0
IsTailFree [] = Unit
IsTailFree (literal _ ∷ segments) = IsTailFree segments
IsTailFree (param _ ∷ segments) = IsTailFree segments
IsTailFree (tail _ ∷ segments) = ⊥

pub no_tail-IsTailFree :
    (segments : List Segment)
    → misplaced_tail segments ≡ none
    → tail_name segments ≡ none
    → IsTailFree segments
unfolding misplaced_tail tail_name
no_tail-IsTailFree [] m n = tt
no_tail-IsTailFree (literal x ∷ []) m n = tt
no_tail-IsTailFree (param x ∷ []) m n = tt
no_tail-IsTailFree (tail x ∷ []) m n = cc
no_tail-IsTailFree (literal x ∷ s ∷ segments) m n = no_tail-IsTailFree (s ∷ segments) m n
no_tail-IsTailFree (param x ∷ s ∷ segments) m n = no_tail-IsTailFree (s ∷ segments) m n
no_tail-IsTailFree (tail x ∷ s ∷ segments) m n = cc

-- A pattern with a tail is its prefix and the tail.
pub tail-split :
    (segments : List Segment) (name : Str)
    → misplaced_tail segments ≡ none
    → tail_name segments ≡ some name
    → (segments ≡ init segments ++ tail name ∷ []) × IsTailFree (init segments)
unfolding misplaced_tail tail_name
tail-split [] name m n = cc
tail-split (literal x ∷ []) name m n = cc
tail-split (param x ∷ []) name m n = cc
tail-split (tail x ∷ []) name m n = (cc, tt)
tail-split (literal x ∷ s ∷ segments) name m n =
    let (e, f) = tail-split (s ∷ segments) name m n in (ap (λ r. literal x ∷ r) e, f)
tail-split (param x ∷ s ∷ segments) name m n =
    let (e, f) = tail-split (s ∷ segments) name m n in (ap (λ r. param x ∷ r) e, f)
tail-split (tail x ∷ s ∷ segments) name m n = cc

pub length-init :
    (segments : List Segment) (name : Str)
    → tail_name segments ≡ some name
    → length segments ≡ suc (length (init segments))
unfolding tail_name
length-init [] name n = cc
length-init (s ∷ []) name n = refl
length-init (literal x ∷ s ∷ segments) name n = ap suc (length-init (s ∷ segments) name n)
length-init (param x ∷ s ∷ segments) name n = ap suc (length-init (s ∷ segments) name n)
length-init (tail x ∷ s ∷ segments) name n = ap suc (length-init (s ∷ segments) name n)
