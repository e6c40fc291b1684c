-- ===== src/Pattern/Accepts.antt =====
-- Which lists of parts the segments of crates/wm-host/src/pattern.rs accept, as a relation that knows
-- no loops, and the comparison `match_segments` makes of them.
use wiremirage.Prelude.Text.{Str, str_eq, str_eq→eq, str_eq_refl}
use wiremirage.Prelude.Split.{join}
use wiremirage.Prelude.{
  ◌≤◌, some, List, [], ◌∷◌, ◌++◌, ◌≡◌, ◌≢◌, refl, ap, arith, length, drop, bind_option-eq-some,
  Bool-cases, inl, inr,
}
use wiremirage.Pattern.{Segment, literal, param, tail, Captures, slash, match_segment, match_zip}
use wiremirage.Pattern.Tails.{IsTailFree}

-- A literal takes a part that equals it, a parameter any part, neither an empty one; a tail takes
-- what is left, which may be nothing.
pub data Accepts : List Segment → List Str → Captures → Type 0 where
  done : Accepts [] [] []
  same :
      {lit part : Str} {segments : List Segment} {parts : List Str} {captures : Captures}
      → part ≢ []
      → lit ≡ part
      → Accepts segments parts captures
      → Accepts (literal lit ∷ segments) (part ∷ parts) captures
  capture :
      {name part : Str} {segments : List Segment} {parts : List Str} {captures : Captures}
      → part ≢ []
      → Accepts segments parts captures
      → Accepts (param name ∷ segments) (part ∷ parts) ((name, part) ∷ captures)
  rest :
      (name : Str) (parts : List Str)
      → Accepts (tail name ∷ []) parts ((name, join slash parts) ∷ [])

pub match_segment-literal :
    (lit part : Str) (c : Captures)
    → match_segment (literal lit) part ≡ some c
    → (part ≢ []) × (lit ≡ part) × (c ≡ [])
unfolding match_segment
match_segment-literal lit [] c h = cc
match_segment-literal lit (x ∷ part) c h = elim (Bool-cases (str_eq lit (x ∷ part))) [
  | inl e ↦ (λ n. cc n, str_eq→eq lit (x ∷ part) e, ground arith)
  | inr ne ↦ absurd (ground arith)
]

pub match_segment-param :
    (name part : Str) (c : Captures)
    → match_segment (param name) part ≡ some c
    → (part ≢ []) × (c ≡ (name, part) ∷ [])
unfolding match_segment
match_segment-param name [] c h = cc
match_segment-param name (x ∷ part) c h = (λ n. cc n, cc)

pub match_zip-cons :
    (s : Segment) (a : List Segment) (p : Str) (parts : List Str) (cs : Captures)
    → match_zip (s ∷ a) (p ∷ parts) ≡ some cs
    → (c r : Captures) × (match_segment s p ≡ some c) × (match_zip a parts ≡ some r) × (c ++ r ≡ cs)
unfolding match_zip
match_zip-cons s a p parts cs h =
    let (c, h₁, k) = bind_option-eq-some (match_segment s p) _ h in
    let (r, h₂, e) = bind_option-eq-some (match_zip a parts) _ k in (c, r, h₁, h₂, cc e)

-- The loop over a tail-free prefix, followed by whatever takes the parts that are left.
pub zip→Accepts :
    (a z : List Segment) (parts : List Str) (cs ct : Captures)
    → IsTailFree a
    → length a ≤ length parts
    → match_zip a parts ≡ some cs
    → Accepts z (drop (length a) parts) ct
    → Accepts (a ++ z) parts (cs ++ ct)
zip→Accepts [] z parts cs ct f n h d = let e : [] ≡ cs = unfold match_zip in cc h in rw (← e) d
zip→Accepts (s ∷ a) z [] cs ct f n h d = absurd (omega arith)
zip→Accepts (literal lit ∷ a) z (p ∷ parts) cs ct f n h d =
    let (c, r, h₁, h₂, e) = match_zip-cons _ a p parts cs h in
    let (filled, equal, nil) = match_segment-literal lit p c h₁ in
    rw (← e, nil) (same filled equal (zip→Accepts a z parts r ct f (omega arith) h₂ d))
zip→Accepts (param name ∷ a) z (p ∷ parts) cs ct f n h d =
    let (c, r, h₁, h₂, e) = match_zip-cons _ a p parts cs h in
    let (filled, one) = match_segment-param name p c h₁ in
    rw (← e, one) (capture filled (zip→Accepts a z parts r ct f (omega arith) h₂ d))
zip→Accepts (tail name ∷ a) z (p ∷ parts) cs ct f n h d = absurd f

pub record IsZipped (a z : List Segment) (parts : List Str) (cs : Captures) : Type 0 where
  pub first : Captures
  pub last : Captures
  pub enough : length a ≤ length parts
  pub zipped : match_zip a parts ≡ some first
  pub left : Accepts z (drop (length a) parts) last
  pub together : cs ≡ first ++ last

zip-same :
    (lit p : Str) (a : List Segment) (parts : List Str) (c : Captures)
    → p ≢ []
    → lit ≡ p
    → match_zip a parts ≡ some c
    → match_zip (literal lit ∷ a) (p ∷ parts) ≡ some c
unfolding match_zip match_segment
zip-same lit [] a parts c n e h = absurd (n refl)
zip-same lit (x ∷ p) a parts c n e h = rw (e, str_eq_refl (x ∷ p), h)

zip-capture :
    (name p : Str) (a : List Segment) (parts : List Str) (c : Captures)
    → p ≢ []
    → match_zip a parts ≡ some c
    → match_zip (param name ∷ a) (p ∷ parts) ≡ some ((name, p) ∷ c)
unfolding match_zip match_segment
zip-capture name [] a parts c n h = absurd (n refl)
zip-capture name (x ∷ p) a parts c n h = rw h

pub Accepts→zip :
    (a z : List Segment) {parts : List Str} {cs : Captures}
    → IsTailFree a
    → Accepts (a ++ z) parts cs
    → IsZipped a z parts cs
Accepts→zip [] z {parts} {cs} f d = record {
  first = [];
  last = cs;
  enough = omega arith;
  zipped = unfold match_zip in refl;
  left = d;
  together = refl;
}
Accepts→zip (literal lit ∷ a) z f (same {part} {parts} n e d) =
    let r = Accepts→zip a z f d in
    record {
      first = r.first;
      last = r.last;
      enough = omega (arith, r.enough);
      zipped = zip-same lit part a parts r.first n e r.zipped;
      left = r.left;
      together = r.together;
    }
Accepts→zip (param name ∷ a) z f (capture {part} {parts} n d) =
    let r = Accepts→zip a z f d in
    record {
      first = (name, part) ∷ r.first;
      last = r.last;
      enough = omega (arith, r.enough);
      zipped = zip-capture name part a parts r.first n r.zipped;
      left = r.left;
      together = ap (λ x. (name, part) ∷ x) r.together;
    }
Accepts→zip (tail name ∷ a) z f d = absurd f

pub rest-inv :
    {name : Str} {parts : List Str} {cs : Captures}
    → Accepts (tail name ∷ []) parts cs
    → cs ≡ (name, join slash parts) ∷ []
rest-inv (rest name parts) = refl

pub done-inv : {parts : List Str} {cs : Captures} → Accepts [] parts cs → (parts ≡ []) × (cs ≡ [])
done-inv done = (refl, refl)
