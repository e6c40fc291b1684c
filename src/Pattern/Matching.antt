-- ===== src/Pattern/Matching.antt =====
-- `match_path` against a relation that knows no loops: which lists of parts a pattern accepts, and
-- with which captures.
use wiremirage.Prelude.Text.{Str}
use wiremirage.Prelude.Split.{join, split, split-ne-nil}
use wiremirage.Prelude.{
  none, some, List, [], ◌∷◌, ◌++◌, ◌≡◌, ◌≢◌, ◌↔◌, refl, ap, arith, length, init, drop,
  bind_option-eq-some, true, false, Bool-cases, Option-cases, inl, inr, sym, ◌∙◌, subst, subst₂,
  append-nil, length-drop, length-eq-zero, false≢true, ltb, ◌==◌, if◌then◌else◌,
}
use wiremirage.Pattern.{
  Segment, tail, Captures, Pattern, slash, starts_with_slash, trim_slash, misplaced_tail, tail_name,
  match_zip, path_parts, match_tail, match_exact, match_trimmed, match_path,
}
use wiremirage.Pattern.Tails.{IsTailFree, no_tail-IsTailFree, tail-split}
use wiremirage.Pattern.Accepts.{Accepts, done, rest, zip→Accepts, Accepts→zip, rest-inv, done-inv}

tail→Accepts :
    (a : List Segment) (name : Str) (parts : List Str) (cs : Captures)
    → IsTailFree a
    → match_tail a name parts ≡ some cs
    → Accepts (a ++ tail name ∷ []) parts cs
unfolding match_tail
tail→Accepts a name parts cs f h = elim (Bool-cases (ltb (length parts) (length a))) [
  | inl short ↦ absurd (ground arith)
  | inr enough ↦
      let (c, h₁, e) = bind_option-eq-some (match_zip a parts) _ (rw enough at h) in
      let last : c ++ (name, join slash (drop (length a) parts)) ∷ [] ≡ cs = cc e in
      rw (← last)
        (zip→Accepts a _ parts c _ f (ground arith) h₁ (rest name (drop (length a) parts)))
]

Accepts→tail :
    (a : List Segment) (name : Str) (parts : List Str) (cs : Captures)
    → IsTailFree a
    → Accepts (a ++ tail name ∷ []) parts cs
    → match_tail a name parts ≡ some cs
unfolding match_tail
Accepts→tail a name parts cs f d =
    let z = Accepts→zip a (tail name ∷ []) f d in
    let e : cs ≡ z.first ++ (name, join slash (drop (length a) parts)) ∷ [] =
      z.together ∙ ap (λ x. z.first ++ x) (rest-inv z.left) in
    let enough : ltb (length parts) (length a) ≡ false = ground (arith, z.enough) in
    rw (enough, z.zipped, e)

match_tail_iff :
    (a : List Segment) (name : Str) (parts : List Str) (cs : Captures)
    → IsTailFree a
    → (match_tail a name parts ≡ some cs) ↔ Accepts (a ++ tail name ∷ []) parts cs
match_tail_iff a name parts cs f = (tail→Accepts a name parts cs f, Accepts→tail a name parts cs f)

some_parts : (t : Str) → length (split slash t) ≢ 0
some_parts t e = go (split slash t) (split-ne-nil slash t) e
  where
    go : (ps : List Str) → ps ≢ [] → length ps ≢ 0
    go [] n e = n refl
    go (p ∷ ps) n e = omega arith

-- The test for the root adds nothing to the comparison of the lengths.
match_exact-zip :
    (a : List Segment) (trimmed : Str)
    → match_exact a trimmed (path_parts trimmed)
      ≡ (if length (path_parts trimmed) == length a then match_zip a (path_parts trimmed) else none)
unfolding match_exact path_parts match_zip
match_exact-zip [] trimmed = ground (arith, some_parts (drop 1 trimmed))
match_exact-zip (s ∷ a) trimmed = ground arith

zip_iff :
    (a : List Segment) (parts : List Str) (cs : Captures)
    → IsTailFree a
    → ((if length parts == length a then match_zip a parts else none) ≡ some cs)
      ↔ Accepts a parts cs
zip_iff a parts cs f = (to, from)
  where
    to :
        (if length parts == length a then match_zip a parts else none) ≡ some cs
        → Accepts a parts cs
    to h = elim (Bool-cases (length parts == length a)) [
      | inl e ↦
          let n : length parts ≡ length a = ground arith in
          let used : drop (length a) parts ≡ [] =
            length-eq-zero (drop (length a) parts) (omega (arith, length-drop (length a) parts)) in
          let d : Accepts (a ++ []) parts (cs ++ []) =
            zip→Accepts a [] parts cs [] f (omega arith) (ground arith) (rw used done) in
          subst₂ (λ x y. Accepts x parts y) (append-nil a) (append-nil cs) d
      | inr ne ↦ absurd (ground arith)
    ]

    from :
        Accepts a parts cs
        → (if length parts == length a then match_zip a parts else none) ≡ some cs
    from d =
        let z = Accepts→zip a [] f (subst (λ x. Accepts x parts cs) (sym (append-nil a)) d) in
        let (used, nil) = done-inv z.left in
        let n : length parts ≡ length a =
          omega (arith, z.enough, ap length used, length-drop (length a) parts) in
        let e : z.first ≡ cs = sym (z.together ∙ ap (λ x. z.first ++ x) nil ∙ append-nil z.first) in
        let tested : (length parts == length a) ≡ true = ground arith in rw (tested, z.zipped, e)

match_exact_iff :
    (a : List Segment) (trimmed : Str) (cs : Captures)
    → IsTailFree a
    → (match_exact a trimmed (path_parts trimmed) ≡ some cs) ↔ Accepts a (path_parts trimmed) cs
match_exact_iff a trimmed cs f = rw match_exact-zip (zip_iff a (path_parts trimmed) cs f)

match_trimmed_iff :
    (a : List Segment) (trimmed : Str) (cs : Captures)
    → misplaced_tail a ≡ none
    → (match_trimmed a trimmed ≡ some cs) ↔ Accepts a (path_parts trimmed) cs
unfolding match_trimmed
match_trimmed_iff a trimmed cs m = elim (Option-cases (tail_name a)) [
  | inl plain ↦
      rw (plain, match_trimmed) (match_exact_iff a trimmed cs (no_tail-IsTailFree a m plain))
  | inr (name, tailed) ↦
      let (e, f) = tail-split a name m tailed in
      rw (tailed, match_trimmed)
        (subst
          (λ x.
            (match_tail (init a) name (path_parts trimmed) ≡ some cs)
            ↔ Accepts x (path_parts trimmed) cs)
          (sym e) (match_tail_iff (init a) name (path_parts trimmed) cs f))
]

-- A pattern whose only tail is its last segment matches a path, with some captures, exactly when
-- the path starts with a slash and the pattern accepts its parts with these captures.
pub match_path_iff :
    (p : Pattern) (path : Str) (cs : Captures)
    → misplaced_tail p.segments ≡ none
    → (match_path p path ≡ some cs)
      ↔ ((starts_with_slash path ≡ true) × Accepts p.segments (path_parts (trim_slash path)) cs)
unfolding match_path
match_path_iff p path cs m = elim (Bool-cases (starts_with_slash path)) [
  | inl slashed ↦
      let (to, from) = match_trimmed_iff p.segments (trim_slash path) cs m in
      ((λ h. (slashed, to (ground arith))), (λ d. ground (arith, from d.1)))
  | inr bare ↦ ((λ h. absurd (ground arith)), (λ d. absurd (false≢true (sym bare ∙ d.0))))
]
