-- ===== src/Store/Bucket/Isolation.antt =====
-- The buckets of crates/wm-host/src/store/mod.rs do not reach each other.
use wiremirage.Prelude.Text.{Str, codes, starts_with}
use wiremirage.Prelude.Split.{Lacks}
use wiremirage.Prelude.Assoc.{lookup}
use wiremirage.Prelude.{
  true, [], ◌∷◌, ◌++◌, ◌==◌, ◌≡◌, ◌≢◌, refl, sym, ap, ap₂, ◌∙◌, arith, inl, inr, Bool-cases,
  false≢true, append_assoc, and-eq-true, ==_iff,
}
use wiremirage.Store.{MemStore}
use wiremirage.Store.Bucket.{route_prefix, group_prefix}
use wiremirage.Store.Bucket.Writes.{Write, perform, perform-frame}

-- The buckets that a handler reaches: a route's own, and its group's.
pub data Scope : Type 0 where
  of_route : (group route : Str) → Scope
  of_group : (group : Str) → Scope

abbrev pub prefix_of : Str → Scope → Str
prefix_of root (of_route group route) = route_prefix root group route
prefix_of root (of_group group) = group_prefix root group

-- The ids have no colon, as ULIDs do not.
abbrev pub IsNamed : Scope → Type 0
IsNamed (of_route group route) = Lacks b':' group × Lacks b':' route
IsNamed (of_group group) = Lacks b':' group

-- Behind a common root the rest decides.
starts_with-root : (root s t : Str) → starts_with (root ++ s) (root ++ t) ≡ starts_with s t
unfolding starts_with
starts_with-root [] s t = refl
starts_with-root (x ∷ root) s t = ground (arith, starts_with-root root s t)

-- A piece that ends at a colon is the same in both.
piece-same :
    (g h s t : Str)
    → Lacks b':' g
    → Lacks b':' h
    → starts_with (g ++ b':' ∷ s) (h ++ b':' ∷ t) ≡ true
    → (g ≡ h) × (starts_with s t ≡ true)
unfolding starts_with
piece-same [] [] s t lg lh e = (refl, ground arith)
piece-same [] (y ∷ h) s t lg (ny, lh) e =
    absurd
      (ny (sym ((==_iff b':' y).0 (and-eq-true (b':' == y) (starts_with s (h ++ b':' ∷ t)) e).0)))
piece-same (x ∷ g) [] s t (nx, lg) lh e =
    absurd (nx ((==_iff x b':').0 (and-eq-true (x == b':') (starts_with (g ++ b':' ∷ s) t) e).0))
piece-same (x ∷ g) (y ∷ h) s t (nx, lg) (ny, lh) e =
    let (same, more) = and-eq-true (x == y) (starts_with (g ++ b':' ∷ s) (h ++ b':' ∷ t)) e in
    let (rest, left) = piece-same g h s t lg lh more in
    (ap₂ (λ a b. a ∷ b) ((==_iff x y).0 same) rest, left)

rooted :
    (root s t k : Str)
    → starts_with (root ++ s) ((root ++ t) ++ k) ≡ true
    → starts_with s (t ++ k) ≡ true
rooted root s t k e =
    sym (starts_with-root root s (t ++ k))
    ∙ ap (starts_with (root ++ s)) (sym (append_assoc root t k))
    ∙ e

route_ids :
    (g r h q k : Str)
    → IsNamed (of_route g r)
    → IsNamed (of_route h q)
    → starts_with (g ++ b':' ∷ (r ++ b':' ∷ [])) ((h ++ b':' ∷ (q ++ b':' ∷ [])) ++ k) ≡ true
    → (g ≡ h) × (r ≡ q)
route_ids g r h q k (ng, nr) (nh, nq) e =
    let flat = append_assoc h (b':' ∷ (q ++ b':' ∷ [])) k in
    let (group, left) =
      piece-same g h (r ++ b':' ∷ []) ((q ++ b':' ∷ []) ++ k) ng nh
        (ap (starts_with (g ++ b':' ∷ (r ++ b':' ∷ []))) (sym flat) ∙ e) in
    let (route, _) =
      piece-same r q [] k nr nq
        (ap (starts_with (r ++ b':' ∷ [])) (sym (append_assoc q (b':' ∷ []) k)) ∙ left) in
    (group, route)

group_ids :
    (g h k : Str)
    → Lacks b':' g
    → Lacks b':' h
    → starts_with (g ++ b':' ∷ []) ((h ++ b':' ∷ []) ++ k) ≡ true
    → g ≡ h
group_ids g h k ng nh e =
    (piece-same g h [] k ng nh
      (ap (starts_with (g ++ b':' ∷ [])) (sym (append_assoc h (b':' ∷ []) k)) ∙ e)).0

scopes-apart :
    (root : Str) (a b : Scope) (k : Str)
    → IsNamed a
    → IsNamed b
    → starts_with (prefix_of root a) (prefix_of root b ++ k) ≡ true
    → a ≡ b
unfolding route_prefix group_prefix starts_with
scopes-apart root (of_route g r) (of_route h q) k na nb e =
    let (group, route) = route_ids g r h q k na nb (
      rooted root (codes "kv:" ++ (g ++ (codes ":" ++ (r ++ codes ":"))))
        (codes "kv:" ++ (h ++ (codes ":" ++ (q ++ codes ":")))) k e) in
    ap₂ of_route group route
scopes-apart root (of_group g) (of_group h) k na nb e = ap of_group (
    group_ids g h k na nb
      (rooted root (codes "gkv:" ++ (g ++ codes ":")) (codes "gkv:" ++ (h ++ codes ":")) k e))
scopes-apart root (of_route g r) (of_group h) k na nb e = absurd (
    false≢true (
      rooted root (codes "kv:" ++ (g ++ (codes ":" ++ (r ++ codes ":"))))
        (codes "gkv:" ++ (h ++ codes ":")) k e))
scopes-apart root (of_group g) (of_route h q) k na nb e = absurd (
    false≢true (
      rooted root (codes "gkv:" ++ (g ++ codes ":"))
        (codes "kv:" ++ (h ++ (codes ":" ++ (q ++ codes ":")))) k e))

-- Under one root, an operation of a bucket changes nothing in another route's bucket, nor a route's
-- in its group's or the other way around, if the ids have no colon.
pub perform-isolated :
    (root : Str) (a b : Scope) (w : Write) (m : MemStore) (key : Str)
    → IsNamed a
    → IsNamed b
    → a ≢ b
    → lookup (prefix_of root b ++ key) (perform (prefix_of root a) w m).1
      ≡ lookup (prefix_of root b ++ key) m
perform-isolated root a b w m key na nb differ =
    elim (Bool-cases (starts_with (prefix_of root a) (prefix_of root b ++ key))) [
      | inl reached ↦ absurd (differ (scopes-apart root a b key na nb reached))
      | inr apart ↦ perform-frame (prefix_of root a) w m (prefix_of root b ++ key) apart
    ]
