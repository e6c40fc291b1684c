-- ===== src/Pattern/Shape.antt =====
-- What the parser of crates/wm-host/src/pattern.rs promises of a pattern, without the parser: the
-- text that a list of segments stands for, and well-formed patterns.
use wiremirage.Prelude.Text.{Str, codes, mem_str, contains}
use wiremirage.Prelude.Split.{join, Lacks}
use wiremirage.Prelude.{true, false, none, List, [], ◌∷◌, ◌++◌, map, ◌≡◌, ◌≢◌, all, All}
use wiremirage.Pattern.{
  Segment, literal, param, tail, Pattern, slash, root, name_byte, misplaced_tail,
}

-- The text between two slashes that a segment stands for.
abbrev pub text : Segment → Str
text (literal lit) = lit
text (param name) = b'{' ∷ name ++ b'}' ∷ []
text (tail name) = b'{' ∷ (name ++ codes "...") ++ b'}' ∷ []

unfoldable pub render : List Segment → Str
render [] = root
render (s ∷ segments) = slash ∷ join slash (map text (s ∷ segments))

-- A parameter name: not empty, bytes of `[A-Za-z0-9_-]` only.
abbrev pub IsName : Str → Type 0
IsName name = (name ≢ []) × (all name_byte name ≡ true)

abbrev pub IsSegment : Segment → Type 0
IsSegment (literal lit) =
    (lit ≢ []) × Lacks slash lit × (contains b'{' lit ≡ false) × (contains b'}' lit ≡ false)
IsSegment (param name) = IsName name
IsSegment (tail name) = IsName name

-- No name of the segments occurs before, in `seen` or in an earlier segment.
abbrev pub HasFreshNames : List Str → List Segment → Type 0
HasFreshNames seen [] = Unit
HasFreshNames seen (literal _ ∷ segments) = HasFreshNames seen segments
HasFreshNames seen (param name ∷ segments) =
    (mem_str name seen ≡ false) × HasFreshNames (name ∷ seen) segments
HasFreshNames seen (tail name ∷ segments) =
    (mem_str name seen ≡ false) × HasFreshNames (name ∷ seen) segments

pub record IsWellFormed (p : Pattern) : Type 0 where
  pub segments_valid : All IsSegment p.segments
  pub tail_final : misplaced_tail p.segments ≡ none
  pub names_fresh : HasFreshNames [] p.segments
  pub raw_renders : p.raw ≡ render p.segments
