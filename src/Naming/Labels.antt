-- ===== src/Naming/Labels.antt =====
-- Every name that crates/wm-host/src/naming.rs generates is a label.
use wiremirage.Prelude.Text.{Str, codes, starts_with, ends_with, str_eq}
use wiremirage.Prelude.Ascii.{is_lower}
use wiremirage.Prelude.{
  ℕ, zero, suc, ◌≤◌, ◌<◌, Bool, true, false, ◌&&◌, List, [], ◌∷◌, ◌++◌, all, length, length-append,
  leb, ◌≡◌, refl, ◌∙◌, arith, and-eq-true,
}
use wiremirage.Naming.{adjectives, nouns, word_at, generate, label_byte, is_valid_label}

-- A word of the lists: lower-case letters, from one to eight.
unfoldable is_word : Str → Bool
is_word w = all is_lower w && (leb 1 (length w) && leb (length w) 8)

words_listed : (all is_word adjectives ≡ true) × (all is_word nouns ≡ true)
unfolding is_word
words_listed = (refl, refl)

word_at-is_word :
    (i : ℕ) (words : List Str)
    → i < length words
    → all is_word words ≡ true
    → is_word (word_at i words) ≡ true
word_at-is_word i [] h a = absurd (omega arith)
word_at-is_word zero (w ∷ words) h a = (and-eq-true (is_word w) (all is_word words) a).0
word_at-is_word (suc i) (w ∷ words) h a =
    word_at-is_word i words (omega arith) (and-eq-true (is_word w) (all is_word words) a).1

all-append : (p : ℕ → Bool) (s t : Str) → all p (s ++ t) ≡ all p s && all p t
all-append p [] t = refl
all-append p (x ∷ s) t = ground (arith, all-append p s t)

letters : (s : Str) → all is_lower s ≡ true → all label_byte s ≡ true
unfolding label_byte
letters [] h = refl
letters (x ∷ s) h = ground (arith, letters s)

ends_letter : (s : Str) → all is_lower s ≡ true → ends_with (codes "-") s ≡ false
unfolding ends_with str_eq
ends_letter [] h = refl
ends_letter (x ∷ s) h = ground (arith, ends_letter s)

not-empty_behind : (s : Str) (t : Str) → 1 ≤ length t → str_eq [] (s ++ t) ≡ false
unfolding str_eq
not-empty_behind [] [] h = absurd (omega arith)
not-empty_behind [] (y ∷ t) h = refl
not-empty_behind (x ∷ s) t h = refl

ends_behind :
    (s : Str) (t : Str) → 1 ≤ length t → ends_with (codes "-") (s ++ t) ≡ ends_with (codes "-") t
unfolding ends_with str_eq
ends_behind [] t h = refl
ends_behind (x ∷ s) t h = ground (arith, not-empty_behind s t h, ends_behind s t h)

starts_letter :
    (s t : Str) → 1 ≤ length s → all is_lower s ≡ true → starts_with (codes "-") (s ++ t) ≡ false
unfolding starts_with
starts_letter [] t h a = absurd (omega arith)
starts_letter (x ∷ s) t h a = ground arith

ends_joined :
    (a n : Str)
    → 1 ≤ length n
    → all is_lower n ≡ true
    → ends_with (codes "-") (a ++ (b'-' ∷ n)) ≡ false
unfolding ends_with str_eq
ends_joined a n h l =
    ends_behind a (b'-' ∷ n) (omega arith)
    ∙ ground (arith, ends_letter n l, not-empty_behind [] n h)

-- A pair of words, joined by a hyphen, is a label.
joined_label :
    (a n : Str) → is_word a ≡ true → is_word n ≡ true → is_valid_label (a ++ (b'-' ∷ n)) ≡ true
unfolding is_valid_label is_word label_byte
joined_label a n ha hn = ground (
  arith,
  length-append a (b'-' ∷ n),
  starts_letter a (b'-' ∷ n),
  ends_joined a n,
  all-append label_byte a (b'-' ∷ n),
  letters a,
  letters n,
)

-- Every generated name is a label of a host name.
pub generate-label :
    (i j : ℕ) → i < length adjectives → j < length nouns → is_valid_label (generate i j) ≡ true
unfolding generate
generate-label i j hi hj =
    joined_label (word_at i adjectives) (word_at j nouns)
      (word_at-is_word i adjectives hi words_listed.0) (word_at-is_word j nouns hj words_listed.1)
