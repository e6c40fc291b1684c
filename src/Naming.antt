-- ===== src/Naming.antt =====
-- crates/wm-host/src/naming.rs: the names of groups, which are labels of host names. The random
-- numbers are arguments, as indices into the two lists of words.
pub mod Labels
mod Tests
use wiremirage.Prelude.Text.{Str, codes, starts_with, ends_with}
use wiremirage.Prelude.Ascii.{is_lower, is_digit}
use wiremirage.Prelude.{
  ℕ, zero, suc, Bool, true, false, ◌||◌, List, [], ◌∷◌, ◌++◌, all, length, ltb, ◌==◌, if◌then◌else◌,
}

abbrev pub max_label_len : ℕ
max_label_len = 63

abbrev pub adjectives : List Str
adjectives =
    codes "swift"
    ∷ codes "calm"
    ∷ codes "amber"
    ∷ codes "brave"
    ∷ codes "bright"
    ∷ codes "clever"
    ∷ codes "cosmic"
    ∷ codes "crisp"
    ∷ codes "dapper"
    ∷ codes "eager"
    ∷ codes "fancy"
    ∷ codes "gentle"
    ∷ codes "glad"
    ∷ codes "golden"
    ∷ codes "happy"
    ∷ codes "jolly"
    ∷ codes "keen"
    ∷ codes "lively"
    ∷ codes "lucky"
    ∷ codes "merry"
    ∷ codes "mellow"
    ∷ codes "noble"
    ∷ codes "plucky"
    ∷ codes "proud"
    ∷ codes "quiet"
    ∷ codes "rapid"
    ∷ codes "ruby"
    ∷ codes "sage"
    ∷ codes "scarlet"
    ∷ codes "shiny"
    ∷ codes "sleek"
    ∷ codes "snappy"
    ∷ codes "solar"
    ∷ codes "spry"
    ∷ codes "sterling"
    ∷ codes "sunny"
    ∷ codes "teal"
    ∷ codes "tidy"
    ∷ codes "vivid"
    ∷ codes "witty"
    ∷ codes "zesty"
    ∷ codes "azure"
    ∷ codes "breezy"
    ∷ codes "frosty"
    ∷ codes "hardy"
    ∷ codes "ivory"
    ∷ codes "jaunty"
    ∷ codes "mighty"
    ∷ codes "agile"
    ∷ codes "ample"
    ∷ codes "balmy"
    ∷ codes "bold"
    ∷ codes "brisk"
    ∷ codes "chipper"
    ∷ codes "classic"
    ∷ codes "clean"
    ∷ codes "cobalt"
    ∷ codes "cozy"
    ∷ codes "dandy"
    ∷ codes "daring"
    ∷ codes "deft"
    ∷ codes "dewy"
    ∷ codes "downy"
    ∷ codes "dreamy"
    ∷ codes "earnest"
    ∷ codes "easy"
    ∷ codes "fleet"
    ∷ codes "fond"
    ∷ codes "frank"
    ∷ codes "fresh"
    ∷ codes "gallant"
    ∷ codes "giddy"
    ∷ codes "graceful"
    ∷ codes "grand"
    ∷ codes "hearty"
    ∷ codes "honest"
    ∷ codes "humble"
    ∷ codes "jade"
    ∷ codes "kind"
    ∷ codes "limber"
    ∷ codes "lithe"
    ∷ codes "loyal"
    ∷ codes "lush"
    ∷ codes "marble"
    ∷ codes "modest"
    ∷ codes "nimble"
    ∷ codes "opal"
    ∷ codes "peppy"
    ∷ codes "placid"
    ∷ codes "polished"
    ∷ codes "prime"
    ∷ codes "pure"
    ∷ codes "quick"
    ∷ codes "regal"
    ∷ codes "robust"
    ∷ codes "rosy"
    ∷ codes "rugged"
    ∷ codes "rustic"
    ∷ codes "serene"
    ∷ codes "sharp"
    ∷ codes "silver"
    ∷ codes "smart"
    ∷ codes "smooth"
    ∷ codes "snug"
    ∷ codes "sober"
    ∷ codes "spirited"
    ∷ codes "steady"
    ∷ codes "stoic"
    ∷ codes "stout"
    ∷ codes "sturdy"
    ∷ codes "suave"
    ∷ codes "sunlit"
    ∷ codes "sweet"
    ∷ codes "tender"
    ∷ codes "trusty"
    ∷ codes "upbeat"
    ∷ codes "urbane"
    ∷ codes "valiant"
    ∷ codes "velvet"
    ∷ codes "verdant"
    ∷ codes "warm"
    ∷ codes "vibrant"
    ∷ codes "wise"
    ∷ codes "wistful"
    ∷ codes "wry"
    ∷ codes "zealous"
    ∷ codes "zen"
    ∷ codes "plush"
    ∷ []

abbrev pub nouns : List Str
nouns =
    codes "otter"
    ∷ codes "finch"
    ∷ codes "falcon"
    ∷ codes "willow"
    ∷ codes "cedar"
    ∷ codes "comet"
    ∷ codes "ember"
    ∷ codes "river"
    ∷ codes "meadow"
    ∷ codes "badger"
    ∷ codes "heron"
    ∷ codes "sparrow"
    ∷ codes "lynx"
    ∷ codes "beacon"
    ∷ codes "canyon"
    ∷ codes "delta"
    ∷ codes "fjord"
    ∷ codes "glade"
    ∷ codes "grove"
    ∷ codes "harbor"
    ∷ codes "isle"
    ∷ codes "kestrel"
    ∷ codes "lagoon"
    ∷ codes "maple"
    ∷ codes "nimbus"
    ∷ codes "oak"
    ∷ codes "pine"
    ∷ codes "quartz"
    ∷ codes "reef"
    ∷ codes "summit"
    ∷ codes "thicket"
    ∷ codes "vale"
    ∷ codes "walrus"
    ∷ codes "yarrow"
    ∷ codes "zephyr"
    ∷ codes "basin"
    ∷ codes "brook"
    ∷ codes "cove"
    ∷ codes "dune"
    ∷ codes "fern"
    ∷ codes "gull"
    ∷ codes "hollow"
    ∷ codes "inlet"
    ∷ codes "jetty"
    ∷ codes "knoll"
    ∷ codes "ledge"
    ∷ codes "marsh"
    ∷ codes "ridge"
    ∷ codes "acorn"
    ∷ codes "alder"
    ∷ codes "arbor"
    ∷ codes "aspen"
    ∷ codes "aurora"
    ∷ codes "birch"
    ∷ codes "bison"
    ∷ codes "bluff"
    ∷ codes "bramble"
    ∷ codes "breeze"
    ∷ codes "cliff"
    ∷ codes "cloud"
    ∷ codes "crane"
    ∷ codes "creek"
    ∷ codes "crest"
    ∷ codes "dahlia"
    ∷ codes "dale"
    ∷ codes "dawn"
    ∷ codes "dell"
    ∷ codes "drift"
    ∷ codes "eagle"
    ∷ codes "egret"
    ∷ codes "elm"
    ∷ codes "fox"
    ∷ codes "gale"
    ∷ codes "garnet"
    ∷ codes "geyser"
    ∷ codes "glacier"
    ∷ codes "gorge"
    ∷ codes "hawk"
    ∷ codes "hazel"
    ∷ codes "hedge"
    ∷ codes "heath"
    ∷ codes "hill"
    ∷ codes "ibis"
    ∷ codes "juniper"
    ∷ codes "lake"
    ∷ codes "lark"
    ∷ codes "laurel"
    ∷ codes "lily"
    ∷ codes "lotus"
    ∷ codes "mantis"
    ∷ codes "marlin"
    ∷ codes "mesa"
    ∷ codes "mist"
    ∷ codes "moss"
    ∷ codes "moth"
    ∷ codes "oasis"
    ∷ codes "onyx"
    ∷ codes "orchid"
    ∷ codes "osprey"
    ∷ codes "owl"
    ∷ codes "peak"
    ∷ codes "pebble"
    ∷ codes "petal"
    ∷ codes "plover"
    ∷ codes "pond"
    ∷ codes "poppy"
    ∷ codes "prairie"
    ∷ codes "quail"
    ∷ codes "raven"
    ∷ codes "robin"
    ∷ codes "sable"
    ∷ codes "shore"
    ∷ codes "sierra"
    ∷ codes "slope"
    ∷ codes "sorrel"
    ∷ codes "spruce"
    ∷ codes "stork"
    ∷ codes "stream"
    ∷ codes "tarn"
    ∷ codes "tundra"
    ∷ codes "vista"
    ∷ codes "wren"
    ∷ codes "glen"
    ∷ codes "beck"
    ∷ codes "fell"
    ∷ codes "holt"
    ∷ codes "wold"
    ∷ codes "moor"
    ∷ []

-- Indexing; the code's indices are in range.
abbrev pub word_at : ℕ → List Str → Str
word_at i [] = []
word_at zero (word ∷ words) = word
word_at (suc i) (word ∷ words) = word_at i words

unfoldable pub generate : ℕ → ℕ → Str
generate i j = word_at i adjectives ++ (b'-' ∷ word_at j nouns)

unfoldable pub label_byte : ℕ → Bool
label_byte b = is_lower b || is_digit b || b == b'-'

unfoldable pub is_valid_label : Str → Bool
is_valid_label name =
    if length name == 0 || ltb max_label_len (length name)
    then false
    else if starts_with (codes "-") name || ends_with (codes "-") name
    then false
    else all label_byte name
