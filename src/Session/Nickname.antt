-- ===== src/Session/Nickname.antt =====
-- The nicknames of internal/nickname/nickname.go.
use amplio.Common.{
  ℕ, zero, suc, ◌+◌, Bool, ◌||◌, not, String, str_eq, ◌<>◌, Option, none, some, List, [], ◌∷◌, ◌++◌,
  if◌then◌else◌, any, filter, length,
}

abbrev pub root_agent : String
root_agent = "main-agent"

abbrev pub chatbot : String
chatbot = "chatty-bot"

abbrev pub adjectives : List String
adjectives =
    "ace" ∷ "agile" ∷ "amber" ∷ "ample" ∷ "balmy" ∷ "bold" ∷ "brave" ∷ "breezy" ∷ "bright" ∷ "brisk"
    ∷ "busy" ∷ "calm" ∷ "chatty" ∷ "cheery" ∷ "chill" ∷ "clever" ∷ "cool" ∷ "cosmic" ∷ "cozy"
    ∷ "crisp" ∷ "dapper" ∷ "deft" ∷ "dewy" ∷ "dreamy" ∷ "dusky" ∷ "eager" ∷ "easy" ∷ "fair"
    ∷ "fancy" ∷ "fast" ∷ "feisty" ∷ "firm" ∷ "free" ∷ "fresh" ∷ "frosty" ∷ "gentle" ∷ "glad"
    ∷ "golden" ∷ "grand" ∷ "happy" ∷ "hardy" ∷ "jaunty" ∷ "jolly" ∷ "jovial" ∷ "kind" ∷ "level"
    ∷ "lithe" ∷ "lively" ∷ "lofty" ∷ "loyal" ∷ "lucky" ∷ "lush" ∷ "magic" ∷ "main" ∷ "mellow"
    ∷ "merry" ∷ "mighty" ∷ "mild" ∷ "misty" ∷ "neat" ∷ "nimble" ∷ "open" ∷ "peachy" ∷ "peppy"
    ∷ "perky" ∷ "plain" ∷ "plucky" ∷ "polite" ∷ "posh" ∷ "proud" ∷ "pure" ∷ "quick" ∷ "quiet"
    ∷ "rapid" ∷ "ready" ∷ "regal" ∷ "rosy" ∷ "royal" ∷ "rustic" ∷ "safe" ∷ "sharp" ∷ "silver"
    ∷ "sleek" ∷ "smart" ∷ "smooth" ∷ "snappy" ∷ "snug" ∷ "soft" ∷ "solid" ∷ "spry" ∷ "steady"
    ∷ "still" ∷ "sturdy" ∷ "suave" ∷ "sunny" ∷ "swift" ∷ "tame" ∷ "tidy" ∷ "true" ∷ "vivid" ∷ []

abbrev pub nouns : List String
nouns =
    "agent" ∷ "ant" ∷ "badger" ∷ "bear" ∷ "beaver" ∷ "bee" ∷ "bison" ∷ "boar" ∷ "bot" ∷ "bunny"
    ∷ "camel" ∷ "cat" ∷ "cobra" ∷ "condor" ∷ "coyote" ∷ "crab" ∷ "crane" ∷ "crow" ∷ "deer" ∷ "dingo"
    ∷ "dolphin" ∷ "dove" ∷ "duck" ∷ "eagle" ∷ "egret" ∷ "elk" ∷ "emu" ∷ "falcon" ∷ "ferret"
    ∷ "finch" ∷ "fish" ∷ "fox" ∷ "frog" ∷ "gecko" ∷ "gnu" ∷ "goat" ∷ "goose" ∷ "grouse" ∷ "gull"
    ∷ "hare" ∷ "hawk" ∷ "hen" ∷ "heron" ∷ "hippo" ∷ "horse" ∷ "husky" ∷ "ibex" ∷ "ibis" ∷ "iguana"
    ∷ "jackal" ∷ "jay" ∷ "kite" ∷ "koala" ∷ "lark" ∷ "lion" ∷ "lizard" ∷ "llama" ∷ "lynx" ∷ "marmot"
    ∷ "moose" ∷ "moth" ∷ "newt" ∷ "oryx" ∷ "otter" ∷ "owl" ∷ "panda" ∷ "parrot" ∷ "pelican"
    ∷ "penguin" ∷ "pigeon" ∷ "pony" ∷ "possum" ∷ "puffin" ∷ "quail" ∷ "rabbit" ∷ "raven" ∷ "robin"
    ∷ "salmon" ∷ "seal" ∷ "sheep" ∷ "shrew" ∷ "sloth" ∷ "snail" ∷ "snake" ∷ "sparrow" ∷ "spider"
    ∷ "squid" ∷ "stag" ∷ "stoat" ∷ "stork" ∷ "swallow" ∷ "swan" ∷ "tern" ∷ "thrush" ∷ "tiger"
    ∷ "toad" ∷ "trout" ∷ "turtle" ∷ "viper" ∷ "vole" ∷ []

-- `filter` with the parts of the two reserved names, by which `init` makes the pools.
abbrev pub pool_adj : List String
pool_adj = filter (λ w. not (str_eq w "main" || str_eq w "chatty")) adjectives

abbrev pub pool_noun : List String
pool_noun = filter (λ w. not (str_eq w "agent" || str_eq w "bot")) nouns

abbrev pub fallback_suffix_alphabet : List String
fallback_suffix_alphabet =
    "0" ∷ "1" ∷ "2" ∷ "3" ∷ "4" ∷ "5" ∷ "6" ∷ "7" ∷ "8" ∷ "9" ∷ "a" ∷ "b" ∷ "c" ∷ "d" ∷ "e" ∷ "f"
    ∷ "g" ∷ "h" ∷ "i" ∷ "j" ∷ "k" ∷ "l" ∷ "m" ∷ "n" ∷ "o" ∷ "p" ∷ "q" ∷ "r" ∷ "s" ∷ "t" ∷ "u" ∷ "v"
    ∷ "w" ∷ "x" ∷ "y" ∷ "z" ∷ []

abbrev pub fallback_max_attempts : ℕ
fallback_max_attempts = 8

abbrev pub max_draws : ℕ
max_draws = 64

-- The used names: the keys of the map.
abbrev pub is_used : List String → String → Bool
is_used used name = any (λ u. str_eq u name) used

-- What an attempt, or a whole pick, comes to.
pub data Picked : Type 0 where
  picked : String → Picked
  all_used panicked : Picked

abbrev pub word_at : List String → ℕ → Option String
word_at [] n = none
word_at (w ∷ words) zero = some w
word_at (w ∷ words) (suc n) = word_at words n

-- A name of two words and, for the fallback, of a suffix; an index out of range panics.
abbrev pub two_words : List String → List String → ℕ → ℕ → Option String
two_words adj noun i j = elim (word_at adj i) [
  | none ↦ none
  | some a ↦ elim (word_at noun j) [ none ↦ none | some n ↦ some (a <> ("-" <> n)) ]
]

abbrev pub suffix_of : List String → ℕ → ℕ → ℕ → Option String
suffix_of letters i j k = elim (word_at letters i) [
  | none ↦ none
  | some a ↦ elim (word_at letters j) [
    | none ↦ none
    | some b ↦ elim (word_at letters k) [ none ↦ none | some c ↦ some (a <> (b <> c)) ]
  ]
]

abbrev pub with_suffix : Option String → Option String → Option String
with_suffix none suffix = none
with_suffix (some name) none = none
with_suffix (some name) (some suffix) = some (name <> ("-" <> suffix))

-- A name that is not used, and what comes after for one that is.
abbrev pub accept : List String → Option String → Picked → Picked
accept used none next = panicked
accept used (some name) next = if is_used used name then next else picked name

-- The names of one adjective that are not used, in the order of the nouns.
abbrev pub free_with : List String → String → List String → List String
free_with used a [] = []
free_with used a (n ∷ nouns) =
    let rest = free_with used a nouns in
    if is_used used (a <> ("-" <> n)) then rest else (a <> ("-" <> n)) ∷ rest

-- `freeNames`, over pools.
unfoldable pub free_names : List String → List String → List String → List String
free_names used [] noun = []
free_names used (a ∷ adj) noun = free_with used a noun ++ free_names used adj noun

-- `int_n k n` is the value of the k-th call of `rng.IntN`, with the bound n. The pools are those of
-- the package, `pool_adj` and `pool_noun`.
module _ (int_n : ℕ → ℕ → ℕ) (adj noun : List String) (used : List String) where
  -- The rejection sampling, from the k-th draw on.
  abbrev pub draw_free : ℕ → ℕ → Picked
  draw_free zero k = all_used
  draw_free (suc attempts) k =
      let next = draw_free attempts (k + 2) in
      accept used (two_words adj noun (int_n k (length adj)) (int_n (k + 1) (length noun))) next

  -- The fallback, with a suffix of three letters.
  abbrev pub draw_suffixed : ℕ → ℕ → Picked
  draw_suffixed zero k = panicked
  draw_suffixed (suc attempts) k =
      let next = draw_suffixed attempts (k + 5) in
      let letters = fallback_suffix_alphabet in
      accept used
        (with_suffix (two_words adj noun (int_n k (length adj)) (int_n (k + 1) (length noun)))
          (suffix_of letters (int_n (k + 2) 36) (int_n (k + 3) 36) (int_n (k + 4) 36)))
        next

  -- The enumeration of what is left.
  abbrev pub pick_available : List String → Picked
  pick_available [] = draw_suffixed fallback_max_attempts 128
  pick_available (a ∷ available) =
      elim (word_at (a ∷ available) (int_n 128 (length (a ∷ available)))) [
        | none ↦ panicked
        | some name ↦ picked name
      ]

  -- `PickUnique`: `panicked` where all attempts fail.
  unfoldable pub pick_unique : Picked
  unfolding free_names
  pick_unique = elim (draw_free max_draws 0) [
    | picked name ↦ picked name
    | panicked ↦ panicked
    | all_used ↦ pick_available (free_names used adj noun)
  ]
