-- ===== src/Edit/Address.antt =====
-- The addresses that view_file shows and edit_file reads: `ParseAnchor` of the text of an anchor.
use amplio.Common.{
  ℕ, suc, ◌+◌, ◌≤◌, ◌≡◌, refl, sym, ◌∙◌, ap, Bool, true, false, ◌&&◌, ◌||◌, Option, none, some, [],
  ◌∷◌, ◌++◌, map, arith, ltb, ◌==◌, length, Codes, drop, take, drop-drop, drop-front, take-front,
}
use amplio.Loop.Text.{is_space, trim_left, trim_right, trim_space, lower}
use amplio.Edit.Text.{index}
use amplio.Edit.Anchor.{
  hash, is_digit, is_hex_digit, all_hex, atoi, parse_hash, parse_line_hint, parse_address,
  parse_anchor,
}

-- The characters of an address after the `#`.
is_plain : ℕ → Bool
is_plain c = is_hex_digit c || (c == b'@' || c == b'+')

all_plain : Codes → Bool
unfolding is_plain
all_plain [] = true
all_plain (c ∷ s) = is_plain c && all_plain s

plain_no_space : (c : ℕ) → is_plain c ≡ true → is_space c ≡ false
unfolding is_plain is_space
plain_no_space c h = ground (arith, h)

trim_left-plain : (s : Codes) → all_plain s ≡ true → trim_left s ≡ s
unfolding all_plain trim_left
trim_left-plain [] h = refl
trim_left-plain (c ∷ s) h = rw (plain_no_space c (ground (arith, h))) refl

trim_right-plain : (s : Codes) → all_plain s ≡ true → trim_right s ≡ s
unfolding all_plain trim_right
trim_right-plain [] h = refl
trim_right-plain (c ∷ s) h =
    let rest : trim_right s ≡ s = trim_right-plain s (ground (arith, h)) in
    let solid : is_space c ≡ false = plain_no_space c (ground (arith, h)) in
    rw (rest, solid) (ground arith)

hex_no_hash : (c : ℕ) → is_hex_digit c ≡ true → (c == b'#') ≡ false
hex_no_hash c h = ground (arith, h)

lower-hex : (s : Codes) → all_hex s ≡ true → map lower s ≡ s
unfolding lower
lower-hex [] h = refl
lower-hex (c ∷ s) h =
    let same : lower c ≡ c = ground (arith, h) in
    let rest : map lower s ≡ s = lower-hex s (ground (arith, h)) in rw (same, rest) refl

index_in_hex : (s : Codes) → all_hex s ≡ true → index s (b'@' ∷ []) ≡ none
index_in_hex [] h = refl
index_in_hex (c ∷ s) h =
    let rest : index s (b'@' ∷ []) ≡ none = index_in_hex s (ground (arith, h)) in
    let other : (c == b'@') ≡ false = ground (arith, h) in rw (other, rest) refl

index_behind_hex :
    (s t : Codes) → all_hex s ≡ true → index (s ++ b'@' ∷ t) (b'@' ∷ []) ≡ some (length s)
index_behind_hex [] t h = refl
index_behind_hex (c ∷ s) t h =
    let rest : index (s ++ b'@' ∷ t) (b'@' ∷ []) ≡ some (length s) =
      index_behind_hex s t (ground (arith, h)) in
    let other : (c == b'@') ≡ false = ground (arith, h) in rw (other, rest) refl

plain-hex : (s : Codes) → all_hex s ≡ true → all_plain s ≡ true
unfolding all_plain is_plain
plain-hex [] h = refl
plain-hex (c ∷ s) h = ground (arith, plain-hex s (ground (arith, h)), h)

abbrev pub all_digits : Codes → Bool
all_digits [] = true
all_digits (c ∷ s) = is_digit c && all_digits s

plain-digits : (s : Codes) → all_digits s ≡ true → all_plain (b'@' ∷ s) ≡ true
unfolding all_plain is_plain
plain-digits [] h = refl
plain-digits (c ∷ s) h = ground (arith, plain-digits s (ground (arith, h)), h)

plain-append : (s t : Codes) → all_plain s ≡ true → all_plain t ≡ true → all_plain (s ++ t) ≡ true
unfolding all_plain
plain-append [] t h k = k
plain-append (c ∷ s) t h k = ground (arith, plain-append s t (ground (arith, h)) k, h)

parse_hash-hex :
    (h : Codes) (hint : Option ℕ)
    → length h ≡ 6
    → all_hex h ≡ true
    → parse_hash h hint ≡ some (hash h hint)
parse_hash-hex h hint six hex = rw (lower-hex h hex, six, hex) refl

-- What is left of a text that begins with `#`, a hexadecimal digit and plain characters.
opened :
    (c : ℕ) (s : Codes)
    → is_hex_digit c ≡ true
    → all_plain s ≡ true
    → parse_anchor (b'#' ∷ c ∷ s) ≡ parse_address (c ∷ s)
unfolding parse_anchor trim_space all_plain is_plain
opened c s hex plain =
    let other : (c == b'#') ≡ false = hex_no_hash c hex in
    let all : all_plain (c ∷ s) ≡ true = ground (arith, hex, plain) in
    let left : trim_left (c ∷ s) ≡ c ∷ s = trim_left-plain (c ∷ s) all in
    let right : trim_right (c ∷ s) ≡ c ∷ s = trim_right-plain (c ∷ s) all in
    let no_bof : (c == b'B') ≡ false = ground (arith, hex) in
    let no_eof : (c == b'E') ≡ false = ground (arith, hex) in
    rw (other, left, right, no_bof, no_eof) refl

parse_address-hex :
    (h : Codes) → length h ≡ 6 → all_hex h ≡ true → parse_address h ≡ some (hash h none)
parse_address-hex h six hex = rw (parse_address, index_in_hex h hex) (parse_hash-hex h none six hex)

address_split :
    (stripped : Codes) (at n : ℕ)
    → index stripped (b'@' ∷ []) ≡ some at
    → parse_line_hint (drop (suc at) stripped) ≡ some n
    → parse_address stripped ≡ parse_hash (take at stripped) (some n)
address_split stripped at n split_at read = rw (parse_address, split_at, read) refl

parse_address-hinted :
    (h ds : Codes) (n : ℕ)
    → length h ≡ 6
    → all_hex h ≡ true
    → atoi ds ≡ some (false, n)
    → 1 ≤ n
    → parse_address (h ++ b'@' ∷ ds) ≡ some (hash h (some n))
parse_address-hinted h ds n six hex number positive =
    let front : take (length h) (h ++ b'@' ∷ ds) ≡ h = take-front (length h) h (b'@' ∷ ds) refl in
    let next : suc (length h) ≡ length h + 1 = omega arith in
    let back : drop (suc (length h)) (h ++ b'@' ∷ ds) ≡ ds =
      ap (λ k. drop k (h ++ b'@' ∷ ds)) next
      ∙ sym (drop-drop 1 (length h) (h ++ b'@' ∷ ds))
      ∙ ap (drop 1) (drop-front (length h) h (b'@' ∷ ds) refl) in
    let small : ltb n 1 ≡ false = ground (arith, positive) in
    let read : parse_line_hint ds ≡ some n = rw (parse_line_hint, number, small) refl in
    address_split (h ++ b'@' ∷ ds) (length h) n (index_behind_hex h ds hex)
      (ap parse_line_hint back ∙ read)
    ∙ ap (λ s. parse_hash s (some n)) front
    ∙ parse_hash-hex h (some n) six hex

-- The address of six hexadecimal digits, in lower case, behind a `#` is read as that anchor.
pub parse_anchor_shown :
    (h : Codes) → length h ≡ 6 → all_hex h ≡ true → parse_anchor (b'#' ∷ h) ≡ some (hash h none)
parse_anchor_shown [] six hex = absurd (omega (arith, six))
parse_anchor_shown (c ∷ s) six hex =
    opened c s (ground (arith, hex)) (plain-hex s (ground (arith, hex)))
    ∙ parse_address-hex (c ∷ s) six hex

-- The same with an `@` and a line number, from one, behind it.
pub parse_anchor_hinted :
    (h ds : Codes) (n : ℕ)
    → length h ≡ 6
    → all_hex h ≡ true
    → all_digits ds ≡ true
    → atoi ds ≡ some (false, n)
    → 1 ≤ n
    → parse_anchor (b'#' ∷ (h ++ b'@' ∷ ds)) ≡ some (hash h (some n))
parse_anchor_hinted [] ds n six hex digits number positive = absurd (omega (arith, six))
parse_anchor_hinted (c ∷ s) ds n six hex digits number positive =
    let plain : all_plain (s ++ b'@' ∷ ds) ≡ true =
      plain-append s (b'@' ∷ ds) (plain-hex s (ground (arith, hex))) (plain-digits ds digits) in
    opened c (s ++ b'@' ∷ ds) (ground (arith, hex)) plain
    ∙ parse_address-hinted (c ∷ s) ds n six hex number positive
