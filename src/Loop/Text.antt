-- ===== src/Loop/Text.antt =====
-- Texts as the loop tests them: strings.TrimSpace, strings.ToLower, and the predicates of
-- internal/agent/eventloop/eventloop.go and internal/llm/provider.go over them.
use amplio.Common.{
  ℕ, ◌+◌, ◌≡◌, refl, String, Bool, true, ◌&&◌, ◌||◌, [], ◌∷◌, leb, ◌==◌, if◌then◌else◌, map, Codes,
  codes, same_codes,
}
use amplio.Event.{is_nil}

-- unicode.IsSpace
unfoldable pub is_space : ℕ → Bool
is_space c =
    (leb 9 c && leb c 13)
    || (c == 32
        || (c == 0x85
            || (c == 0xA0
                || (c == 0x1680
                    || ((leb 0x2000 c && leb c 0x200A)
                        || (c == 0x2028
                            || (c == 0x2029 || (c == 0x202F || (c == 0x205F || c == 0x3000)))))))))

unfoldable pub trim_left : Codes → Codes
trim_left [] = []
trim_left (c ∷ s) = let rest = trim_left s in if is_space c then rest else c ∷ s

unfoldable pub trim_right : Codes → Codes
trim_right [] = []
trim_right (c ∷ s) = let rest = trim_right s in if is_nil rest && is_space c then [] else c ∷ rest

-- strings.TrimSpace
unfoldable pub trim_space : Codes → Codes
unfolding trim_left trim_right is_space
trim_space s = trim_right (trim_left s)

-- The lower case of a code point, as far as ASCII texts show it: K (Kelvin) and the dotted I are
-- the other letters with a lower case in ASCII.
unfoldable pub lower : ℕ → ℕ
lower c =
    if leb b'A' c && leb c b'Z'
    then c + 32
    else if c == 0x212A
    then b'k'
    else if c == 0x130
    then b'i'
    else c

abbrev pub empty_assistant_placeholder : String
empty_assistant_placeholder = "(empty response)"

-- `isDegenerateTurn`
unfoldable pub is_degenerate_turn : String → Bool
unfolding trim_space
is_degenerate_turn content =
    let trimmed = trim_space (codes content) in
    is_nil trimmed || same_codes trimmed (codes empty_assistant_placeholder)

-- `IsOutputLimitStopReason`
unfoldable pub is_output_limit_stop_reason : String → Bool
unfolding trim_space lower
is_output_limit_stop_reason reason =
    let r = map lower (trim_space (codes reason)) in
    same_codes r (codes "length") || same_codes r (codes "max_tokens")

placeholder_is_degenerate : is_degenerate_turn "  (empty response)\n" ≡ true
unfolding is_degenerate_turn
placeholder_is_degenerate = refl

gemini_limit : is_output_limit_stop_reason " MAX_TOKENS" ≡ true
unfolding is_output_limit_stop_reason
gemini_limit = refl
