-- ===== src/Text/Split.antt =====
-- Mystrtok and Split of cmdline_loggrep/CmdDefine.cpp. Unlike strtok they keep the delimiters.
pub mod Join
use log_grep.Prelude.{
  ℕ, zero, suc, ◌+◌, Bool, true, false, not, ◌&&◌, ◌||◌, ◌==◌, ltb, leb, if◌then◌else◌, Option,
  none, some, ◌>>=◌, List, [], ◌∷◌, ◌++◌, length,
}
use log_grep.Bytes.{Bytes}
use log_grep.Tags.{is_in}

-- The bytes before the first delimiter, and the delimiter with what is behind it.
unfoldable pub cut : Bytes → Bytes → Bytes × Option (ℕ × Bytes)
cut delim [] = ([], none)
cut delim (c ∷ s) =
    let (tok, rest) = cut delim s in if is_in c delim then ([], some (c, s)) else (c ∷ tok, rest)

-- What comes out of Mystrtok: `buf`, the value returned, and the pointer kept in `last`.
abbrev pub Token : Type 0
Token = Option Bytes × (ℕ × Option Bytes)

abbrev pub token_of : ℕ → Bytes × Option (ℕ × Bytes) → Token
token_of c (tok, none) = (some (c ∷ tok), (0, none))
token_of c (tok, some (d, s)) = (some (c ∷ tok), (d, some s))

-- Mystrtok, from the pointer it was given or kept
unfoldable pub mystrtok : Bytes → Option Bytes → Token
unfolding cut
mystrtok delim none = (none, (0, none))
mystrtok delim (some []) = (none, (0, none))
mystrtok delim (some (c ∷ s)) =
    if is_in c delim then (none, (c, some s)) else token_of c (cut delim s)

-- MAX_CMD_PARAMS_COUNT
abbrev pub max_cmd_params_count : ℕ
max_cmd_params_count = 2000

-- what one round of Split stores
unfoldable pub params : Option Bytes → ℕ → List Bytes
params none value = if value == 0 then [] else (value ∷ []) ∷ []
params (some tok) value = if value == 0 then tok ∷ [] else tok ∷ (value ∷ []) ∷ []

-- The loop of Split, with nParamCount. `none` is a write behind the array, or no fuel: a round that
-- goes on takes a byte.
unfoldable pub split_from : Bytes → ℕ → ℕ → Option Bytes → Option (List Bytes)
unfolding mystrtok params
split_from delim zero n last = none
split_from delim (suc f) n last =
    let (buf, (value, last')) = mystrtok delim last in
    let stored = params buf value in
    let rest = split_from delim f (n + length stored) last' in
    if not (length stored == 0) && ltb n max_cmd_params_count
    then (if leb (n + length stored) max_cmd_params_count
        then (rest >>= λ ps. some (stored ++ ps))
        else none)
    else some []

unfoldable pub split : Bytes → Bytes → Option (List Bytes)
unfolding split_from
split source sep = split_from sep (suc (length source)) 0 (some source)
