-- ===== src/Emu/Args/Names.antt =====
-- The name lookups of spdm_emu/spdm_emu_common/spdm_emu.c, with what they use of <string.h>.
use Prim.Native.String.{String, count}
use Prim.Native.Char.{Char}
use text.Mathlib.Text
use spdm_emu.Prelude.{ℕ, ◌+◌, Bool, List, [], ◌∷◌, bit_or, if◌then◌else◌, Option, none, some}

-- `value_string_entry_t`
pub record Entry : Type 0 where
  pub value : ℕ
  pub name : String

-- strcmp (a, b) == 0
abbrev pub streq : String → String → Bool
streq a b = Text.◌==◌ a b

abbrev pub is_comma : Char → Bool
is_comma c = streq (String.◌∷◌ c String.[]) ","

-- A token goes to the list unless it is empty.
abbrev pub emit : String → List String → List String
emit String.[] tokens = tokens
emit (String.◌∷◌ c s) tokens = String.◌∷◌ c s ∷ tokens

-- The text up to the first comma, and the tokens behind it.
unfoldable pub split_commas : String → String × List String
split_commas String.[] = (String.[], [])
split_commas (String.◌∷◌ c s) =
    let (first, tokens) = split_commas s in
    if is_comma c then (String.[], emit first tokens) else (String.◌∷◌ c first, tokens)

-- What the calls of strtok (name, ",") give one by one.
unfoldable pub strtok : String → List String
unfolding split_commas
strtok name = let (first, tokens) = split_commas name in emit first tokens

unfoldable pub get_value_from_name : List Entry → String → Option ℕ
get_value_from_name [] name = none
get_value_from_name (entry ∷ table) name =
    if streq name entry.name then some entry.value else get_value_from_name table name

-- The loop over the tokens, with the flags so far.
unfoldable pub collect_flags : List Entry → ℕ → List String → Option ℕ
unfolding get_value_from_name
collect_flags table flags [] = some flags
collect_flags table flags (name ∷ names) = elim (get_value_from_name table name) [
  | none ↦ none
  | some value ↦ collect_flags table (bit_or flags value) names
]

-- `malloc` says whether so many bytes could be allocated; a character is a byte, as it is in the names
-- of the tables. What a refused list leaves in `*flags` is
-- not read again: the program exits.
unfoldable pub get_flags_from_name : (ℕ → Bool) → List Entry → String → Option ℕ
unfolding strtok collect_flags
get_flags_from_name malloc table name =
    if malloc (count name + 1) then collect_flags table 0 (strtok name) else none
