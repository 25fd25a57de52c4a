-- ===== src/Emu/Args/Flags.antt =====
-- Lists of names separated by commas, as get_flags_from_name of
-- spdm_emu/spdm_emu_common/spdm_emu.c reads them.
use Prim.Native.String
use Prim.Native.String.{String, count}
use text.Mathlib.TextLemmas as Text
use spdm_emu.Prelude.{
  ℕ, ◌+◌, ◌≡◌, refl, subst, ◌++◌, Bool-cases, inl, inr, Bool, true, false, List, [], ◌∷◌, map,
  bit_or, All, none, some,
}
use mathlib.Core.List.{foldl}
use spdm_emu.Emu.Args.Names.{
  Entry, is_comma, emit, split_commas, strtok, get_value_from_name, collect_flags,
  get_flags_from_name,
}

-- No character of the text is a comma.
abbrev pub NoComma : String → Type 0
NoComma String.[] = Unit
NoComma (String.◌∷◌ c s) = (is_comma c ≡ false) × NoComma s

-- A name that can stand in a list: not empty, and without a comma.
abbrev pub Plain : String → Type 0
Plain String.[] = ⊥
Plain (String.◌∷◌ c s) = NoComma (String.◌∷◌ c s)

-- The names, separated by commas.
abbrev pub join : List String → String
join [] = String.[]
join (name ∷ []) = name
join (name ∷ next ∷ names) = String.◌++◌ name (String.◌++◌ "," (join (next ∷ names)))

split_commas-append :
    (name s : String)
    → NoComma name
    → split_commas (String.◌++◌ name s) ≡ (String.◌++◌ name (split_commas s).0, (split_commas s).1)
unfolding split_commas
split_commas-append String.[] s h = rw (Text.nil-append s, Text.nil-append (split_commas s).0) refl
split_commas-append (String.◌∷◌ c name) s (plain, h) =
    rw (Text.cons-append c name s, Text.cons-append c name (split_commas s).0)
      (rw (split_commas-append name s h, plain) refl)

emit-Plain : (name : String) (tokens : List String) → Plain name → emit name tokens ≡ name ∷ tokens
emit-Plain String.[] tokens h = absurd h
emit-Plain (String.◌∷◌ c s) tokens h = refl

Plain-NoComma : (name : String) → Plain name → NoComma name
Plain-NoComma String.[] h = tt
Plain-NoComma (String.◌∷◌ c s) h = h

-- The tokens of a list of names are the names.
strtok-join : (names : List String) → All Plain names → strtok (join names) ≡ names
unfolding strtok split_commas
strtok-join [] h = refl
strtok-join (name ∷ []) (plain, h) =
    let one = split_commas-append name String.[] (Plain-NoComma name plain) in
    let all : split_commas name ≡ (name, []) =
      subst (λ t. split_commas t ≡ (t, [])) (Text.append-nil name) one in
    rw all (emit-Plain name [] plain)
strtok-join (name ∷ next ∷ names) (plain, h) =
    let rest = join (next ∷ names) in
    let comma : split_commas (String.◌++◌ "," rest) ≡ (String.[], strtok rest) =
      rw (Text.cons-append, Text.nil-append) refl in
    rw
      (
        split_commas-append name (String.◌++◌ "," rest) (Plain-NoComma name plain),
        comma,
        strtok-join (next ∷ names) h,
        Text.append-nil,
      )
      (emit-Plain name (next ∷ names) plain)

collect_flags-map :
    (table : List Entry) (flags : ℕ) (entries : List Entry)
    → All (λ e. get_value_from_name table e.name ≡ some e.value) entries
    → collect_flags table flags (map (λ e. e.name) entries)
      ≡ some (foldl (λ f e. bit_or f e.value) flags entries)
unfolding collect_flags
collect_flags-map table flags [] h = refl
collect_flags-map table flags (e ∷ entries) (known, h) =
    rw (known, collect_flags) (collect_flags-map table (bit_or flags e.value) entries h)

All-map :
    (P : String → Type 0) (entries : List Entry)
    → All (λ e. P e.name) entries
    → All P (map (λ e. e.name) entries)
All-map P [] h = tt
All-map P (e ∷ entries) (p, h) = (p, All-map P entries h)

-- The names of entries that the table gives their values, none empty or with a comma, written one
-- behind the other with commas between, are read as the disjunction of those values, when the copy
-- of the text can be allocated.
pub flags_of_names :
    (malloc : ℕ → Bool) (table entries : List Entry)
    → All (λ e. Plain e.name) entries
    → All (λ e. get_value_from_name table e.name ≡ some e.value) entries
    → malloc (count (join (map (λ e. e.name) entries)) + 1) ≡ true
    → get_flags_from_name malloc table (join (map (λ e. e.name) entries))
      ≡ some (foldl (λ f e. bit_or f e.value) 0 entries)
unfolding get_flags_from_name
flags_of_names malloc table entries plain known room =
    rw (room, strtok-join (map (λ e. e.name) entries) (All-map Plain entries plain))
      (collect_flags-map table 0 entries known)

-- A list with a name that the table does not have is refused, wherever it stands among the known
-- ones.
pub flags_refused :
    (malloc : ℕ → Bool) (table before : List Entry) (name : String) (behind : List String)
    → All (λ e. get_value_from_name table e.name ≡ some e.value) before
    → All Plain (map (λ e. e.name) before ++ name ∷ behind)
    → get_value_from_name table name ≡ none
    → get_flags_from_name malloc table (join (map (λ e. e.name) before ++ name ∷ behind)) ≡ none
unfolding get_flags_from_name collect_flags
flags_refused malloc table before name behind known plain unknown =
    let text = join (map (λ e. e.name) before ++ name ∷ behind) in
    let refused = go before 0 known in
    elim (Bool-cases (malloc (count text + 1))) [
      | inl room ↦ rw (room, strtok-join (map (λ e. e.name) before ++ name ∷ behind) plain) refused
      | inr full ↦ rw full refl
    ]
  where
    go :
        (es : List Entry) (flags : ℕ)
        → All (λ e. get_value_from_name table e.name ≡ some e.value) es
        → collect_flags table flags (map (λ e. e.name) es ++ name ∷ behind) ≡ none
    go [] flags h = rw (unknown, collect_flags) refl
    go (e ∷ es) flags (p, h) = rw (p, collect_flags) (go es (bit_or flags e.value) h)
