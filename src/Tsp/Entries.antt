-- ===== src/Tsp/Entries.antt =====
-- The loop over the granularity entries of SET_TARGET_CONFIGURATION, which remembers the indices met
-- as the bits of one byte.
use spdm_emu.Prelude.{
  ◌+◌, ◌≤◌, ℕ, zero, suc, ◌^◌, ◌≡◌, ◌≢◌, ◌<◌, refl, sym, true, false, Bool, not, ◌&&◌, ◌||◌, arith,
  List, [], ◌∷◌, All, Distinct, bit_or, ◌==◌, ◌!=◌, ltb, if◌then◌else◌, Bool-cases, inl, inr, ◌↔◌,
}
use spdm_emu.Tsp.Messages.{GranularityEntry}
use spdm_emu.Tsp.Validate.{has, entries_ok}

-- A test that passes on the `count` numbers from `first` on, found out by running it.
sweep : (ℕ → Bool) → ℕ → ℕ → Bool
sweep test first zero = true
sweep test first (suc count) = test first && sweep test (suc first) count

sweep-passes :
    (test : ℕ → Bool) (first count x : ℕ)
    → sweep test first count ≡ true
    → first ≤ x
    → x < first + count
    → test x ≡ true
unfolding sweep
sweep-passes test first zero x run low high = absurd (omega arith)
sweep-passes test first (suc count) x run low high = elim (Bool-cases (first == x)) [
  | inl here ↦ let e : first ≡ x = ground (arith, here) in rw (sym e) (ground (arith, run))
  | inr further ↦
      sweep-passes test (suc first) count x (ground (arith, run)) (ground (arith, further))
        (omega arith)
]

swept : (test : ℕ → Bool) (count x : ℕ) → sweep test 0 count ≡ true → x < count → test x ≡ true
swept test count x run below = sweep-passes test 0 count x run (omega arith) (omega arith)

-- Adding index `i` to the byte `b` keeps it a byte, and sets the bit of `i` and no other.
abbrev adds : ℕ → ℕ → ℕ → Bool
adds b i j =
    ltb (bit_or b (2 ^ i)) 256
    && (if has (bit_or b (2 ^ i)) (2 ^ j)
        then i == j || has b (2 ^ j)
        else i != j && not (has b (2 ^ j)))

adds_at : ℕ → ℕ → Bool
unfolding sweep
adds_at b i = sweep (adds b i) 0 8

adds_everywhere : sweep (λ b. sweep (adds_at b) 0 8) 0 256 ≡ true
unfolding sweep adds_at
adds_everywhere = refl

adds_lem : (b i j : ℕ) → b < 256 → i < 8 → j < 8 → adds b i j ≡ true
unfolding adds_at
adds_lem b i j hb hi hj =
    let byte = swept (λ b. sweep (adds_at b) 0 8) 256 b adds_everywhere hb in
    let index = swept (adds_at b) 8 i byte hi in swept (adds b i) 8 j index hj

-- The indices that the loop does not skip.
unfoldable pub indices : List GranularityEntry → List ℕ
indices [] = []
indices (entry ∷ entries) =
    if entry.length_index == 0xff then indices entries else entry.length_index ∷ indices entries

-- An index that the loop may meet with the bits `b`.
abbrev Free : Bool → ℕ → ℕ → Type 0
Free entire_memory b i = (i < 8) × (entire_memory ≡ true → i ≢ 7) × (has b (2 ^ i) ≡ false)

Free-add :
    (e : Bool) (b i : ℕ) (js : List ℕ)
    → b < 256
    → i < 8
    → All (Free e (bit_or b (2 ^ i))) js
    → All (λ j. i ≢ j) js × All (Free e b) js
Free-add e b i [] hb hi h = (tt, tt)
Free-add e b i (j ∷ js) hb hi h =
    let (ne, rest) = Free-add e b i js hb hi h.1 in
    let bits = adds_lem b i j hb hi h.0.0 in
    ((ground (arith, bits, h.0), ne), (ground (arith, bits, h.0), rest))

Free-remove :
    (e : Bool) (b i : ℕ) (js : List ℕ)
    → b < 256
    → i < 8
    → All (λ j. i ≢ j) js
    → All (Free e b) js
    → All (Free e (bit_or b (2 ^ i))) js
Free-remove e b i [] hb hi ne h = tt
Free-remove e b i (j ∷ js) hb hi ne h =
    let bits = adds_lem b i j hb hi h.0.0 in
    (ground (arith, bits, ne.0, h.0), Free-remove e b i js hb hi ne.1 h.1)

Byte-add : (b i : ℕ) → b < 256 → i < 8 → bit_or b (2 ^ i) < 256
Byte-add b i hb hi = ground (arith, adds_lem b i i hb hi hi)

entries_sound :
    (e : Bool) (b : ℕ) (entries : List GranularityEntry)
    → b < 256
    → entries_ok e b entries ≡ true
    → Distinct (indices entries) × All (Free e b) (indices entries)
unfolding entries_ok indices
entries_sound e b [] hb h = (tt, tt)
entries_sound e b (entry ∷ entries) hb h = elim (Bool-cases (entry.length_index == 0xff)) [
  | inl skip ↦ rw skip (entries_sound e b entries hb (ground (arith, skip)))
  | inr keep ↦
      let first : Free e b entry.length_index = ground (arith, keep) in
      let rest : entries_ok e (bit_or b (2 ^ entry.length_index)) entries ≡ true =
        ground (arith, keep) in
      let (distinct, free) =
        entries_sound e (bit_or b (2 ^ entry.length_index)) entries
          (Byte-add b entry.length_index hb first.0) rest in
      let (ne, others) = Free-add e b entry.length_index (indices entries) hb first.0 free in
      rw keep ((ne, distinct), (first, others))
]

entries_complete :
    (e : Bool) (b : ℕ) (entries : List GranularityEntry)
    → b < 256
    → Distinct (indices entries)
    → All (Free e b) (indices entries)
    → entries_ok e b entries ≡ true
unfolding entries_ok indices
entries_complete e b [] hb d h = refl
entries_complete e b (entry ∷ entries) hb d h = elim (Bool-cases (entry.length_index == 0xff)) [
  | inl skip ↦ ground (arith, skip, d, h, entries_complete e b entries hb)
  | inr keep ↦ ground (
    arith,
    keep,
    d,
    h,
    Free-remove e b entry.length_index (indices entries) hb,
    Byte-add b entry.length_index hb,
    entries_complete e (bit_or b (2 ^ entry.length_index)) entries,
  )
]

-- An index that the loop may meet at all.
abbrev pub Admissible : Bool → ℕ → Type 0
Admissible entire_memory i = (i < 8) × (entire_memory ≡ true → i ≢ 7)

abbrev no_bit : ℕ → Bool
no_bit j = not (has 0 (2 ^ j))

no_bit_anywhere : sweep no_bit 0 8 ≡ true
unfolding sweep
no_bit_anywhere = refl

no_bits : (j : ℕ) → j < 8 → has 0 (2 ^ j) ≡ false
no_bits j hj = ground (arith, swept no_bit 8 j no_bit_anywhere hj)

Free-zero : (e : Bool) (js : List ℕ) → All (Admissible e) js → All (Free e 0) js
Free-zero e [] h = tt
Free-zero e (j ∷ js) h = ((h.0.0, h.0.1, no_bits j h.0.0), Free-zero e js h.1)

Free-Admissible : (e : Bool) (js : List ℕ) → All (Free e 0) js → All (Admissible e) js
Free-Admissible e [] h = tt
Free-Admissible e (j ∷ js) h = ((h.0.0, h.0.1), Free-Admissible e js h.1)

-- The loop over the granularity entries, begun with no bit set, accepts a table exactly when the
-- indices other than 0xff are distinct and below 8, and none is 7 where `entire_memory` is set.
pub entries_iff :
    (entire_memory : Bool) (entries : List GranularityEntry)
    → (entries_ok entire_memory 0 entries ≡ true)
      ↔ (Distinct (indices entries) × All (Admissible entire_memory) (indices entries))
entries_iff e entries = (
  λ h.
      let (distinct, free) = entries_sound e 0 entries (omega arith) h in
      (distinct, Free-Admissible e (indices entries) free),
  λ (distinct, supported).
      entries_complete e 0 entries (omega arith) distinct (Free-zero e (indices entries) supported),
)
