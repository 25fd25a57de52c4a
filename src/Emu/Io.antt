-- ===== src/Emu/Io.antt =====
-- Steps over a socket, which end by a value or fail, as the `bool` functions of
-- spdm_emu/spdm_emu_common/command.c do; `stuck` is a loop that has used up its fuel.
use spdm_emu.Prelude.{ℕ, ◌≡◌, ◌≢◌, refl, ◌∙◌, ap, Bool, true, false, List, ◌++◌, append_assoc}

pub data Done (A : Type 0) : Type 0 where
  stuck failed : Done A
  done : A → Done A

abbrev pub Io : Type 0 → Type 0 → Type 0
Io S A = S → S × Done A

module _ {S : Type 0} where
  -- What comes after a step that ended as `p`.
  abbrev pub follow : {A B : Type 0} → S × Done A → (A → Io S B) → S × Done B
  follow (s, stuck) f = (s, stuck)
  follow (s, failed) f = (s, failed)
  follow (s, done a) f = f a s

  infixl 5 ◌>>=◌ ◌>>◌
  abbrev pub ◌>>=◌ : {A B : Type 0} → Io S A → (A → Io S B) → Io S B
  ◌>>=◌ m f s = follow (m s) f

  abbrev pub ◌>>◌ : {A B : Type 0} → Io S A → Io S B → Io S B
  m >> n = m >>= λ _. n

  abbrev pub pure : {A : Type 0} → A → Io S A
  pure a s = (s, done a)

  abbrev pub fail : {A : Type 0} → Io S A
  fail s = (s, failed)

  -- `if (!test) return false;`
  abbrev pub check : Bool → Io S (Unit {0})
  check true = pure tt
  check false = fail

  -- The step ends, whatever the socket does.
  abbrev pub Ends : {A : Type 0} → Io S A → Type 0
  Ends m = (s : S) → (m s).1 ≢ stuck

  -- A value that the step ends by has the property.
  abbrev pub Ensures {ℓ} : {A : Type 0} → (A → Type ℓ) → Io S A → Type ℓ
  Ensures P m = (s : S) (a : _) → (m s).1 ≡ done a → P a

  -- The step ends by `a`, and takes `xs` from what `view` shows in front of the rest.
  abbrev pub Takes : {A : Type 0} → (S → List ℕ) → Io S A → List ℕ → A → Type 0
  Takes view m xs a =
      (s : S) (rest : List ℕ) → view s ≡ xs ++ rest → ((m s).1 ≡ done a) × (view (m s).0 ≡ rest)

  -- The step ends by `a`, and appends `xs` to what `view` shows.
  abbrev pub Appends : {A : Type 0} → (S → List ℕ) → Io S A → List ℕ → A → Type 0
  Appends view m xs a = (s : S) → ((m s).1 ≡ done a) × (view (m s).0 ≡ view s ++ xs)

  pub follow-Ends :
      {A B : Type 0} (p : S × Done A) (f : A → Io S B)
      → p.1 ≢ stuck
      → ((a : A) → Ends (f a))
      → (follow p f).1 ≢ stuck
  follow-Ends (s, stuck) f h k = absurd (h refl)
  follow-Ends (s, failed) f h k = λ e. cc
  follow-Ends (s, done a) f h k = k a s

  pub >>=-Ends :
      {A B : Type 0} (m : Io S A) (f : A → Io S B)
      → Ends m
      → ((a : A) → Ends (f a))
      → Ends (m >>= f)
  >>=-Ends m f h k s = follow-Ends (m s) f (h s) k

  pub follow-Ensures {ℓ κ} :
      {A B : Type 0} (Q : A → Type ℓ) (P : B → Type κ) (p : S × Done A) (f : A → Io S B)
      → ((a : A) → p.1 ≡ done a → Q a)
      → ((a : A) → Q a → Ensures P (f a))
      → (b : B) → (follow p f).1 ≡ done b
      → P b
  follow-Ensures Q P (s, stuck) f h k b e = cc
  follow-Ensures Q P (s, failed) f h k b e = cc
  follow-Ensures Q P (s, done a) f h k b e = k a (h a refl) s b e

  pub >>=-Ensures {ℓ κ} :
      {A B : Type 0} (Q : A → Type ℓ) (P : B → Type κ) (m : Io S A) (f : A → Io S B)
      → Ensures Q m
      → ((a : A) → Q a → Ensures P (f a))
      → Ensures P (m >>= f)
  >>=-Ensures Q P m f h k s = follow-Ensures Q P (m s) f (h s) k

  pub follow-done :
      {A B : Type 0} (p : S × Done A) (f : A → Io S B) (a : A) → p.1 ≡ done a → follow p f ≡ f a p.0
  follow-done (s, d) f a e = rw e

  pub >>=-Takes :
      {A B : Type 0} (view : S → List ℕ) (m : Io S A) (f : A → Io S B) (xs ys : List ℕ) (a : A)
      (b : B)
      → Takes view m xs a
      → Takes view (f a) ys b
      → Takes view (m >>= f) (xs ++ ys) b
  >>=-Takes view m f xs ys a b h k s rest e =
      let (first, left) = h s (ys ++ rest) (e ∙ append_assoc xs ys rest) in
      rw (follow-done (m s) f a first) (k (m s).0 rest left)

  -- The same, where what follows only makes a value.
  pub >>=-Takes_pure :
      {A B : Type 0} (view : S → List ℕ) (m : Io S A) (f : A → Io S B) (xs : List ℕ) (a : A) (b : B)
      → Takes view m xs a
      → ((s : S) → f a s ≡ (s, done b))
      → Takes view (m >>= f) xs b
  >>=-Takes_pure view m f xs a b h k s rest e =
      let (first, left) = h s rest e in rw (follow-done (m s) f a first, k (m s).0) ((refl, left))

  pub >>=-Appends :
      {A B : Type 0} (view : S → List ℕ) (m : Io S A) (f : A → Io S B) (xs ys : List ℕ) (a : A)
      (b : B)
      → Appends view m xs a
      → Appends view (f a) ys b
      → Appends view (m >>= f) (xs ++ ys) b
  >>=-Appends view m f xs ys a b h k s =
      let (first, longer) = h s in
      let (second, whole) = k (m s).0 in
      rw (follow-done (m s) f a first)
        ((second, whole ∙ ap (λ t. t ++ ys) longer ∙ append_assoc (view s) xs ys))

  pub >>=-Appends_pure :
      {A B : Type 0} (view : S → List ℕ) (m : Io S A) (f : A → Io S B) (xs : List ℕ) (a : A) (b : B)
      → Appends view m xs a
      → ((s : S) → f a s ≡ (s, done b))
      → Appends view (m >>= f) xs b
  >>=-Appends_pure view m f xs a b h k s =
      let (first, longer) = h s in rw (follow-done (m s) f a first, k (m s).0) ((refl, longer))
