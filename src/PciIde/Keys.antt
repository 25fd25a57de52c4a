-- ===== src/PciIde/Keys.antt =====
-- What an IDE port promises about its keys, apart from the arrays that hold them.
use spdm_emu.Prelude.{
  ℕ, zero, suc, ◌+◌, ◌≡◌, ◌≤◌, ◌<◌, refl, ◌∙◌, true, false, Bool, ◌&&◌, arith, List, [], ◌∷◌, ◌==◌,
  set, replicate, length, length-set, if◌then◌else◌, Bool-cases, inl, inr, All,
}
use spdm_emu.PciIde.Messages.{Request, IdeKm, IdeKmLaws, slot}
use spdm_emu.PciIde.Device.{Port, libidekm_initialize_device_port_context}
use spdm_emu.PciIde.Responder.{
  query_resp_mine_size, pci_ide_km_get_response, pci_ide_km_get_response_query,
  pci_ide_km_get_response_key_prog, pci_ide_km_get_response_key_set_go,
  pci_ide_km_get_response_key_set_stop,
}
use spdm_emu.PciIde.Responder.Cases.{response_rule}

-- One key of the port: its material, whether it was programmed, and whether its set is in use.
pub record Key : Type 0 where
  pub material : List ℕ
  pub programmed : Bool
  pub in_use : Bool

-- The port that is served, and its keys by their places.
pub record Keys : Type 0 where
  pub port : ℕ
  pub at : ℕ → Key

abbrev pub change : (Key → Key) → ℕ → (ℕ → Key) → ℕ → Key
change f i at j = if i == j then f (at j) else at j

module _ (k : IdeKm) where
  -- The effect of a request of `n` bytes.
  abbrev pub effect : Request → ℕ → Keys → Keys
  effect r n a =
      if r.object_id == k.query && n == k.query_size
      then record {
        port = r.port_index;
        at = λ _. record {
          material = replicate k.key_buffer_size 0;
          programmed = false;
          in_use = false;
        };
      }
      else if a.port == r.port_index
      then if r.object_id == k.key_prog && n == k.key_prog_size + k.key_buffer_size
        then record a {
          at =
              change (λ key. record key { material = r.key_buffer; programmed = true })
                (slot k r.key_sub_stream) a.at;
        }
        else if r.object_id == k.k_set_go && n == k.k_set_go_size
        then record a {
          at = change (λ key. record key { in_use = true }) (slot k r.key_sub_stream) a.at;
        }
        else if r.object_id == k.k_set_stop && n == k.k_set_stop_size
        then record a {
          at = change (λ key. record key { in_use = false }) (slot k r.key_sub_stream) a.at;
        }
        else a
      else a

abbrev pub get_or {ℓ} : {A : Type ℓ} → A → List A → ℕ → A
get_or d [] i = d
get_or d (x ∷ xs) zero = x
get_or d (x ∷ xs) (suc i) = get_or d xs i

pub get_or-set {ℓ} :
    {A : Type ℓ} (d : A) (xs : List A) (i j : ℕ) (v : A)
    → i < length xs
    → get_or d (set xs i v) j ≡ (if i == j then v else get_or d xs j)
get_or-set d [] i j v h = absurd (omega arith)
get_or-set d (x ∷ xs) zero zero v h = refl
get_or-set d (x ∷ xs) zero (suc j) v h = ground arith
get_or-set d (x ∷ xs) (suc i) zero v h = ground arith
get_or-set d (x ∷ xs) (suc i) (suc j) v h = ground (arith, get_or-set d xs i j v)

-- One of the arrays of the context, with what it should hold.
pub record Row {ℓ} {A : Type ℓ} (d : A) (xs : List A) (f : ℕ → A) : Type ℓ where
  pub entries : length xs ≡ 4
  pub entry : (i : ℕ) → i < 4 → get_or d xs i ≡ f i

module _ {ℓ} {A : Type ℓ} (d : A) (part : Key → A) (f : Key → Key) (at : ℕ → Key) (xs : List A)
    (s : ℕ) where
  set-Row :
      (v : A)
      → s < 4
      → ((key : Key) → part (f key) ≡ v)
      → Row d xs (λ i. part (at i))
      → Row d (set xs s v) (λ i. part (change f s at i))
  set-Row v bound changes h = record {
    entries = length-set xs s v ∙ h.entries;
    entry = λ i b. ground (arith, get_or-set d xs s i v, changes (at i), h.entry i b, h.entries);
  }

  keep-Row :
      ((key : Key) → part (f key) ≡ part key)
      → Row d xs (λ i. part (at i))
      → Row d xs (λ i. part (change f s at i))
  keep-Row keeps h = record {
    entries = h.entries;
    entry = λ i b. ground (arith, keeps (at i), h.entry i b);
  }

pub replicate-Row : {A : Type 0} (d v : A) → Row d (replicate 4 v) (λ _. v)
unfolding replicate
replicate-Row d v = record { entries = refl; entry = each }
  where
    each : (i : ℕ) → i < 4 → get_or d (replicate 4 v) i ≡ v
    each zero b = refl
    each (suc zero) b = refl
    each (suc (suc zero)) b = refl
    each (suc (suc (suc zero))) b = refl
    each (suc (suc (suc (suc i)))) b = absurd (omega arith)

-- The context holds the keys that `a` says.
pub record Shows (c : Port) (a : Keys) : Type 0 where
  pub port : c.port_index ≡ a.port
  pub material : Row [] c.key_buffer (λ i. (a.at i).material)
  pub programmed : Row false c.is_key_prog (λ i. (a.at i).programmed)
  pub in_use : Row false c.is_key_set_go (λ i. (a.at i).in_use)

-- The room that the largest response needs.
pub record HasRoom (k : IdeKm) (m : ℕ) : Type 0 where
  pub for_query : query_resp_mine_size k ≤ m
  pub for_key_prog : k.kp_ack_size ≤ m
  pub for_go : k.k_set_gostop_ack_size ≤ m

module _ (k : IdeKm) (r : Request) (n : ℕ) where
  -- The context after a request, in one expression.
  abbrev after : Port → Port
  after c =
      if r.object_id == k.query && n == k.query_size
      then libidekm_initialize_device_port_context k r.port_index
      else if c.port_index == r.port_index
      then if r.object_id == k.key_prog && n == k.key_prog_size + k.key_buffer_size
        then record c {
          key_buffer = set c.key_buffer (slot k r.key_sub_stream) r.key_buffer;
          is_key_prog = set c.is_key_prog (slot k r.key_sub_stream) true;
        }
        else if r.object_id == k.k_set_go && n == k.k_set_go_size
        then record c { is_key_set_go = set c.is_key_set_go (slot k r.key_sub_stream) true }
        else if r.object_id == k.k_set_stop && n == k.k_set_stop_size
        then record c { is_key_set_go = set c.is_key_set_go (slot k r.key_sub_stream) false }
        else c
      else c

  response-after :
      (m : ℕ) (c : Port)
      → IdeKmLaws k
      → HasRoom k m
      → (pci_ide_km_get_response k c r n m).0 ≡ after c
  unfolding pci_ide_km_get_response_query pci_ide_km_get_response_key_prog
      pci_ide_km_get_response_key_set_go pci_ide_km_get_response_key_set_stop
  response-after m c laws room =
      response_rule k c r n m (λ p. p.0 ≡ after c)
        (λ short.
          ground
            (arith, laws.query_fits, laws.key_prog_fits, laws.k_set_go_fits, laws.k_set_stop_fits))
        (λ q p g s. ground arith) (λ e. ground (arith, room.for_query))
        (λ e. ground (arith, laws.requests_distinct, room.for_key_prog))
        (λ e. ground (arith, laws.requests_distinct, room.for_go))
        (λ e. ground (arith, laws.requests_distinct, room.for_go))

  after-Shows : (c : Port) (a : Keys) → IdeKmLaws k → Shows c a → Shows (after c) (effect k r n a)
  unfolding libidekm_initialize_device_port_context
  after-Shows c a laws h = elim (Bool-cases (r.object_id == k.query && n == k.query_size)) [
    | inl q ↦ rw q record {
      port = refl;
      material = replicate-Row [] (replicate k.key_buffer_size 0);
      programmed = replicate-Row false false;
      in_use = replicate-Row false false;
    }
    | inr q ↦ elim (Bool-cases (c.port_index == r.port_index)) [
      | inr p ↦ rw (q, p, other p) h
      | inl p ↦
          elim (Bool-cases
            (r.object_id == k.key_prog && n == k.key_prog_size + k.key_buffer_size)) [
              | inl g ↦
                  rw (q, p, same p, g)
                    record {
                      port = h.port;
                      material =
                          set-Row [] (λ key. key.material) program a.at c.key_buffer s r.key_buffer
                            bound (λ _. refl) h.material;
                      programmed =
                          set-Row false (λ key. key.programmed) program a.at c.is_key_prog s true
                            bound (λ _. refl) h.programmed;
                      in_use =
                          keep-Row false (λ key. key.in_use) program a.at c.is_key_set_go s
                            (λ _. refl) h.in_use;
                    }
              | inr g ↦ elim (Bool-cases (r.object_id == k.k_set_go && n == k.k_set_go_size)) [
                | inl o ↦ rw (q, p, same p, g, o) (with_use true)
                | inr o ↦
                    elim (Bool-cases (r.object_id == k.k_set_stop && n == k.k_set_stop_size)) [
                      | inl t ↦ rw (q, p, same p, g, o, t) (with_use false)
                      | inr t ↦ rw (q, p, same p, g, o, t) h
                    ]
              ]
            ]
    ]
  ]
    where
      same : (c.port_index == r.port_index) ≡ true → (a.port == r.port_index) ≡ true
      same e = ground (arith, h.port)

      other : (c.port_index == r.port_index) ≡ false → (a.port == r.port_index) ≡ false
      other e = ground (arith, h.port)

      s : ℕ
      s = slot k r.key_sub_stream

      bound : s < 4
      bound = laws.slot_bound r.key_sub_stream

      program : Key → Key
      program key = record key { material = r.key_buffer; programmed = true }

      with_use :
          (b : Bool)
          → Shows
              (record c { is_key_set_go = set c.is_key_set_go s b })
              (record a { at = change (λ key. record key { in_use = b }) s a.at })
      with_use b = record {
        port = h.port;
        material =
            keep-Row [] (λ key. key.material) (λ key. record key { in_use = b }) a.at c.key_buffer s
              (λ _. refl) h.material;
        programmed =
            keep-Row false (λ key. key.programmed) (λ key. record key { in_use = b }) a.at
              c.is_key_prog s (λ _. refl) h.programmed;
        in_use =
            set-Row false (λ key. key.in_use) (λ key. record key { in_use = b }) a.at
              c.is_key_set_go s b bound (λ _. refl) h.in_use;
      }

module _ (k : IdeKm) where
  -- The context after a history of requests, each with its size and the room for its response.
  unfoldable pub run : Port → List (Request × ℕ × ℕ) → Port
  run c [] = c
  run c ((r, n, m) ∷ xs) = run (pci_ide_km_get_response k c r n m).0 xs

  -- The keys after the same history.
  unfoldable pub effects : Keys → List (Request × ℕ × ℕ) → Keys
  effects a [] = a
  effects a ((r, n, m) ∷ xs) = effects (effect k r n a) xs

  -- Refinement: after any history of requests, each with room for the largest response, the four
  -- places of the port's arrays hold the keys that the history left: QUERY opens a port without
  -- keys, KEY_PROG for this port stores a key, K_SET_GO and K_SET_STOP for this port switch its
  -- use, and nothing else changes a key. The numbers of the protocol obey `IdeKmLaws`.
  pub run-Shows :
      (xs : List (Request × ℕ × ℕ)) (c : Port) (a : Keys)
      → IdeKmLaws k
      → All (λ x. HasRoom k x.2) xs
      → Shows c a
      → Shows (run c xs) (effects a xs)
  unfolding run effects
  run-Shows [] c a laws room h = h
  run-Shows ((r, n, m) ∷ xs) c a laws room h =
      run-Shows xs (pci_ide_km_get_response k c r n m).0 (effect k r n a) laws room.1
        (rw (response-after k r n m c laws room.0) (after-Shows k r n c a laws h))
