-- ===== src/Tsp/Sessions.antt =====
-- The sessions that the device knows: library/cxl_tsp_device_lib_sample/cxl_tsp_device_context.c.
use spdm_emu.Prelude.{
  ℕ, zero, suc, ◌≡◌, ◌<◌, true, Bool, ◌&&◌, arith, List, [], ◌∷◌, ◌==◌, ltb, set, length,
  if◌then◌else◌, take,
}
use spdm_emu.Tsp.Messages.{Tsp}
use spdm_emu.Tsp.Device.{
  Context, Surroundings, SessionType, primary, secondary, secondary_among,
  libcxltsp_is_session_primary, libcxltsp_is_session_secondary, libcxltsp_get_session_type,
  libcxltsp_initialize_session_id, libcxltsp_initialize_device_context,
}

secondary_among-set :
    (n : ℕ) (valids : List Bool) (ids : List ℕ) (i id : ℕ)
    → i < n
    → i < length valids
    → i < length ids
    → secondary_among (take n (set valids i true)) (take n (set ids i id)) id ≡ true
unfolding secondary_among
secondary_among-set zero valids ids i id hn h h' = absurd (omega arith)
secondary_among-set (suc n) [] ids i id hn h h' = absurd (omega arith)
secondary_among-set (suc n) (v ∷ vs) [] i id hn h h' = absurd (omega arith)
secondary_among-set (suc n) (v ∷ vs) (d ∷ ds) zero id hn h h' = ground arith
secondary_among-set (suc n) (v ∷ vs) (d ∷ ds) (suc i) id hn h h' =
    ground (arith, secondary_among-set n vs ds i id (omega arith) (omega arith) (omega arith))

-- The type that a session has after GET_TARGET_TSP_VERSION arrived in it.
abbrev pub type_after : Context → Surroundings → ℕ → SessionType
type_after c w id =
    if c.session_id_primary_valid
    then if w.is_psk && ltb w.current_psk_session_index 4
      then if c.session_id_primary == id then primary else secondary
      else libcxltsp_get_session_type c id
    else primary

module _ (k : Tsp) (c : Context) (w : Surroundings) (id : ℕ) where
  -- GET_TARGET_TSP_VERSION makes the session in which it arrives the primary one when there is none;
  -- later it makes a session that uses a pre-shared key of the index in use a secondary one, where
  -- the index is one of the four, and leaves the type of any other; the session tables have four
  -- entries.
  pub session_type-initialize :
      length c.session_id_secondary_valid ≡ 4
      → length c.session_id_secondary ≡ 4
      → libcxltsp_get_session_type
          (libcxltsp_initialize_session_id (libcxltsp_initialize_device_context k c) w id)
          id
        ≡ type_after c w id
  unfolding libcxltsp_get_session_type libcxltsp_is_session_primary libcxltsp_is_session_secondary
      libcxltsp_initialize_session_id libcxltsp_initialize_device_context
  session_type-initialize h h' = ground (
    arith,
    secondary_among-set 4 c.session_id_secondary_valid c.session_id_secondary
        w.current_psk_session_index id,
  )
