-- ===== src/Tsp/Responder/Cases.antt =====
-- A case rule for cxl_tsp_get_response: what holds of each handler, of a request without a header
-- and of an unknown op code holds of the dispatch.
use spdm_emu.Prelude.{
  ℕ, ◌≡◌, ◌<◌, Reply, fails, invalid_msg_size, unsupported_cap, ltb, ◌==◌, Bool-cases, inl, inr,
  List, [], ◌∷◌, arith, Option,
}
use spdm_emu.Tsp.Messages.{Request, Response, Tsp}
use spdm_emu.Tsp.Device.{Context, Surroundings}
use spdm_emu.Tsp.Responder.{
  Handler, dispatch, m_cxl_tsp_dispatch, cxl_tsp_get_response, cxl_tsp_get_response_get_version,
  cxl_tsp_get_response_get_capabilities, cxl_tsp_get_response_set_configuration,
  cxl_tsp_get_response_get_configuration, cxl_tsp_get_response_get_configuration_report,
  cxl_tsp_get_response_lock_configuration, cxl_tsp_get_response_set_te_state,
}

module _ {ℓ} (k : Tsp) (c : Context) (w : Surroundings) (session_id : Option ℕ) (r : Request)
    (n m : ℕ) (P : Context × Reply Response → Type ℓ) where
  Holds : List (ℕ × Handler k) → Type ℓ
  Holds [] = Unit
  Holds ((t, f) ∷ table) = (r.header.op_code ≡ t → P (f c w session_id r n m)) × Holds table

  table_rule :
      (table : List (ℕ × Handler k))
      → P (c, fails unsupported_cap)
      → Holds table
      → P (dispatch k table c w session_id r n m)
  unfolding dispatch Holds
  table_rule [] e h = e
  table_rule ((t, f) ∷ table) e h = elim (Bool-cases (r.header.op_code == t)) [
    | inl hit ↦ rw hit (h.0 (ground arith))
    | inr miss ↦ rw miss (table_rule table e h.1)
  ]

  pub response_rule :
      (n < k.header_size → P (c, fails invalid_msg_size))
      → P (c, fails unsupported_cap)
      → (r.header.op_code ≡ k.get_target_tsp_version
          → P (cxl_tsp_get_response_get_version k c w session_id r n m))
      → (r.header.op_code ≡ k.get_target_capabilities
          → P (cxl_tsp_get_response_get_capabilities k c w session_id r n m))
      → (r.header.op_code ≡ k.set_target_configuration
          → P (cxl_tsp_get_response_set_configuration k c w session_id r n m))
      → (r.header.op_code ≡ k.get_target_configuration
          → P (cxl_tsp_get_response_get_configuration k c w session_id r n m))
      → (r.header.op_code ≡ k.get_target_configuration_report
          → P (cxl_tsp_get_response_get_configuration_report k c w session_id r n m))
      → (r.header.op_code ≡ k.lock_target_configuration
          → P (cxl_tsp_get_response_lock_configuration k c w session_id r n m))
      → (r.header.op_code ≡ k.set_target_te_state
          → P (cxl_tsp_get_response_set_te_state k c w session_id r n m))
      → P (cxl_tsp_get_response k c w session_id r n m)
  unfolding cxl_tsp_get_response Holds
  response_rule short unknown v a s g b l t = elim (Bool-cases (ltb n k.header_size)) [
    | inl p ↦ rw p (short (ground arith))
    | inr p ↦ rw p (table_rule (m_cxl_tsp_dispatch k) unknown (v, (a, (s, (g, (b, (l, (t, tt))))))))
  ]
