-- ===== src/Tsp/Trace.antt =====
-- A history of TSP requests, each in a session or in none.
use spdm_emu.Prelude.{ℕ, List, [], ◌∷◌, Option, Reply}
use spdm_emu.Tsp.Messages.{Request, Response, Tsp}
use spdm_emu.Tsp.Device.{Context, Surroundings}
use spdm_emu.Tsp.Responder.{cxl_tsp_get_response}

pub record Call : Type 0 where
  pub surroundings : Surroundings
  pub session_id : Option ℕ
  pub request : Request
  pub request_size : ℕ
  pub response_size : ℕ

module _ (k : Tsp) where
  abbrev pub step : Context → Call → Context × Reply Response
  step c x =
      cxl_tsp_get_response k c x.surroundings x.session_id x.request x.request_size x.response_size

  -- The context after a history.
  unfoldable pub run : Context → List Call → Context
  run c [] = c
  run c (x ∷ xs) = run (step c x).0 xs
