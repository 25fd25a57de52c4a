-- ===== src/Emu/Command/Wire.antt =====
-- The format of a message between the two programs, from the comment of
-- spdm_emu/spdm_emu_common/command.h.
use spdm_emu.Prelude.{ℕ, ◌≡◌, refl, List, ◌++◌, length}
use spdm_emu.Emu.Socket.{be32}

-- The command, the transport type and the size of the payload, each in four bytes with the highest
-- first, and the payload.
unfoldable pub frame : ℕ → ℕ → List ℕ → List ℕ
frame command transport payload =
    be32 command ++ (be32 transport ++ (be32 (length payload) ++ payload))

pub length-be32 : (x : ℕ) → length (be32 x) ≡ 4
unfolding be32
length-be32 x = refl
