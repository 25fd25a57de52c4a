-- ===== src/Emu/Command/Exchange.antt =====
-- A message from one program of the emulator to the other.
use mathlib.Core.List.{append_cancel_left}
use spdm_emu.Prelude.{ℕ, ◌^◌, ◌≡◌, ◌≤◌, ◌<◌, sym, ap, ◌∙◌, arith, List, ◌++◌, length}
use spdm_emu.Emu.Socket.{Socket, Host, HostLaws, Delivers}
use spdm_emu.Emu.Io.{done}
use spdm_emu.Emu.Command.{capture, send_platform_data, receive_platform_message}
use spdm_emu.Emu.Command.Wire.{frame}
use spdm_emu.Emu.Command.Reading.{receive_platform_message-Takes}
use spdm_emu.Emu.Command.Writing.{send_platform_data-Appends}

-- The two ends of a connection, each on a host of its own.
module _ (k k' : Socket) (d : Delivers k) (d' : Delivers k') (h h' : Host) (laws : HostLaws h)
    (laws' : HostLaws h') (transport : ℕ) where
  -- What one program sends the other receives: when both connections deliver, in whatever portions,
  -- and the receiver is shown what the sender has written, with `rest` behind it, then both end by a
  -- value, the receiver holds the command and the payload and leaves `rest`. Command, transport type
  -- and room fit 32 bits, the payload fits the room, and the hosts may order their bytes differently.
  pub receive_platform_message-send_platform_data :
      (s : k.State) (s' : k'.State) (command room : ℕ) (xs sent rest : List ℕ)
      → command < 2 ^ 32
      → transport < 2 ^ 32
      → room < 2 ^ 32
      → length xs ≤ room
      → d.written (send_platform_data k h transport command xs (length xs) s).0
        ≡ d.written s ++ sent
      → d'.pending s' ≡ sent ++ rest
      → ((send_platform_data k h transport command xs (length xs) s).1
          ≡ done (capture transport command xs))
        × ((receive_platform_message k' h' transport room s').1
            ≡ done (
              command,
              record {
                bytes_to_receive = length xs;
                receive_buffer = xs;
                captured = capture transport command xs;
              },
            ))
        × (d'.pending (receive_platform_message k' h' transport room s').0 ≡ rest)
  receive_platform_message-send_platform_data s s' command room xs sent rest c t small fits wrote
        shown =
      let (ended, whole) =
        send_platform_data-Appends k h laws transport d command xs c t (omega arith) s in
      let same : sent ≡ frame command transport xs =
        append_cancel_left (d.written s) sent (frame command transport xs) (sym wrote ∙ whole) in
      let (received, left) =
        receive_platform_message-Takes k' h' laws' transport d' command room xs c t fits small s'
          rest (shown ∙ ap (λ ys. ys ++ rest) same) in
      (ended, received, left)
