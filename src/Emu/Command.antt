-- ===== src/Emu/Command.antt =====
-- spdm_emu/spdm_emu_common/command.c: the messages between the two programs of the emulator, over a
-- stream socket. A function of the source that returns `bool` is a step over the socket; what it
-- appends to the packet capture is a part of its value. Logs are left out.

pub mod Wire
pub mod Reading
pub mod Writing
pub mod Limits
pub mod Exchange
use spdm_emu.Prelude.{
  ℕ, zero, suc, ◌+◌, ◌-◌, ◌%◌, ◌^◌, Bool, not, List, [], ◌∷◌, ◌++◌, length, take, drop, ◌==◌, ltb,
  if◌then◌else◌,
}
use spdm_emu.Emu.Socket.{
  Socket, Host, Received, receive_error, closed, bytes, Sent, send_error, taken,
}
use spdm_emu.Emu.Io.{Io, Done, stuck, failed, done, ◌>>=◌, ◌>>◌, pure, check, follow, fail}

-- SOCKET_TRANSPORT_TYPE_MCTP
abbrev pub transport_type_mctp : ℕ
transport_type_mctp = 0x01

-- SOCKET_SPDM_COMMAND_NORMAL and SOCKET_SPDM_COMMAND_SHUTDOWN
abbrev pub command_normal : ℕ
command_normal = 0x0001

abbrev pub command_shutdown : ℕ
command_shutdown = 0xFFFE

-- What happens to the packet capture: append_pcap_packet_data with a header and data, or
-- close_pcap_packet_file.
pub data Capture : Type 0 where
  untouched closes : Capture
  appends : List ℕ → List ℕ → Capture

-- `mctp_header_t`: header_version, destination_id, source_id and message_tag.
abbrev pub mctp_header : List ℕ
mctp_header = 0 ∷ 0 ∷ 0 ∷ 0xC0 ∷ []

-- The switch on the command that ends receive_platform_data and send_platform_data.
unfoldable pub capture : ℕ → ℕ → List ℕ → Capture
capture transport command payload =
    if command == command_shutdown
    then closes
    else if command == command_normal
    then if transport == transport_type_mctp
      then appends mctp_header payload
      else appends [] payload
    else untouched

-- What receive_platform_data leaves: `*bytes_to_receive`, the bytes stored, and the capture.
pub record Payload : Type 0 where
  pub bytes_to_receive : ℕ
  pub receive_buffer : List ℕ
  pub captured : Capture

module _ (k : Socket) (h : Host) (transport : ℕ) where
  open k use {State, recv, send}

  -- The body of the loop of read_bytes, from the result of `recv` on.
  unfoldable pub on_received :
      (List ℕ → Io State (List ℕ)) → List ℕ → State × Received → State × Done (List ℕ)
  on_received loop got (s, receive_error) = (s, failed)
  on_received loop got (s, closed) = (s, failed)
  on_received loop got (s, bytes xs) = loop (got ++ xs) s

  -- `got` is what the buffer holds so far, `length got` the variable number_received.
  unfoldable pub read_loop : ℕ → List ℕ → ℕ → Io State (List ℕ)
  unfolding on_received
  read_loop zero got n s = if ltb (length got) n then (s, stuck) else (s, done got)
  read_loop (suc fuel) got n s =
      if ltb (length got) n
      then on_received (λ more. read_loop fuel more n) got (recv s (n - length got))
      else (s, done got)

  -- One round for each byte.
  unfoldable pub read_bytes : ℕ → Io State (List ℕ)
  unfolding read_loop
  read_bytes n = read_loop n [] n

  unfoldable pub read_data32 : Io State ℕ
  read_data32 = do xs ← read_bytes 4; pure (h.ntohl (h.load xs))

  unfoldable pub read_payload : ℕ → Io State (ℕ × List ℕ)
  read_payload n = if n == 0 then pure (n, []) else (do xs ← read_bytes n; pure (n, xs))

  -- The value is `*bytes_received` with the bytes read.
  unfoldable pub read_multiple_bytes : ℕ → Io State (ℕ × List ℕ)
  read_multiple_bytes max_buffer_length = do
    received ← read_data32
    let n = h.ntohl (h.ntohl received)
    check (not (ltb max_buffer_length n))
    read_payload n

  unfoldable pub receive_platform_command : Io State ℕ
  receive_platform_command = read_data32

  unfoldable pub receive_platform_transport_type : Io State ℕ
  receive_platform_transport_type = do t ← read_data32; pure (h.ntohl (h.ntohl t))

  -- `room` is `*bytes_to_receive` on entry.
  unfoldable pub receive_platform_data : ℕ → ℕ → Io State Payload
  receive_platform_data command room = do
    (n, xs) ← read_multiple_bytes (room % 2 ^ 32)
    check (not (ltb (room % 2 ^ 32) n))
    pure (record {
      bytes_to_receive = n;
      receive_buffer = xs;
      captured = capture transport command xs;
    })

  unfoldable pub receive_platform_message : ℕ → Io State (ℕ × Payload)
  receive_platform_message room = do
    command ← receive_platform_command
    transport_type ← receive_platform_transport_type
    check (transport_type == transport)
    p ← receive_platform_data command room
    pure (command, p)

  -- The body of the loop of write_bytes, from the result of `send` on.
  unfoldable pub on_sent : (ℕ → Io State (Unit {0})) → ℕ → State × Sent → State × Done (Unit {0})
  on_sent loop sent (s, send_error) = (s, failed)
  on_sent loop sent (s, taken m) = loop (sent + m) s

  -- `sent` is the variable number_sent.
  unfoldable pub write_loop : ℕ → List ℕ → ℕ → ℕ → Io State (Unit {0})
  unfolding on_sent
  write_loop zero buffer sent n s = if ltb sent n then (s, stuck) else (s, done tt)
  write_loop (suc fuel) buffer sent n s =
      if ltb sent n
      then on_sent (λ sent'. write_loop fuel buffer sent' n) sent
          (send s (take (n - sent) (drop sent buffer)))
      else (s, done tt)

  -- One round for each byte.
  unfoldable pub write_bytes : List ℕ → ℕ → Io State (Unit {0})
  unfolding write_loop
  write_bytes buffer n = write_loop n buffer 0 n

  unfoldable pub write_data32 : ℕ → Io State (Unit {0})
  write_data32 x = write_bytes (h.store (h.htonl x)) 4

  unfoldable pub write_multiple_bytes : List ℕ → ℕ → Io State (Unit {0})
  write_multiple_bytes buffer n = do write_data32 n; write_bytes buffer (h.htonl (h.htonl n))

  unfoldable pub send_platform_data : ℕ → List ℕ → ℕ → Io State Capture
  send_platform_data command buffer bytes_to_send = do
    write_data32 command
    write_data32 transport
    write_multiple_bytes buffer (bytes_to_send % 2 ^ 32)
    pure (capture transport command (take bytes_to_send buffer))
