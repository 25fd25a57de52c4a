-- ===== src/Emu/Tests.antt =====
-- The theorems on command.c at one connection: a socket that moves at most three bytes at a time, and
-- hosts of both byte orders.
use spdm_emu.Prelude.{
  ℕ, zero, suc, ◌+◌, ◌*◌, ◌/◌, ◌%◌, ◌^◌, ◌≡◌, ◌<◌, refl, sym, ap, arith, List, [], ◌∷◌, ◌++◌,
  length, take, drop, length-take, append-nil, min, ◌==◌, if◌then◌else◌,
}
use spdm_emu.Emu.Socket.{
  Socket, Host, HostLaws, SocketLaws, Delivers, Received, closed, bytes, Sent, send_error, taken,
  be32,
}
use spdm_emu.Emu.Io.{done, Ends}
use spdm_emu.Emu.Command.{capture, send_platform_data, receive_platform_message}
use spdm_emu.Emu.Command.Wire.{frame}
use spdm_emu.Emu.Command.Writing.{send_platform_data-Appends}
use spdm_emu.Emu.Command.Limits.{platform_messages-Ends}
use spdm_emu.Emu.Command.Exchange.{receive_platform_message-send_platform_data}

abbrev big_endian : Host
big_endian = record {
  load = λ xs. elim xs [ a ∷ b ∷ c ∷ d ∷ [] ↦ a * 2 ^ 24 + b * 2 ^ 16 + c * 2 ^ 8 + d | _ ↦ 0 ];
  store = λ x. x / 2 ^ 24 % 256 ∷ x / 2 ^ 16 % 256 ∷ x / 2 ^ 8 % 256 ∷ x % 256 ∷ [];
  ntohl = λ x. x;
  htonl = λ x. x;
}

big_endian-laws : HostLaws big_endian
unfolding be32
big_endian-laws = record {
  htonl_lem = λ x h. refl;
  ntohl_lem = λ x h. omega arith;
  htonl-htonl = λ x h. refl;
  ntohl-ntohl = λ x h. refl;
}

abbrev swapped : ℕ → ℕ
swapped x =
    x % 256 * 2 ^ 24 + x / 2 ^ 8 % 256 * 2 ^ 16 + x / 2 ^ 16 % 256 * 2 ^ 8 + x / 2 ^ 24 % 256

swapped_twice : (x : ℕ) → x < 2 ^ 32 → swapped (swapped x) ≡ x
swapped_twice x h = omega arith

abbrev little_endian : Host
little_endian = record {
  load = λ xs. elim xs [ a ∷ b ∷ c ∷ d ∷ [] ↦ d * 2 ^ 24 + c * 2 ^ 16 + b * 2 ^ 8 + a | _ ↦ 0 ];
  store = λ x. x % 256 ∷ x / 2 ^ 8 % 256 ∷ x / 2 ^ 16 % 256 ∷ x / 2 ^ 24 % 256 ∷ [];
  ntohl = swapped;
  htonl = swapped;
}

little_endian-laws : HostLaws little_endian
unfolding be32
little_endian-laws = record {
  htonl_lem = λ x h. ground arith;
  ntohl_lem = λ x h. omega arith;
  htonl-htonl = swapped_twice;
  ntohl-ntohl = swapped_twice;
}

-- The bytes to be received, and those sent.
abbrev EndsOfPipe : Type 0
EndsOfPipe = List ℕ × List ℕ

abbrev pipe_recv : EndsOfPipe → ℕ → EndsOfPipe × Received
pipe_recv s n =
    if length s.0 == 0 then (s, closed) else ((drop (min n 3) s.0, s.1), bytes (take (min n 3) s.0))

abbrev pipe_send : EndsOfPipe → List ℕ → EndsOfPipe × Sent
pipe_send s xs =
    if length xs == 0
    then (s, send_error)
    else ((s.0, s.1 ++ take (min (length xs) 2) xs), taken (min (length xs) 2))

abbrev pipe : Socket
pipe = record { State = EndsOfPipe; recv = pipe_recv; send = pipe_send }

take-drop : (n : ℕ) (xs : List ℕ) → xs ≡ take n xs ++ drop n xs
take-drop zero xs = refl
take-drop (suc n) [] = refl
take-drop (suc n) (x ∷ xs) = ap (◌∷◌ x) (take-drop n xs)

pipe-laws : SocketLaws pipe
pipe-laws = record {
  recv_bounds = λ s n xs h e. ground (arith, length-take (min n 3) s.0, e);
  send_bounds = λ s xs n h e. ground (arith, e);
}

pipe-delivers : Delivers pipe
pipe-delivers = record {
  pending = λ s. s.0;
  written = λ s. s.1;
  receives = λ s n h h'. (
    take (min n 3) s.0,
    ground (arith, h'),
    ground (arith, length-take (min n 3) s.0),
    ground (arith, length-take (min n 3) s.0),
    ground (arith, h', take-drop (min n 3) s.0),
  );
  sends =
      λ s xs h. (min (length xs) 2, ground (arith, h), omega arith, omega arith, ground (arith, h));
}

abbrev message : List ℕ
message = 0x05 ∷ 0x10 ∷ 0x84 ∷ 0x00 ∷ 0x00 ∷ []

message_exchange_example :
    ((send_platform_data pipe big_endian 1 1 message 5 ([], [])).1 ≡ done (capture 1 1 message))
    × ((receive_platform_message pipe little_endian 1 64 (frame 1 1 message, [])).1
        ≡ done (
          1,
          record { bytes_to_receive = 5; receive_buffer = message; captured = capture 1 1 message },
        ))
    × ((receive_platform_message pipe little_endian 1 64 (frame 1 1 message, [])).0.0 ≡ [])
unfolding pipe-delivers frame
message_exchange_example =
    receive_platform_message-send_platform_data pipe pipe pipe-delivers pipe-delivers big_endian
      little_endian big_endian-laws little_endian-laws 1 ([], []) (frame 1 1 message, []) 1 64
      message (frame 1 1 message) [] (omega arith) (omega arith) (omega arith) (omega arith)
      (send_platform_data-Appends pipe big_endian big_endian-laws 1 pipe-delivers 1 message
        (omega arith) (omega arith) (omega arith) ([], [])).1
      (sym (append-nil (frame 1 1 message)))

platform_messages-Ends_example :
    Ends (receive_platform_message pipe little_endian 1 64)
    × Ends (send_platform_data pipe little_endian 1 1 message 5)
platform_messages-Ends_example =
    platform_messages-Ends pipe pipe-laws little_endian little_endian-laws 1 64 1 message 5
      (omega arith) (omega arith) (omega arith)
