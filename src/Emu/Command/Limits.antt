-- ===== src/Emu/Command/Limits.antt =====
-- What holds of the functions of spdm_emu/spdm_emu_common/command.c on any socket, however it cuts,
-- ends or fails a connection.
use spdm_emu.Prelude.{
  ℕ, zero, suc, ◌+◌, ◌-◌, ◌%◌, ◌^◌, ◌≡◌, ◌≢◌, ◌≤◌, ◌<◌, refl, Bool, true, false, not, arith, List,
  [], ◌++◌, length, length-append, take, drop, length-take, length-drop, ltb, ◌==◌, Bool-cases, inl,
  inr,
}
use spdm_emu.Emu.Socket.{
  Socket, Host, HostLaws, SocketLaws, be32, Received, receive_error, closed, bytes, Sent,
  send_error, taken,
}
use spdm_emu.Emu.Io.{Io, stuck, done, pure, check, Ends, >>=-Ends, Ensures, >>=-Ensures}
use spdm_emu.Emu.Command.Wire.{length-be32}
use spdm_emu.Emu.Command.{
  Payload, capture, on_received, read_loop, read_bytes, read_data32, read_payload,
  read_multiple_bytes, receive_platform_command, receive_platform_transport_type,
  receive_platform_data, receive_platform_message, on_sent, write_loop, write_bytes, write_data32,
  write_multiple_bytes, send_platform_data,
}

module _ {S : Type 0} where
  pure-Ends : {A : Type 0} (a : A) → Ends {S = S} (pure a)
  pure-Ends a s = λ e. cc

  check-Ends : (b : Bool) → Ends {S = S} (check b)
  check-Ends true s = λ e. cc
  check-Ends false s = λ e. cc

  check-Ensures : (b : Bool) → Ensures {S = S} (λ _. b ≡ true) (check b)
  check-Ensures true s a e = refl
  check-Ensures false s a e = cc

-- What a received payload is held to: the bytes stored are as many as announced, and at most the
-- room.
abbrev pub IsWithin : ℕ → Payload → Type 0
IsWithin room p = (length p.receive_buffer ≡ p.bytes_to_receive) × (p.bytes_to_receive ≤ room)

module _ (k : Socket) (laws : SocketLaws k) (h : Host) (transport : ℕ) where
  on_received-Ends :
      (loop : List ℕ → Io k.State (List ℕ)) (got : List ℕ) (p : k.State × Received)
      → ((xs : List ℕ) → p.1 ≡ bytes xs → Ends (loop (got ++ xs)))
      → (on_received k h transport loop got p).1 ≢ stuck
  unfolding on_received
  on_received-Ends loop got (s, receive_error) e = λ q. cc
  on_received-Ends loop got (s, closed) e = λ q. cc
  on_received-Ends loop got (s, bytes xs) e = e xs refl s

  read_loop-Ends :
      (fuel : ℕ) (got : List ℕ) (n : ℕ)
      → n - length got ≤ fuel
      → Ends (read_loop k h transport fuel got n)
  unfolding read_loop
  read_loop-Ends zero got n f s = ground arith
  read_loop-Ends (suc fuel) got n f s = elim (Bool-cases (ltb (length got) n)) [
    | inl more ↦
        let next : (xs : List ℕ)
            → (k.recv s (n - length got)).1 ≡ bytes xs
            → Ends (read_loop k h transport fuel (got ++ xs) n) =
          λ xs e.
            read_loop-Ends fuel (got ++ xs) n
              (ground (arith, laws.recv_bounds s (n - length got) xs, length-append got xs)) in
        rw more (
          on_received-Ends (λ more'. read_loop k h transport fuel more' n) got
            (k.recv s (n - length got)) next)
    | inr full ↦ rw full (λ e. cc)
  ]

  on_received-length :
      (loop : List ℕ → Io k.State (List ℕ)) (got : List ℕ) (n : ℕ) (p : k.State × Received)
      → ((xs : List ℕ) → p.1 ≡ bytes xs → Ensures (λ ys. length ys ≡ n) (loop (got ++ xs)))
      → (ys : List ℕ) → (on_received k h transport loop got p).1 ≡ done ys
      → length ys ≡ n
  unfolding on_received
  on_received-length loop got n (s, receive_error) e ys q = cc
  on_received-length loop got n (s, closed) e ys q = cc
  on_received-length loop got n (s, bytes xs) e ys q = e xs refl s ys q

  read_loop-length :
      (fuel : ℕ) (got : List ℕ) (n : ℕ)
      → length got ≤ n
      → Ensures (λ ys. length ys ≡ n) (read_loop k h transport fuel got n)
  unfolding read_loop
  read_loop-length zero got n f s ys = ground arith
  read_loop-length (suc fuel) got n f s ys = elim (Bool-cases (ltb (length got) n)) [
    | inl more ↦
        let next : (xs : List ℕ)
            → (k.recv s (n - length got)).1 ≡ bytes xs
            → Ensures (λ ys'. length ys' ≡ n) (read_loop k h transport fuel (got ++ xs) n) =
          λ xs e.
            read_loop-length fuel (got ++ xs) n
              (ground (arith, laws.recv_bounds s (n - length got) xs, length-append got xs)) in
        rw more (
          on_received-length (λ more'. read_loop k h transport fuel more' n) got n
            (k.recv s (n - length got)) next ys)
    | inr full ↦ rw full (λ e. ground (arith, full, e))
  ]

  read_data32-Ends : Ends (read_data32 k h transport)
  unfolding read_data32 read_bytes
  read_data32-Ends =
      >>=-Ends (read_bytes k h transport 4) _ (read_loop-Ends 4 [] 4 (omega arith)) (λ xs s e. cc)

  read_payload-Ends : (n : ℕ) → Ends (read_payload k h transport n)
  unfolding read_payload read_bytes
  read_payload-Ends n = elim (Bool-cases (n == 0)) [
    | inl none ↦ rw none (λ s e. cc)
    | inr some ↦ rw some (
        >>=-Ends (read_bytes k h transport n) _ (read_loop-Ends n [] n (omega arith))
          (λ xs s e. cc))
  ]

  read_multiple_bytes-Ends : (room : ℕ) → Ends (read_multiple_bytes k h transport room)
  unfolding read_multiple_bytes
  read_multiple_bytes-Ends room =
      >>=-Ends (read_data32 k h transport) _ read_data32-Ends
        (λ n. >>=-Ends (check _) _ (check-Ends _) (λ _. read_payload-Ends _))

  receive_platform_data-Ends :
      (command room : ℕ) → Ends (receive_platform_data k h transport command room)
  unfolding receive_platform_data
  receive_platform_data-Ends command room =
      >>=-Ends (read_multiple_bytes k h transport (room % 2 ^ 32)) _ (read_multiple_bytes-Ends _)
        (λ p. >>=-Ends (check _) _ (check-Ends _) (λ _. pure-Ends _))

  receive_platform_message-Ends : (room : ℕ) → Ends (receive_platform_message k h transport room)
  unfolding receive_platform_message receive_platform_command receive_platform_transport_type
  receive_platform_message-Ends room =
      >>=-Ends (read_data32 k h transport) _ read_data32-Ends (λ command.
        >>=-Ends (receive_platform_transport_type k h transport) _
          (>>=-Ends (read_data32 k h transport) _ read_data32-Ends (λ t s e. cc))
          (λ t. >>=-Ends (check _) _ (check-Ends _) (λ _.
            >>=-Ends (receive_platform_data k h transport command room) _
              (receive_platform_data-Ends command room) (λ p s e. cc))))

  read_payload-length :
      (n : ℕ) → Ensures (λ p. (p.0 ≡ n) × (length p.1 ≡ p.0)) (read_payload k h transport n)
  unfolding read_payload read_bytes
  read_payload-length n = elim (Bool-cases (n == 0)) [
    | inl none ↦ rw none (λ s p e. ground (arith, none, e))
    | inr some ↦ rw some (
        >>=-Ensures (λ xs. length xs ≡ n) (λ p. (p.0 ≡ n) × (length p.1 ≡ p.0))
          (read_bytes k h transport n) (λ xs. pure (n, xs)) (read_loop-length n [] n (omega arith))
          (λ xs size s p e. ground (arith, size, e)))
  ]

  read_multiple_bytes-length :
      (room : ℕ)
      → Ensures (λ p. (p.0 ≤ room) × (length p.1 ≡ p.0)) (read_multiple_bytes k h transport room)
  unfolding read_multiple_bytes
  read_multiple_bytes-length room =
      >>=-Ensures (λ _. Unit {0}) _ (read_data32 k h transport) _ (λ s a e. tt)
        (λ n _.
          >>=-Ensures (λ _. not (ltb room (h.ntohl (h.ntohl n))) ≡ true) _ (check _) _
            (check-Ensures _)
            (λ _ fits s p e. ground (arith, fits, read_payload-length (h.ntohl (h.ntohl n)) s p e)))

  receive_platform_data-IsWithin :
      (command room : ℕ)
      → Ensures (IsWithin (room % 2 ^ 32)) (receive_platform_data k h transport command room)
  unfolding receive_platform_data
  receive_platform_data-IsWithin command room =
      >>=-Ensures (λ p. (p.0 ≤ room % 2 ^ 32) × (length p.1 ≡ p.0)) _
        (read_multiple_bytes k h transport (room % 2 ^ 32)) _ (read_multiple_bytes-length _)
        (λ p sizes.
          >>=-Ensures (λ _. Unit {0}) (IsWithin (room % 2 ^ 32))
            (check (not (ltb (room % 2 ^ 32) p.0)))
            (λ _. pure (record {
              bytes_to_receive = p.0;
              receive_buffer = p.1;
              captured = capture transport command p.1;
            }))
            (λ s a e. tt) (λ _ _ s q e. ground (arith, sizes, e)))

  -- A message that is received, from whatever peer, has brought as many bytes as its length announces,
  -- and no more than the room that the caller gave, taken modulo 2^32.
  pub receive_platform_message-IsWithin :
      (room : ℕ)
      → Ensures (λ p. IsWithin (room % 2 ^ 32) p.1) (receive_platform_message k h transport room)
  unfolding receive_platform_message
  receive_platform_message-IsWithin room =
      >>=-Ensures (λ _. Unit {0}) _ (receive_platform_command k h transport) _ (λ s a e. tt)
        (λ command _.
          >>=-Ensures (λ _. Unit {0}) _ (receive_platform_transport_type k h transport) _
            (λ s a e. tt)
            (λ t _.
              >>=-Ensures (λ _. Unit {0}) _ (check (t == transport)) _ (λ s a e. tt)
                (λ _ _.
                  >>=-Ensures (IsWithin (room % 2 ^ 32)) _
                    (receive_platform_data k h transport command room) (λ p. pure (command, p))
                    (receive_platform_data-IsWithin command room)
                    (λ p within s q e. ground (arith, within, e)))))

  on_sent-Ends :
      (loop : ℕ → Io k.State (Unit {0})) (sent : ℕ) (p : k.State × Sent)
      → ((m : ℕ) → p.1 ≡ taken m → Ends (loop (sent + m)))
      → (on_sent k h transport loop sent p).1 ≢ stuck
  unfolding on_sent
  on_sent-Ends loop sent (s, send_error) e = λ q. cc
  on_sent-Ends loop sent (s, taken m) e = e m refl s

  write_loop-Ends :
      (fuel : ℕ) (buffer : List ℕ) (sent n : ℕ)
      → n ≤ length buffer
      → n - sent ≤ fuel
      → Ends (write_loop k h transport fuel buffer sent n)
  unfolding write_loop
  write_loop-Ends zero buffer sent n whole f s = ground arith
  write_loop-Ends (suc fuel) buffer sent n whole f s = elim (Bool-cases (ltb sent n)) [
    | inl more ↦
        let chunk = take (n - sent) (drop sent buffer) in
        let size : 0 < length chunk =
          ground (arith, length-take (n - sent) (drop sent buffer), length-drop sent buffer) in
        let next : (m : ℕ)
            → (k.send s chunk).1 ≡ taken m
            → Ends (write_loop k h transport fuel buffer (sent + m) n) =
          λ m e.
            write_loop-Ends fuel buffer (sent + m) n whole
              (ground (arith, laws.send_bounds s chunk m size e)) in
        rw more (
          on_sent-Ends (λ sent'. write_loop k h transport fuel buffer sent' n) sent (k.send s chunk)
            next)
    | inr full ↦ rw full (λ e. cc)
  ]

module _ (k : Socket) (laws : SocketLaws k) (h : Host) (order : HostLaws h) (transport : ℕ) where
  write_data32-Ends : (x : ℕ) → x < 2 ^ 32 → Ends (write_data32 k h transport x)
  unfolding write_data32 write_bytes
  write_data32-Ends x small = rw (order.htonl_lem x small) (
      write_loop-Ends k laws h transport 4 (be32 x) 0 4 (omega (arith, length-be32 x))
        (omega arith))

  write_multiple_bytes-Ends :
      (buffer : List ℕ) (n : ℕ)
      → n ≤ length buffer
      → n < 2 ^ 32
      → Ends (write_multiple_bytes k h transport buffer n)
  unfolding write_multiple_bytes write_bytes
  write_multiple_bytes-Ends buffer n whole small =
      >>=-Ends (write_data32 k h transport n) _ (write_data32-Ends n small) (λ _.
        rw (order.htonl-htonl n small)
          (write_loop-Ends k laws h transport n buffer 0 n whole (omega arith)))

  -- Receiving a message, and sending one whose bytes are in the buffer and whose command and transport
  -- type fit 32 bits, end by a value or fail on every socket whose calls move at least one byte and no
  -- more than they are given: no loop outlives the number of its bytes.
  pub platform_messages-Ends :
      (room command : ℕ) (buffer : List ℕ) (n : ℕ)
      → command < 2 ^ 32
      → transport < 2 ^ 32
      → n ≤ length buffer
      → Ends (receive_platform_message k h transport room)
        × Ends (send_platform_data k h transport command buffer n)
  unfolding send_platform_data
  platform_messages-Ends room command buffer n c t whole = (
    receive_platform_message-Ends k laws h transport room,
    >>=-Ends (write_data32 k h transport command) _ (write_data32-Ends command c) (λ _.
        >>=-Ends (write_data32 k h transport transport) _ (write_data32-Ends transport t) (λ _.
          >>=-Ends (write_multiple_bytes k h transport buffer (n % 2 ^ 32)) _
            (write_multiple_bytes-Ends buffer (n % 2 ^ 32) (omega arith) (omega arith))
            (λ _. pure-Ends _))),
  )
