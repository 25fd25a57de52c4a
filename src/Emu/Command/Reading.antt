-- ===== src/Emu/Command/Reading.antt =====
-- What the reading functions of spdm_emu/spdm_emu_common/command.c take from a connection that
-- delivers.
use spdm_emu.Prelude.{
  ℕ, zero, suc, ◌+◌, ◌-◌, ◌%◌, ◌^◌, ◌≡◌, ◌≤◌, ◌<◌, refl, sym, ap, ◌∙◌, true, false, arith, List, [],
  ◌∷◌, ◌++◌, length, length-append, append_assoc, append-nil, ltb, not, ◌==◌,
}
use spdm_emu.Emu.Socket.{Socket, Host, HostLaws, Delivers, Received, bytes, be32}
use spdm_emu.Emu.Command.Wire.{frame, length-be32}
use spdm_emu.Emu.Io.{follow-done, Io, done, pure, Takes, >>=-Takes, >>=-Takes_pure}
use spdm_emu.Emu.Command.{
  capture, on_received, read_loop, read_bytes, read_data32, read_payload, read_multiple_bytes,
  receive_platform_command, receive_platform_transport_type, receive_platform_data,
  receive_platform_message,
}

-- Two ways to cut one list: the shorter front is a part of the longer.
split_longer :
    (xs front ys rest : List ℕ)
    → xs ++ rest ≡ front ++ ys
    → length front ≤ length xs
    → (more : List ℕ) × (xs ≡ front ++ more) × (ys ≡ more ++ rest)
split_longer xs [] ys rest e h = (xs, refl, sym e)
split_longer [] (f ∷ front) ys rest e h = absurd (omega arith)
split_longer (x ∷ xs) (f ∷ front) ys rest e h =
    let tails : xs ++ rest ≡ front ++ ys = cc in
    let heads : x ≡ f = cc in
    let (more, front_eq, ys_eq) = split_longer xs front ys rest tails (omega arith) in
    (more, cc, ys_eq)

module _ (k : Socket) (h : Host) (transport : ℕ) where
  on_received-bytes :
      (loop : List ℕ → Io k.State (List ℕ)) (got : List ℕ) (p : k.State × Received) (xs : List ℕ)
      → p.1 ≡ bytes xs
      → on_received k h transport loop got p ≡ loop (got ++ xs) p.0
  unfolding on_received
  on_received-bytes loop got (s, r) xs e = rw e

module _ (k : Socket) (h : Host) (transport : ℕ) (d : Delivers k) where
  read_loop-Takes :
      (fuel : ℕ) (got xs : List ℕ) (n : ℕ)
      → n ≡ length got + length xs
      → length xs ≤ fuel
      → Takes d.pending (read_loop k h transport fuel got n) xs (got ++ xs)
  unfolding read_loop
  read_loop-Takes zero got [] n e f s rest p =
      let full : ltb (length got) n ≡ false = ground arith in rw (full, append-nil) ((refl, p))
  read_loop-Takes zero got (x ∷ xs) n e f s rest p = absurd (omega arith)
  read_loop-Takes (suc fuel) got [] n e f s rest p =
      let full : ltb (length got) n ≡ false = ground arith in rw (full, append-nil) ((refl, p))
  read_loop-Takes (suc fuel) got (x ∷ xs) n e f s rest p =
      let wanting : ltb (length got) n ≡ true = ground arith in
      let wants : 0 < n - length got = omega arith in
      let waits : 0 < length (d.pending s) = rw p (omega arith) in
      let (ys, received, some_byte, bounded, cut) = d.receives s (n - length got) wants waits in
      let short : length ys ≤ length (x ∷ xs) = omega arith in
      let (more, whole, left) =
        split_longer (x ∷ xs) ys (d.pending (k.recv s (n - length got)).0) rest (sym p ∙ cut)
          short in
      let sizes : length (x ∷ xs) ≡ length ys + length more =
        ap length whole ∙ length-append ys more in
      let next =
        read_loop-Takes fuel (got ++ ys) more n (omega (arith, length-append got ys)) (omega arith)
          (k.recv s (n - length got)).0 rest left in
      rw
        (
          wanting,
          on_received-bytes k h transport (λ more'. read_loop k h transport fuel more' n) got
              (k.recv s (n - length got)) ys received,
          whole,
          ← append_assoc got ys more,
        )
        next

  read_bytes-Takes :
      (xs : List ℕ) (n : ℕ) → n ≡ length xs → Takes d.pending (read_bytes k h transport n) xs xs
  unfolding read_bytes
  read_bytes-Takes xs n e = read_loop-Takes n [] xs n (omega arith) (omega arith)

module _ (k : Socket) (h : Host) (laws : HostLaws h) (transport : ℕ) (d : Delivers k) where
  read_data32-Takes : (x : ℕ) → x < 2 ^ 32 → Takes d.pending (read_data32 k h transport) (be32 x) x
  unfolding read_data32
  read_data32-Takes x e s rest p =
      let (first, left) =
        read_bytes-Takes k h transport d (be32 x) 4 (sym (length-be32 x)) s rest p in
      rw (follow-done (read_bytes k h transport 4 s) _ (be32 x) first)
        ((ap done (laws.ntohl_lem x e), left))

  read_payload-Takes :
      (xs : List ℕ) → Takes d.pending (read_payload k h transport (length xs)) xs (length xs, xs)
  unfolding read_payload
  read_payload-Takes [] s rest p = (refl, p)
  read_payload-Takes (x ∷ xs) s rest p =
      let (first, left) =
        read_bytes-Takes k h transport d (x ∷ xs) (length (x ∷ xs)) refl s rest p in
      ground (
        arith,
        follow-done (read_bytes k h transport (length (x ∷ xs)) s)
            (λ (ys : List ℕ). pure {A = ℕ × List ℕ} (length (x ∷ xs), ys)) (x ∷ xs) first,
      )

  read_multiple_bytes-Takes :
      (xs : List ℕ) (room : ℕ)
      → length xs ≤ room
      → length xs < 2 ^ 32
      → Takes d.pending
          (read_multiple_bytes k h transport room)
          (be32 (length xs) ++ xs)
          (length xs, xs)
  unfolding read_multiple_bytes
  read_multiple_bytes-Takes xs room fits small =
      >>=-Takes d.pending (read_data32 k h transport) _ (be32 (length xs)) xs (length xs)
        (length xs, xs) (read_data32-Takes (length xs) small)
        (rw (laws.ntohl-ntohl (length xs) small) (rw within (read_payload-Takes xs)))
    where
      within : not (ltb room (length xs)) ≡ true
      within = ground arith

  receive_platform_transport_type-Takes :
      transport < 2 ^ 32
      → Takes d.pending (receive_platform_transport_type k h transport) (be32 transport) transport
  unfolding receive_platform_transport_type
  receive_platform_transport_type-Takes small =
      >>=-Takes_pure d.pending (read_data32 k h transport) _ (be32 transport) transport transport
        (read_data32-Takes transport small) (λ s. rw (laws.ntohl-ntohl transport small))

  receive_platform_data-Takes :
      (command room : ℕ) (xs : List ℕ)
      → length xs ≤ room
      → room < 2 ^ 32
      → Takes d.pending
          (receive_platform_data k h transport command room)
          (be32 (length xs) ++ xs)
          (record {
            bytes_to_receive = length xs;
            receive_buffer = xs;
            captured = capture transport command xs;
          })
  unfolding receive_platform_data
  receive_platform_data-Takes command room xs fits small =
      let whole : room % 2 ^ 32 ≡ room = omega arith in
      let within : not (ltb room (length xs)) ≡ true = ground arith in
      >>=-Takes_pure d.pending (read_multiple_bytes k h transport (room % 2 ^ 32)) _
        (be32 (length xs) ++ xs) (length xs, xs) _
        (rw whole (read_multiple_bytes-Takes xs room fits (omega arith))) (λ s. rw (whole, within))

  pub receive_platform_message-Takes :
      (command room : ℕ) (xs : List ℕ)
      → command < 2 ^ 32
      → transport < 2 ^ 32
      → length xs ≤ room
      → room < 2 ^ 32
      → Takes d.pending (receive_platform_message k h transport room) (frame command transport xs) (
        command,
        record {
          bytes_to_receive = length xs;
          receive_buffer = xs;
          captured = capture transport command xs;
        },
      )
  unfolding receive_platform_message receive_platform_command frame
  receive_platform_message-Takes command room xs c t fits small =
      let same : transport == transport ≡ true = ground arith in
      >>=-Takes d.pending (read_data32 k h transport) _ (be32 command) _ command _
        (read_data32-Takes command c)
        (>>=-Takes d.pending (receive_platform_transport_type k h transport) _ (be32 transport) _
          transport _ (receive_platform_transport_type-Takes t)
          (rw same (
            >>=-Takes_pure d.pending (receive_platform_data k h transport command room) _ _ _ _
              (receive_platform_data-Takes command room xs fits small) (λ s. refl))))
