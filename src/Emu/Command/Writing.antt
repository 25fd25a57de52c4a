-- ===== src/Emu/Command/Writing.antt =====
-- What the writing functions of spdm_emu/spdm_emu_common/command.c put into a connection that
-- delivers.
use spdm_emu.Prelude.{
  ℕ, zero, suc, ◌+◌, ◌-◌, ◌%◌, ◌^◌, ◌≡◌, ◌≤◌, ◌<◌, refl, ap, subst, ◌∙◌, false, arith, List, ◌++◌,
  length, take, drop, length-take, length-drop, take-add, take-append, take_length, drop-drop,
  append_assoc, append-nil, ltb, Bool-cases, inl, inr,
}
use spdm_emu.Emu.Socket.{Socket, Host, HostLaws, Delivers, Sent, taken, be32}
use spdm_emu.Emu.Io.{Io, Appends, >>=-Appends, >>=-Appends_pure}
use spdm_emu.Emu.Command.{
  capture, on_sent, write_loop, write_bytes, write_data32, write_multiple_bytes, send_platform_data,
}
use spdm_emu.Emu.Command.Wire.{frame}

-- A chunk, cut at `m`: its front and the chunk that starts behind it.
chunk-cut :
    (buffer : List ℕ) (sent n m : ℕ)
    → n ≤ length buffer
    → sent + m ≤ n
    → take m (take (n - sent) (drop sent buffer)) ++ take (n - (sent + m)) (drop (sent + m) buffer)
      ≡ take (n - sent) (drop sent buffer)
chunk-cut buffer sent n m whole within =
    let sum : n - sent ≡ m + (n - (sent + m)) = omega arith in
    let front : length (take m (drop sent buffer)) ≡ m =
      omega (arith, length-take m (drop sent buffer), length-drop sent buffer) in
    rw (
      sum,
      take-add m (n - (sent + m)) (drop sent buffer),
      take-append m (take m (drop sent buffer)) (take (n - (sent + m)) (drop m (drop sent buffer)))
          front,
      drop-drop sent m buffer,
    )

module _ (k : Socket) (h : Host) (transport : ℕ) where
  on_sent-taken :
      (loop : ℕ → Io k.State (Unit {0})) (sent : ℕ) (p : k.State × Sent) (m : ℕ)
      → p.1 ≡ taken m
      → on_sent k h transport loop sent p ≡ loop (sent + m) p.0
  unfolding on_sent
  on_sent-taken loop sent (s, r) m e = rw e

module _ (k : Socket) (h : Host) (transport : ℕ) (d : Delivers k) where
  write_loop-Appends :
      (fuel : ℕ) (buffer : List ℕ) (sent n : ℕ)
      → n ≤ length buffer
      → n - sent ≤ fuel
      → Appends d.written
          (write_loop k h transport fuel buffer sent n)
          (take (n - sent) (drop sent buffer))
          tt
  unfolding write_loop
  write_loop-Appends zero buffer sent n whole f s =
      let end : ltb sent n ≡ false = ground arith in
      let nothing : n - sent ≡ 0 = omega arith in rw (end, nothing, append-nil) ((refl, refl))
  write_loop-Appends (suc fuel) buffer sent n whole f s = elim (Bool-cases (ltb sent n)) [
    | inl more ↦
        let chunk = take (n - sent) (drop sent buffer) in
        let size : length chunk ≡ n - sent =
          ground (arith, length-take (n - sent) (drop sent buffer), length-drop sent buffer) in
        let (m, accepted, some_byte, bounded, longer) = d.sends s chunk (ground (arith, size)) in
        let (ends, rest) =
          write_loop-Appends fuel buffer (sent + m) n whole (omega arith) (k.send s chunk).0 in
        rw
          (
            more,
            on_sent-taken k h transport (λ sent'. write_loop k h transport fuel buffer sent' n) sent
                (k.send s chunk) m accepted,
          )
          ((
            ends,
            rest
                ∙ ap (λ t. t ++ take (n - (sent + m)) (drop (sent + m) buffer)) longer
                ∙ append_assoc (d.written s) (take m chunk)
                    (take (n - (sent + m)) (drop (sent + m) buffer))
                ∙ ap (λ t. d.written s ++ t)
                    (chunk-cut buffer sent n m whole (ground (arith, size))),
          ))
    | inr last ↦
        let nothing : n - sent ≡ 0 = ground arith in rw (last, nothing, append-nil) ((refl, refl))
  ]

  write_bytes-Appends :
      (buffer : List ℕ) (n : ℕ)
      → n ≤ length buffer
      → Appends d.written (write_bytes k h transport buffer n) (take n buffer) tt
  unfolding write_bytes
  write_bytes-Appends buffer n whole =
      let all : n - 0 ≡ n = omega arith in
      subst (λ t. Appends d.written (write_loop k h transport n buffer 0 n) (take t buffer) tt) all
        (write_loop-Appends n buffer 0 n whole (omega arith))

module _ (k : Socket) (h : Host) (laws : HostLaws h) (transport : ℕ) (d : Delivers k) where
  write_data32-Appends :
      (x : ℕ) → x < 2 ^ 32 → Appends d.written (write_data32 k h transport x) (be32 x) tt
  unfolding write_data32 be32
  write_data32-Appends x small =
      rw (laws.htonl_lem x small) (write_bytes-Appends k h transport d (be32 x) 4 (omega arith))

  write_multiple_bytes-Appends :
      (xs : List ℕ)
      → length xs < 2 ^ 32
      → Appends d.written
          (write_multiple_bytes k h transport xs (length xs))
          (be32 (length xs) ++ xs)
          tt
  unfolding write_multiple_bytes
  write_multiple_bytes-Appends xs small =
      >>=-Appends d.written (write_data32 k h transport (length xs)) _ (be32 (length xs)) xs tt tt
        (write_data32-Appends (length xs) small)
        (rw (laws.htonl-htonl (length xs) small) (
          subst (λ t. Appends d.written (write_bytes k h transport xs (length xs)) t tt)
            (take_length (length xs) xs (omega arith))
            (write_bytes-Appends k h transport d xs (length xs) (omega arith))))

  pub send_platform_data-Appends :
      (command : ℕ) (xs : List ℕ)
      → command < 2 ^ 32
      → transport < 2 ^ 32
      → length xs < 2 ^ 32
      → Appends d.written
          (send_platform_data k h transport command xs (length xs))
          (frame command transport xs)
          (capture transport command xs)
  unfolding send_platform_data frame
  send_platform_data-Appends command xs c t small =
      let whole : length xs % 2 ^ 32 ≡ length xs = omega arith in
      >>=-Appends d.written (write_data32 k h transport command) _ (be32 command) _ tt _
        (write_data32-Appends command c)
        (>>=-Appends d.written (write_data32 k h transport transport) _ (be32 transport) _ tt _
          (write_data32-Appends transport t)
          (rw whole (
            >>=-Appends_pure d.written (write_multiple_bytes k h transport xs (length xs)) _ _ tt _
              (write_multiple_bytes-Appends xs small)
              (λ s. rw (take_length (length xs) xs (omega arith))))))
