-- ===== src/Emu/Socket.antt =====
-- What spdm_emu/spdm_emu_common/command.c takes from its host: a stream socket, and the order of the
-- bytes in a number.
use spdm_emu.Prelude.{ℕ, ◌/◌, ◌%◌, ◌^◌, ◌≡◌, ◌≤◌, ◌<◌, List, [], ◌∷◌, ◌++◌, length, take}

-- What `recv` returns: -1, 0, or the number of bytes that it has stored.
pub data Received : Type 0 where
  receive_error closed : Received
  bytes : List ℕ → Received

-- What `send` returns: -1, or the number of bytes that it has taken.
pub data Sent : Type 0 where
  send_error : Sent
  taken : ℕ → Sent

pub record Socket : Type 1 where
  pub State : Type 0
  pub recv : State → ℕ → State × Received
  pub send : State → List ℕ → State × Sent

-- `load` and `store` are the uint32_t that four bytes of memory hold.
pub record Host : Type 0 where
  pub load : List ℕ → ℕ
  pub store : ℕ → List ℕ
  pub ntohl : ℕ → ℕ
  pub htonl : ℕ → ℕ

-- The four bytes of a number, the highest first.
unfoldable pub be32 : ℕ → List ℕ
be32 x = x / 2 ^ 24 % 256 ∷ x / 2 ^ 16 % 256 ∷ x / 2 ^ 8 % 256 ∷ x % 256 ∷ []

-- The documented effect of `htonl` and `ntohl`: the order of the network is the highest byte first.
pub record HostLaws (h : Host) : Type 0 where
  pub htonl_lem : (x : ℕ) → x < 2 ^ 32 → h.store (h.htonl x) ≡ be32 x
  pub ntohl_lem : (x : ℕ) → x < 2 ^ 32 → h.ntohl (h.load (be32 x)) ≡ x
  pub htonl-htonl : (x : ℕ) → x < 2 ^ 32 → h.htonl (h.htonl x) ≡ x
  pub ntohl-ntohl : (x : ℕ) → x < 2 ^ 32 → h.ntohl (h.ntohl x) ≡ x

-- The documented bounds of `recv` and `send`: a successful call moves at least one byte, and no more
-- than it was given.
pub record SocketLaws (k : Socket) : Type 0 where
  pub recv_bounds :
      (s : k.State) (n : ℕ) (xs : List ℕ)
      → 0 < n
      → (k.recv s n).1 ≡ bytes xs
      → (0 < length xs) × (length xs ≤ n)
  pub send_bounds :
      (s : k.State) (xs : List ℕ) (n : ℕ)
      → 0 < length xs
      → (k.send s xs).1 ≡ taken n
      → (0 < n) × (n ≤ length xs)

-- A connection that does not fail: a call of `recv` takes a part of what is pending, and a call of
-- `send` appends a part of what it is given.
pub record Delivers (k : Socket) : Type 0 where
  pub pending : k.State → List ℕ
  pub written : k.State → List ℕ
  pub receives :
      (s : k.State) (n : ℕ)
      → 0 < n
      → 0 < length (pending s)
      → (xs : List ℕ) × ((k.recv s n).1 ≡ bytes xs)
        × (0 < length xs)
        × (length xs ≤ n)
        × (pending s ≡ xs ++ pending (k.recv s n).0)
  pub sends :
      (s : k.State) (xs : List ℕ)
      → 0 < length xs
      → (n : ℕ) × ((k.send s xs).1 ≡ taken n)
        × (0 < n)
        × (n ≤ length xs)
        × (written (k.send s xs).0 ≡ written s ++ take n xs)
