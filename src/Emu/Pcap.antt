-- ===== src/Emu/Pcap.antt =====
-- spdm_emu/spdm_emu_common/pcap.c: the capture file. industry_standard/pcap.h and the functions of
-- <stdio.h> are the fields of `Pcap`.
pub mod Read
mod Tests
use Prim.Native.String.{String}
use spdm_emu.Prelude.{
  ℕ, ◌+◌, ◌%◌, ◌^◌, ◌==◌, ◌!=◌, ltb, Bool, true, false, not, List, [], ◌++◌, length, take,
  if◌then◌else◌, Option, none, some,
}

-- `pcap_global_header_t`
pub record GlobalHeader : Type 0 where
  pub magic_number : ℕ
  pub version_major : ℕ
  pub version_minor : ℕ
  pub this_zone : ℕ
  pub sig_figs : ℕ
  pub snap_len : ℕ
  pub network : ℕ

-- `pcap_packet_header_t`
pub record PacketHeader : Type 0 where
  pub ts_sec : ℕ
  pub ts_usec : ℕ
  pub incl_len : ℕ
  pub orig_len : ℕ

-- The headers as bytes in memory, the constants, and the answers of fopen to a name and of fwrite
-- to a file and what is written behind it.
pub record Pcap : Type 0 where
  pub global_bytes : GlobalHeader → List ℕ
  pub packet_bytes : PacketHeader → List ℕ
  pub magic : ℕ
  pub major : ℕ
  pub minor : ℕ
  pub linktype_mctp : ℕ
  pub linktype_pci_doe : ℕ
  pub fopen : String → Bool
  pub fwrite : List ℕ → List ℕ → ℕ

-- `m_pcap_file`, and what has been written to it.
pub record Capture : Type 0 where
  pub is_open : Bool
  pub file : List ℕ

-- PCAP_PACKET_MAX_SIZE
abbrev pub pcap_packet_max_size : ℕ
pcap_packet_max_size = 0x10000

unfoldable pub close_pcap_packet_file : Capture → Capture
close_pcap_packet_file c = if c.is_open then record c { is_open = false } else c

module _ (k : Pcap) where
  -- One fwrite, and whether it wrote all bytes.
  unfoldable pub put : List ℕ → Capture → Capture × Bool
  put bytes c =
      let n = k.fwrite c.file bytes in
      (record c { file = c.file ++ take n bytes }, n == length bytes)

  -- A part that may be empty is written only when it is not.
  unfoldable pub put_some : List ℕ → Capture → Capture × Bool
  unfolding put
  put_some bytes c = if length bytes != 0 then put bytes c else (c, true)

  -- What follows a fwrite: the file is closed where it failed.
  unfoldable pub or_close : Capture × Bool → (Capture → Capture) → Capture
  unfolding close_pcap_packet_file
  or_close (c, ok) next = if ok then next c else close_pcap_packet_file c

  -- Opening the file by its name, and the header for the given kind of link.
  unfoldable pub start : String → ℕ → Capture → Capture × Bool
  unfolding close_pcap_packet_file
  start name network c =
      let header : GlobalHeader = record {
        magic_number = k.magic;
        version_major = k.major;
        version_minor = k.minor;
        this_zone = 0;
        sig_figs = 0;
        snap_len = pcap_packet_max_size;
        network = network;
      } in
      let (c', ok) = put (k.global_bytes header) (record { is_open = true; file = [] }) in
      if not (k.fopen name)
      then (record c { is_open = false }, false)
      else if ok
      then (c', true)
      else (close_pcap_packet_file c', false)

  -- A `none` is a NULL name, and the number is m_use_transport_layer.
  unfoldable pub open_pcap_packet_file : Option String → ℕ → Capture → Capture × Bool
  unfolding start
  open_pcap_packet_file none transport c = (c, false)
  open_pcap_packet_file (some name) transport c =
      if transport == 1
      then start name k.linktype_mctp c
      else if transport == 2
      then start name k.linktype_pci_doe c
      else (c, false)

  -- The header in front of a packet of so many bytes, at the time in seconds.
  unfoldable pub packet_header : ℕ → ℕ → PacketHeader
  packet_header rawtime total_size = record {
    ts_sec = rawtime % 2 ^ 32;
    ts_usec = 0;
    incl_len = if ltb pcap_packet_max_size total_size then pcap_packet_max_size else total_size;
    orig_len = total_size % 2 ^ 32;
  }

  unfoldable pub append_pcap_packet_data : ℕ → List ℕ → List ℕ → Capture → Capture
  append_pcap_packet_data rawtime header payload c =
      if c.is_open
      then or_close
          (put (k.packet_bytes (packet_header rawtime (length header + length payload))) c)
          (λ c1. or_close (put_some header c1) (λ c2. or_close (put payload c2) (λ c3. c3)))
      else c
