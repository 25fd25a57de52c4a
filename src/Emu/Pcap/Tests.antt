-- ===== src/Emu/Pcap/Tests.antt =====
-- The capture file at one host, whose headers are a few numbers.
use spdm_emu.Prelude.{
  ℕ, ◌+◌, ◌≡◌, ◌≢◌, refl, true, false, arith, inl, List, [], ◌∷◌, ◌++◌, length, replicate,
  length-replicate, take, drop, map, some,
}
use mathlib.Core.Option
use spdm_emu.Emu.Pcap.{
  Pcap, Capture, pcap_packet_max_size, packet_header, open_pcap_packet_file,
  append_pcap_packet_data,
}
use spdm_emu.Emu.Pcap.Read.{
  Format, Packet, bytes_of, append_all, opened, records, read_packets, capture_read,
  capture_overrun,
}

abbrev first_or : List ℕ → ℕ
first_or [] = 0
first_or (b ∷ bytes) = b

abbrev pcap : Pcap
pcap = record {
  global_bytes = λ h. h.network ∷ [];
  packet_bytes = λ h. h.incl_len ∷ h.orig_len ∷ [];
  magic = 7;
  major = 2;
  minor = 4;
  linktype_mctp = 290;
  linktype_pci_doe = 291;
  fopen = λ name. true;
  fwrite = λ file bytes. length bytes;
}

abbrev format : Format pcap
format = record {
  global_size = 1;
  header_size = 2;
  announced = first_or;
  global_size_lem = λ h. refl;
  header_size_lem = λ h. refl;
  header_size-pos = omega arith;
  announced_lem = λ h. refl;
}

abbrev closed : Capture
closed = record { is_open = false; file = [] }

abbrev packet : List ℕ → List ℕ → Packet
packet header payload = record { rawtime = 9; header = header; payload = payload }

abbrev two : List Packet
two = packet (5 ∷ []) (1 ∷ 2 ∷ []) ∷ packet [] (3 ∷ []) ∷ []

capture_read_example :
    let (c', ok) = open_pcap_packet_file pcap (some "a") 1 closed in
    (ok ≡ true)
    × (read_packets format 3 (drop 1 (append_all pcap two c').file)
        ≡ some ((5 ∷ 1 ∷ 2 ∷ []) ∷ (3 ∷ []) ∷ []))
capture_read_example =
    capture_read pcap (λ file bytes. refl) format "a" 1 closed two (inl refl) refl
      (omega arith, (omega arith, tt))

abbrev large : Packet
large = packet [] (replicate 65537 0)

abbrev global : List ℕ
global = 7 ∷ []

capture_overrun_example :
    let bytes =
      pcap.packet_bytes
        (packet_header pcap large.rawtime (length large.header + length large.payload)) in
    let cut = pcap_packet_max_size in
    let behind = drop (length global) (append_all pcap (large ∷ two) (opened global)).file in
    (append_pcap_packet_data pcap large.rawtime large.header large.payload (opened global)
      ≡ opened (global ++ (bytes ++ bytes_of large)))
    × (format.announced bytes ≡ cut)
    × (read_packets format 4 behind
        ≡ Option.map
            (λ qs. take cut (bytes_of large) ∷ qs)
            (read_packets format 3 (drop cut (bytes_of large) ++ records pcap two)))
    × (read_packets format 4 behind ≢ some (map bytes_of (large ∷ two)))
capture_overrun_example =
    capture_overrun pcap (λ file bytes. refl) format large two global 3
      (omega (arith, length-replicate {A = ℕ} 65537 0))
