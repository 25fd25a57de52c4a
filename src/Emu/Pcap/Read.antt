-- ===== src/Emu/Pcap/Read.antt =====
-- A capture file of spdm_emu/spdm_emu_common/pcap.c, read back packet by packet.
use spdm_emu.Prelude.{
  ℕ, zero, suc, ◌+◌, ◌≡◌, ◌≤◌, ◌<◌, ◌≢◌, refl, arith, ◌!=◌, ◌==◌, ◌⊎◌, inl, inr, ap, sym, ◌∙◌, Bool,
  true, false, List, [], ◌∷◌, ◌++◌, length, length-append, length-take, take, drop,
  drop-append_exact, take-drop, ltb, Option, none, some, append_assoc, append-nil, take-append,
  take_length, if◌then◌else◌, All, map, ==_refl,
}
use Prim.Native.String.{String}
use mathlib.Core.Option
use spdm_emu.Emu.Pcap.{
  GlobalHeader, start, open_pcap_packet_file, PacketHeader, Pcap, Capture, pcap_packet_max_size,
  put, put_some, or_close, packet_header, append_pcap_packet_data,
}

-- How a reader takes the headers of the file: their sizes, and the length that a packet's announces.
pub record Format (k : Pcap) : Type 0 where
  pub global_size : ℕ
  pub header_size : ℕ
  pub announced : List ℕ → ℕ
  pub global_size_lem : (h : GlobalHeader) → length (k.global_bytes h) ≡ global_size
  pub header_size_lem : (h : PacketHeader) → length (k.packet_bytes h) ≡ header_size
  pub header_size-pos : 0 < header_size
  pub announced_lem : (h : PacketHeader) → announced (k.packet_bytes h) ≡ h.incl_len

-- A packet as it is given to append_pcap_packet_data, with the time.
pub record Packet : Type 0 where
  pub rawtime : ℕ
  pub header : List ℕ
  pub payload : List ℕ

abbrev pub bytes_of : Packet → List ℕ
bytes_of p = p.header ++ p.payload

module _ (k : Pcap) where
  -- All packets, one after the other.
  unfoldable pub append_all : List Packet → Capture → Capture
  append_all [] c = c
  append_all (p ∷ ps) c = append_all ps (append_pcap_packet_data k p.rawtime p.header p.payload c)

  -- What a packet adds to the file.
  abbrev pub record_of : Packet → List ℕ
  record_of p =
      k.packet_bytes (packet_header k p.rawtime (length p.header + length p.payload)) ++ bytes_of p

  abbrev pub records : List Packet → List ℕ
  records [] = []
  records (p ∷ ps) = record_of p ++ records ps

-- A capture whose file is open.
abbrev pub opened : List ℕ → Capture
opened file = record { is_open = true; file = file }

-- A reader: a header, as many bytes as it announces, and again, with fuel for the packets.
unfoldable pub read_packets : {k : Pcap} → Format k → ℕ → List ℕ → Option (List (List ℕ))
read_packets f zero file = none
read_packets f (suc fuel) file =
    let n = f.announced (take f.header_size file) in
    let behind = drop f.header_size file in
    let rest = read_packets f fuel (drop n behind) in
    if length file == 0
    then some []
    else if ltb (length file) (f.header_size + n)
    then none
    else Option.map (λ ps. take n behind ∷ ps) rest

-- The size of the first packet that was read, 0 when there is none.
abbrev first_size : Option (List (List ℕ)) → ℕ
first_size none = 0
first_size (some []) = 0
first_size (some (q ∷ qs)) = length q

-- A packet without its last bytes is not the packet.
first_size-map :
    (bytes : List ℕ) (n : ℕ) (o : Option (List (List ℕ))) (qs : List (List ℕ))
    → n < length bytes
    → Option.map (λ ps. take n bytes ∷ ps) o ≢ some (bytes ∷ qs)
first_size-map bytes n none qs large e = absurd (omega (arith, ap first_size e))
first_size-map bytes n (some ps) qs large e =
    absurd (omega (arith, ap first_size e, length-take n bytes))

module _ (k : Pcap) (writes : (file bytes : List ℕ) → k.fwrite file bytes ≡ length bytes) where
  put_lem :
      (bytes : List ℕ) (c : Capture) → put k bytes c ≡ (record c { file = c.file ++ bytes }, true)
  unfolding put
  put_lem bytes c =
      rw (writes c.file bytes, take_length (length bytes) bytes (omega arith), ==_refl) refl

  put_some_lem :
      (bytes : List ℕ) (c : Capture)
      → put_some k bytes c ≡ (record c { file = c.file ++ bytes }, true)
  unfolding put_some
  put_some_lem [] c = rw (append-nil c.file) refl
  put_some_lem (b ∷ bytes) c =
      let some_bytes : (length (b ∷ bytes) != 0) ≡ true = ground arith in
      rw some_bytes (put_lem (b ∷ bytes) c)

  append_lem :
      (p : Packet) (file : List ℕ)
      → append_pcap_packet_data k p.rawtime p.header p.payload (opened file)
        ≡ opened (file ++ record_of k p)
  unfolding append_pcap_packet_data or_close
  append_lem p file =
      let first = k.packet_bytes (packet_header k p.rawtime (length p.header + length p.payload)) in
      rw
        (
          put_lem first (opened file),
          put_some_lem p.header (opened (file ++ first)),
          put_lem p.payload (opened ((file ++ first) ++ p.header)),
          append_assoc file first p.header,
          append_assoc file (first ++ p.header) p.payload,
          append_assoc first p.header p.payload,
        )
        refl

  append_all_lem :
      (ps : List Packet) (file : List ℕ)
      → append_all k ps (opened file) ≡ opened (file ++ records k ps)
  unfolding append_all
  append_all_lem [] file = rw (append-nil file) refl
  append_all_lem (p ∷ ps) file =
      rw
        (
          append_lem p file,
          append_all_lem ps (file ++ record_of k p),
          append_assoc file (record_of k p) (records k ps),
        )
        refl

  module _ (f : Format k) where
    abbrev pub Fits : Packet → Type 0
    Fits p = length p.header + length p.payload ≤ pcap_packet_max_size

    announced_size :
        (p : Packet)
        → Fits p
        → f.announced
            (k.packet_bytes (packet_header k p.rawtime (length p.header + length p.payload)))
          ≡ length (bytes_of p)
    unfolding packet_header
    announced_size p h = rw (f.announced_lem, length-append p.header p.payload) (ground arith)

    -- A header, and as many bytes behind it as it announces.
    read_first :
        (first bytes rest : List ℕ) (fuel : ℕ)
        → length first ≡ f.header_size
        → f.announced first ≡ length bytes
        → read_packets f (suc fuel) (first ++ (bytes ++ rest))
          ≡ Option.map (λ qs. bytes ∷ qs) (read_packets f fuel rest)
    unfolding read_packets
    read_first first bytes rest fuel size n =
        let file_size : length (first ++ (bytes ++ rest))
            ≡ f.header_size + (length bytes + length rest) =
          rw (length-append first (bytes ++ rest), length-append bytes rest, size) refl in
        let not_empty : (length (first ++ (bytes ++ rest)) == 0) ≡ false =
          ground (arith, file_size, f.header_size-pos) in
        let enough : ltb (length (first ++ (bytes ++ rest))) (f.header_size + length bytes)
            ≡ false =
          ground (arith, file_size) in
        rw
          (
            take-append f.header_size first (bytes ++ rest) size,
            drop-append_exact f.header_size first (bytes ++ rest) size,
            n,
            not_empty,
            enough,
            take-append (length bytes) bytes rest refl,
            drop-append_exact (length bytes) bytes rest refl,
          )
          refl

    read_records :
        (ps : List Packet)
        → All Fits ps
        → read_packets f (suc (length ps)) (records k ps) ≡ some (map bytes_of ps)
    unfolding read_packets
    read_records [] h = refl
    read_records (p ∷ ps) (fits, h) =
        let header = packet_header k p.rawtime (length p.header + length p.payload) in
        rw
          (
            append_assoc (k.packet_bytes header) (bytes_of p) (records k ps),
            read_first (k.packet_bytes header) (bytes_of p) (records k ps) (suc (length ps))
                (f.header_size_lem header) (announced_size p fits),
            read_records ps h,
          )
          refl

    -- The file header that opening writes.
    opened_lem :
        (name : String) (network : ℕ) (c : Capture)
        → k.fopen name ≡ true
        → (file : List ℕ) × (start k name network c ≡ (opened file, true))
          × (length file ≡ f.global_size)
    unfolding start
    opened_lem name network c h =
        let header : GlobalHeader = record {
          magic_number = k.magic;
          version_major = k.major;
          version_minor = k.minor;
          this_zone = 0;
          sig_figs = 0;
          snap_len = pcap_packet_max_size;
          network = network;
        } in
        (
          k.global_bytes header,
          rw (h, put_lem (k.global_bytes header) (opened [])) refl,
          f.global_size_lem header,
        )

    read_opened :
        (ps : List Packet) (start_of : Capture × Bool) (file : List ℕ)
        → start_of ≡ (opened file, true)
        → length file ≡ f.global_size
        → All Fits ps
        → (start_of.1 ≡ true)
          × (read_packets f (suc (length ps)) (drop f.global_size (append_all k ps start_of.0).file)
              ≡ some (map bytes_of ps))
    read_opened ps start_of file e size fits =
        rw
          (
            e,
            append_all_lem ps file,
            drop-append_exact f.global_size file (records k ps) size,
            read_records ps fits,
          )
          (refl, refl)

    -- A capture for MCTP or PCI DOE, opened and filled with packets of at most 2^16 bytes each while
    -- every write succeeds, is read back as those packets, byte for byte and in order: a reader that
    -- skips the file header takes each packet header and as many bytes as it announces.
    pub capture_read :
        (name : String) (transport : ℕ) (c : Capture) (ps : List Packet)
        → (transport ≡ 1) ⊎ (transport ≡ 2)
        → k.fopen name ≡ true
        → All Fits ps
        → let (c', ok) = open_pcap_packet_file k (some name) transport c in
          (ok ≡ true)
          × (read_packets f (suc (length ps)) (drop f.global_size (append_all k ps c').file)
              ≡ some (map bytes_of ps))
    unfolding open_pcap_packet_file
    capture_read name transport c ps (inl e) h fits =
        let (file, e', size) = opened_lem name k.linktype_mctp c h in
        rw e (read_opened ps (start k name k.linktype_mctp c) file e' size fits)
    capture_read name transport c ps (inr e) h fits =
        let (file, e', size) = opened_lem name k.linktype_pci_doe c h in
        rw e (read_opened ps (start k name k.linktype_pci_doe c) file e' size fits)

    -- A packet that is longer than its header announces: the reader takes its first bytes, and the
    -- others for what follows.
    read_cut :
        (first bytes rest : List ℕ) (n fuel : ℕ)
        → length first ≡ f.header_size
        → f.announced first ≡ n
        → n < length bytes
        → read_packets f (suc fuel) (first ++ (bytes ++ rest))
          ≡ Option.map (λ qs. take n bytes ∷ qs) (read_packets f fuel (drop n bytes ++ rest))
    read_cut first bytes rest n fuel size announces large =
        let whole : first ++ (take n bytes ++ (drop n bytes ++ rest)) ≡ first ++ (bytes ++ rest) =
          ap (λ xs. first ++ xs)
            (sym (append_assoc (take n bytes) (drop n bytes) rest)
              ∙ ap (λ xs. xs ++ rest) (take-drop n bytes)) in
        ap (read_packets f (suc fuel)) (sym whole)
        ∙ read_first first (take n bytes) (drop n bytes ++ rest) fuel size
            (omega (arith, announces, length-take n bytes))

    -- A packet of more than 2^16 bytes is written whole behind a header that announces 2^16 of them,
    -- as long as every write succeeds. A reader of the packets takes the first 2^16 bytes for the
    -- packet and reads on at the byte of the packet behind them, as if a packet header stood there;
    -- whatever packets follow, it never reads the packets that were written.
    pub capture_overrun :
        (p : Packet) (ps : List Packet) (file : List ℕ) (fuel : ℕ)
        → pcap_packet_max_size < length (bytes_of p)
        → let first =
            k.packet_bytes (packet_header k p.rawtime (length p.header + length p.payload)) in
          let cut = pcap_packet_max_size in
          let behind = drop (length file) (append_all k (p ∷ ps) (opened file)).file in
          (append_pcap_packet_data k p.rawtime p.header p.payload (opened file)
            ≡ opened (file ++ (first ++ bytes_of p)))
          × (f.announced first ≡ cut)
          × (read_packets f (suc fuel) behind
              ≡ Option.map
                  (λ qs. take cut (bytes_of p) ∷ qs)
                  (read_packets f fuel (drop cut (bytes_of p) ++ records k ps)))
          × (read_packets f (suc fuel) behind ≢ some (map bytes_of (p ∷ ps)))
    unfolding packet_header
    capture_overrun p ps file fuel large =
        let h = packet_header k p.rawtime (length p.header + length p.payload) in
        let cut : h.incl_len ≡ pcap_packet_max_size =
          ground (arith, length-append p.header p.payload) in
        let announces : f.announced (k.packet_bytes h) ≡ pcap_packet_max_size =
          f.announced_lem h ∙ cut in
        let bytes = bytes_of p in
        let layout : drop (length file) (append_all k (p ∷ ps) (opened file)).file
            ≡ k.packet_bytes h ++ (bytes ++ records k ps) =
          rw
            (
              append_all_lem (p ∷ ps) file,
              drop-append_exact (length file) file (records k (p ∷ ps)) refl,
              append_assoc (k.packet_bytes h) bytes (records k ps),
            )
            refl in
        let reads =
          ap (read_packets f (suc fuel)) layout
          ∙ read_cut (k.packet_bytes h) bytes (records k ps) pcap_packet_max_size fuel
              (f.header_size_lem h) announces large in
        let behind = read_packets f fuel (drop pcap_packet_max_size bytes ++ records k ps) in
        (
          append_lem p file,
          announces,
          reads,
          λ e.
              first_size-map bytes pcap_packet_max_size behind (map bytes_of ps) large
                (sym reads ∙ e),
        )
