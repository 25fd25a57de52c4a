-- ===== src/Lib.antt =====
-- A model of the device-security protocols of spdm-emu, the SPDM emulator.
--
-- The emulator is two programs, spdm_emu/spdm_requester_emu and spdm_emu/spdm_responder_emu, which
-- talk over a socket, and a set of libraries under library/ that carry the protocols above SPDM: PCIe
-- TDISP, CXL TSP, PCIe and CXL IDE key management, and the DOE, MCTP and PLDM envelopes. A protocol
-- has a requester library, a responder library and a sample device library. The responder library
-- looks up a handler for the message in a table; a handler checks the request, calls one operation
-- of the device library, which keeps its state in one global context, and writes a response or an
-- error response. Over DOE, the responder finds the library for a message in a table in which it has
-- registered them. The SPDM library itself, libspdm, is no part of the repository.
--
-- Files and code:
--   Prelude          tests on numbers, the conditional, byte arrays, and the outcome of a handler
--                    (`Reply`: an assertion failed, an error status, or a response with its size)
--   Tdisp.Messages   the messages of TDISP
--   Tdisp.Device     library/pci_tdisp_device_lib_sample: `Interface` is libtdisp_interface_context,
--                    with one function for each pci_tdisp_device_* operation
--   Tdisp.Responder  library/pci_tdisp_responder_lib: a function for each
--                    pci_tdisp_get_response_* handler, and pci_tdisp_get_response over its table;
--                    Cases is the case rule of the dispatch, Replies is about all answers
--   Tdisp.Requester  the loop of
--                    library/pci_tdisp_requester_lib/pci_tdisp_req_get_interface_report.c
--   Tdisp.Trace      histories of requests; Machine, Nonce, Handshake, Valid, Admission and Portion
--                    are about the responder, Reassembly and Stall about the requester's loop
--   Tdisp.Calls      the other requests of library/pci_tdisp_requester_lib; Session is about a
--                    session with the responder
--   Tsp.Messages     the messages of TSP
--   Tsp.Device       library/cxl_tsp_device_lib_sample: `Context` is libcxltsp_device_context with
--                    the table of pre-shared keys that set_configuration fills
--   Tsp.Validate     cxl_tsp_validate_configruation of
--                    library/cxl_tsp_responder_lib/cxl_tsp_rsp_set_configuration.c
--   Tsp.Responder    library/cxl_tsp_responder_lib: a function for each cxl_tsp_get_response_*
--                    handler, and cxl_tsp_get_response over its table
--   Tsp.Checks, Tsp.Calls
--                    library/cxl_tsp_requester_lib: the two validations of what a response brings, and
--                    the six requests; Agreement compares the validations of both sides, Exchange and
--                    Session have the requester talk to the responder
--   Tsp.Report       the loop of cxl_tsp_requester_lib/cxl_tsp_req_get_configuration_report.c; Ends is
--                    about any peer, Fetched about the responder
--   Tsp.Trace        histories of requests; Control, Configured, Replies, Portion and Sessions are
--                    about the responder, Entries and Acceptance about the validation
--   Doe.Vendor       library/pci_doe_responder_lib/pci_doe_spdm_vendor_dispatch.c: the table of vendor
--                    handlers, the registration and the dispatch; Dispatch, Registered and
--                    Unanswered are about it
--   Doe.Init         spdm_emu/spdm_responder_emu/spdm_responder_pci_doe.c: the four registrations
--   Doe.Discovery    pci_doe_discovery of
--                    library/pci_doe_requester_lib/pci_doe_req_discovery.c, and the response of
--                    library/pci_doe_responder_lib/pci_doe_dispatch.c; Ends and Found are about them
--   Doe.Exchange     library/pci_doe_requester_lib/pci_doe_spdm_vendor_send_receive.c and the
--                    *_send_receive_data functions of the requester libraries; Stored is about the
--                    memory of the caller
--   PciIde.Messages  the messages of IDE key management
--   PciIde.Device    library/pci_ide_km_device_lib_sample: `Port` is libidekm_device_port_context
--   PciIde.Responder library/pci_ide_km_responder_lib: the four handlers and the dispatch
--   PciIde.Requester library/pci_ide_km_requester_lib: the four requests
--   PciIde.Keys      the keys of a port over histories of requests; PciIde.Exchange has the requester
--                    talk to the responder
--   CxlIde           library/cxl_ide_km_device_lib_sample (Device), cxl_ide_km_responder_lib
--                    (Responder) and cxl_ide_km_requester_lib (Requester); Exchange has the requester
--                    talk to the responder
--   Mctp             library/mctp_responder_lib (Responder) and library/mctp_requester_lib (Requester);
--                    Exchange has the requester talk to the responder
--   Emu.Socket, Emu.Io  the socket, and steps over it that end by a value or fail
--   Emu.Command      spdm_emu/spdm_emu_common/command.c: the functions that read and write numbers,
--                    payloads and messages; Wire is the format, Reading, Writing, Limits and Exchange
--                    are about them
--   Emu.Buffer       the message buffer of command.c
--   Emu.NvStorage    spdm_emu/spdm_emu_common/nv_storage.c: saving and loading a negotiated
--                    connection; Steps is spdm_provision_psk_version_only, Runs and Provision are about
--                    it, Calls and Restored about what is loaded
--   Emu.Args         process_args of spdm_emu/spdm_emu_common/spdm_emu.c: Names has the two lookups,
--                    Tables the tables of names, Globals what the options set, Branches and Options
--                    the branches of the loop, Process the loop; Runs and Flags are about it
--   Emu.Pcap         spdm_emu/spdm_emu_common/pcap.c: the capture file; Read is about reading it back
--   The modules named Tests hold examples at concrete devices.
--
-- The state: a handler takes the context and returns the new one with its reply. What a device asks
-- of its surroundings (random numbers, the state of the function, the kind of the session) comes
-- with each request as `Surroundings`, so that a history may answer differently each time. A
-- request buffer is the record of the fields that the handlers read through their own structures.
--
-- What the repository does not declare is a parameter: the numbers and the structure sizes of
-- industry_standard/pci_tdisp.h and industry_standard/cxl_tsp.h are the fields of `Tdisp` and
-- `Tsp`, those of the SPDM vendor messages the fields of `Spdm` and `Protocols`, those of DOE
-- discovery and of IDE key management the fields of `Doe`, `IdeKm` and `CxlIdeKm`, and what the
-- theorems need of them (distinct codes and states, for example) are the fields of `TdispLaws`,
-- `TspLaws`, `SpdmLaws`, `DoeLaws`, `IdeKmLaws` and `CxlIdeKmLaws`. The sizes that the requester of
-- TSP needs besides are the fields of `TspRequests`, the headers and numbers of MCTP and PLDM those
-- of `Pldm` with `PldmLaws`, and those of a capture file, with fopen and fwrite, those of `Pcap`
-- with `Format`. The calls of a socket and the order of bytes in memory are the fields of `Socket`
-- and `Host`, with what they document in `SocketLaws`, `HostLaws` and `Delivers`; the context and
-- the files of libspdm are the fields of `Libspdm`, with `LibspdmLaws`. For the command line, the
-- numbers of the macros, malloc and the reading of a decimal number are the fields of
-- `Emu.Args.Globals.Host`. What a requester sends through is an argument, and the predicates
-- `Serves` and `Answers` say that it brings requests to the responder and responses back.
-- libspdm_copy_mem and libspdm_zero_mem have their documented effect. LIBSPDM_ASSERT is modelled as
-- an outcome of its own, `asserted`.
--
-- Numbers are natural numbers; a sum that the code computes in 32 bits is reduced modulo 2^32 where
-- it may wrap. The loop of the requester runs on fuel, one unit for each request that it sends;
-- against the responder one unit for each 64 bytes of the report is enough, since each portion but
-- the last carries as many. The loop of the TSP requester runs on one unit for each byte of the
-- buffer and one more, which is enough for any peer whose portions are not empty; the responder
-- sends its report in one portion. The loop over the command line runs on one unit for each
-- argument and one more. The loops over a socket run on one unit for each byte, since each call
-- that does not fail moves one byte at least. The discovery runs on one unit for each protocol that
-- the caller has room for and one more, since it asks for the next index only.
--
-- Not modelled: the loader of a TDISP report from a JSON file (its result is an argument); of
-- spdm_emu/spdm_emu_common the usage text, the dump of the supported algorithms and the set-up of
-- the sockets in spdm_emu.c, and key.c and support.c, which read files and print bytes;
-- library/spdm_transport_none_lib; the main programs of the emulator with their sequences of
-- libspdm calls and their socket loops; the attestation samples and the verifier scripts; and the
-- sample device under spdm-device-sample/ with its copies of the device libraries.
mod Prelude
pub mod Tdisp
pub mod Tsp
pub mod Doe
pub mod Emu
pub mod PciIde
pub mod CxlIde
pub mod Mctp
