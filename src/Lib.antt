-- ===== src/Lib.antt =====
-- A model of the COSEM/DLMS server library cosemlib: the byte array behind every packet, the two
-- encodings, the association, the services, the channels that packets arrive on, the HDLC link layer, and
-- the clock.
--
-- A packet arrives in an HDLC frame (hdlc/hdlc.c), which the transport decodes. Its payload stands in a
-- byte array (src/csm_array.c), a buffer with a read and a write index. The association
-- (src/csm_association.c) decodes a request AARQ from that array, decides whether it is granted, and
-- encodes the answer AARE to the same array. Both codecs read and write tags and lengths in BER
-- (src/csm_ber.c) and data in A-XDR (src/csm_axdr_codec.c). Each connection has a channel
-- (src/csm_channel.c), which points to its association; `csm_channel_execute` gives a packet to the
-- association, or, where it is open, to the services (src/csm_services.c), which decode a request of GET,
-- SET or ACTION, ask the application's database, and encode the response in the same array. At the high
-- level of security the client and the server prove to each other that they have the key: the passes 3 and
-- 4 of src/csm_channel.c check and give a tag of the challenge by the functions of src/csm_security.c. Dates
-- and times of the data come from the clock (share/util/clock.c).
--
-- Parts and files. Names of the model are those of the source without their prefix.
--   Base            Shared names. Base/Tests: comparisons. Base/Lists: lists of bytes. Base/Run: the
--                   monad of the C functions. Base/Words: words of 16 and 32 bits, and the big-endian
--                   functions of share/util/os_util.h. Base/Bits: statements over all bytes. Base/Int and
--                   Base/Xor: the type `int`, and the bound of an exclusive or.
--   Array           src/csm_array.c: the record `Array` is `csm_array`, and one function per operation.
--                   Array/Bounds: the invariant `IsValid`. Array/Steps: sequences of calls.
--                   Array/Append and Array/Consume: what writers add and readers take.
--                   Array/Limits: every branch of the writers, and the copy out of the array.
--   Ber             src/csm_ber.c. Ber/Length, Ber/Decode and Ber/Integer: lengths, headers, integers.
--   Axdr            src/csm_axdr_codec.c. Axdr/Strings: octet strings and sizes. Axdr/Tags: the
--                   end of the decoder's loop.
--   Association     src/csm_association.h: the state, and the session of a codec. In Association/:
--                   Decoders and UserInfo are the functions `acse_*_decoder`, Decode their chains and
--                   `csm_asso_decoder`; Encoders and Encode likewise; Server is `csm_asso_init`,
--                   `csm_asso_is_granted` and `csm_asso_server_execute`. Keeps is about the functions
--                   that keep the state; States, Security, Faults and Conformance are proofs.
--   Channel         src/csm_channel.c: the table of channels. Channel/Execute: `csm_channel_execute`, over
--                   the association's server and the services. Channel/Ids and Channel/Sharing: the ids,
--                   and associations that channels share. Channel/Closed and Channel/Routing: what a
--                   packet does to the associations, and what reaches the services. Channel/Hls:
--                   `csm_channel_hls_pass3` and `csm_channel_hls_pass4`, with their proofs in Hls/Check
--                   and Hls/Answer, and in Hls/Mutual one against the other.
--   Services        src/csm_services.c, and the requests of src/csm_definitions.h. In Services/: Coding is
--                   the request, encoded and decoded; Server the `svc_*_request_decoder` functions and
--                   `csm_server_services_execute`; Client the decoders of responses. Takes is what a decoder
--                   takes from the array; RoundTrip and Delivery, Replies and Decoded are about requests
--                   and responses from one side to the other; Layout about the bytes of a response to an
--                   ACTION; Stable, Answers and Liveness about the server's arrays; Wire is the bytes of a
--                   request of any type, and Serving what the server answers to it.
--   Security        src/csm_security.c: the protection of a packet, over the GCM functions of the application.
--                   Security/Cipher: the run of the cipher. Security/Tag and Security/Seal: packets
--                   that are only authenticated, received and sent. Security/Untagged: all others.
--   Clock           share/util/clock.c. Clock/Cosem: dates in bytes. Clock/Saving: daylight saving time and
--                   the status. Clock/Span: `add_time`. Clock/Calendar, Inverse, Order, Epoch, Recoding and Loops are proofs.
--   Hdlc            hdlc/hdlc.h: the state of a link. In Hdlc/: Fcs the check sequences, Address the
--                   addresses, Control the control field, Info the negotiation, Encode and Decode the
--                   frames; Framing is about the frames that are accepted. Frame is a frame as one list
--                   of bytes, Stores and Written are about the encoder, Reading, Addressed and RoundTrip
--                   about the decoder on such a frame, and Delivery and Long about both.
--   The Tests modules of the components evaluate the theorems at concrete inputs.
--
-- How C is modelled. A function is a state transformer whose run either returns or is a fault: an access
-- outside the memory of an object, or a failed assertion, is a fault. A buffer is the list of the bytes of
-- its object, so a copy that overruns it is seen. Words keep the wrap-around of their width, written as a
-- remainder; `long` has 32 bits. A pointer that the source fills on some paths only is an option. The results TRUE and FALSE are
-- Booleans, and HDLC codes a data type. The application's functions `csm_hal_get_random_u8`,
-- `csm_hal_get_lls_password` and `csm_sys_get_system_title` are the fields of the parameter `Hal`, and the
-- value of an uninitialised variable is its field `junk`, which no theorem restricts. The state of the callback
-- of `csm_axdr_decode_tags` is the list of its calls. The application's database and its decoder of selective
-- access are the parameters `App` of the services: functions on the request and the arrays that they are
-- given. The database is called in two ways, with its input as the output (`in_place`), and with another
-- view of the input's buffer as the output (`apart`).
--
-- Fuel. The loop of `hdlc_decode_info_field` has no bound in the source: the model runs it on a number of
-- rounds and says whether it is still running. A negotiation in the order of the encoder takes four rounds.
-- The loop of `csm_axdr_decode_tags` runs on fuel too; each round reads a byte, so one round more than there
-- are unread bytes is enough. The loop of `scalar_to_ymd` runs for three rounds at most, and those of
-- `clk_is_dst` for seven, in the years 1 to 14699. All other loops are recursion on the list or the count
-- that bounds them in the source.
--
-- Not modelled: output (`csm_array_dump`, `hdlc_print_result`, `hdlc_packet_to_string`, log messages), but
-- for the table that `csm_ber_dump` looks names up in; the bit field (share/util/bitfield.c) and
-- share/util/os_util.c, copies of files of hostapd that the library does not call; the transports
-- (share/ip, share/serial), which are I/O; the cryptography (share/crypto), a copy of another library.
pub mod Base
pub mod Array
pub mod Ber
pub mod Hdlc
pub mod Axdr
pub mod Association
pub mod Channel
pub mod Services
pub mod Security
pub mod Clock
