-- ===== src/Lib.antt =====
-- xl2tpd, an L2TP daemon: its protocol core, modelled from the C sources.
--
-- Parts. `network.c` reads datagrams and finds the tunnel and call; `control.c` checks a control
-- message, hands its attribute-value pairs to `avp.c`, and runs the state machine; `avpsend.c` writes the
-- pairs of an answer, and `scheduler.c` keeps the timers that resend it. A data packet goes from
-- `control.c` to a pty, where pppd is, and `call.c` reads the pty and sends what it says. `aaa.c`
-- has the addresses for the peers, the rules who may connect, and the challenges by which both ends
-- prove who they are.
--
-- Files.
--   Base: shared names; lists with native indices, the tests of C, fixed-width integers.
--   Message: the constants of control.h, avp.h, l2tp.h and aaa.h.
--   Session: `struct tunnel` (l2tp.h), `struct call` (call.h), `struct challenge` (aaa.h) and
--     `new_call`, `set_error`, `wrong_length`, `safe_copy`.
--   Avp: avp.c. Raw has what a handler is given and returns, MessageType `message_type_avp`,
--     TunnelAvps and CallAvps the other handlers, Hidden `decrypt_avp` of aaa.c, Loop the table
--     `avps` and `handle_avps`; Safe has what no packet breaks, Link what no packet changes.
--   World: a tunnel with all that control_finish touches beside it: `struct lns` and `struct lac`
--     (file.h), the table of addresses, the other tunnels, the random bytes, and the events that go
--     out: packets, timers, processes, freed memory. The steps that every branch shares stand here.
--   Secret and Challenge: aaa.c. `get_secret`, and `handle_challenge` with `mk_challenge`. Clean and
--     Lines of Secret are about a file whose lines are as they should be.
--   Close: `call_close` and `destroy_call` (call.c), `destroy_tunnel` (xl2tpd.c).
--   Control: control.c. The header, `check_control`, `handle_control` and `handle_special`; Serial
--     has the order of sequence numbers, Check what is answered at once, Stream what becomes of
--     many. `handle_control` takes the processing of a message as an argument here, and
--     `receive_control` is the part of `network_thread` (network.c) around it.
--   Finish: `control_finish` (control.c), the state machine. Tunnel, Request and Reply have the
--     branches that bring up a tunnel and StopCCN, Incoming, Calls and Dial those about calls, with
--     `get_local_addr`, and `lac_call` and `magic_lac_dial` of xl2tpd.c, Pppd the options of pppd.
--     Core and CallsCore are about what all branches leave as it is, Connected about the state,
--     Moves, MovesRequest and Diagram about the diagram, Proof, Guard, GuardRequest and Posed about
--     challenges, Slips about a CDN that ends a tunnel. Sample has a configuration.
--   Daemon: the whole way of a control packet, from `network_thread` to `control_finish`, and a run
--     of packets. Order is about their numbers, Login about who gets in, Refused about what a
--     message does that should not be admitted.
--   Network: network.c. `control_xmit`, `fix_hdr`, `extract`, with `swaps` (misc.c).
--   Send: avpsend.c. Encode has an AVP as a value, Walk what `handle_avps` makes of a list of
--     them, Closing the messages of `call_close` (call.c), Written their bytes, Receive
--     what the peer's handlers make of each AVP, and Deliver their whole way.
--   Tunnels: the list `tunnels`, `get_call` and `get_tunnel` (call.c), `new_tunnel` (xl2tpd.c).
--   Fcs and Frame: PPP on the pty. `add_fcs` and `write_packet` (control.c), `read_packet` (call.c).
--     Write has what is written, Read that the pieces of a read do not matter, RoundTrip both.
--   Payload: `add_payload_hdr` (call.c), `check_payload`, `expand_payload` and the data part of
--     `handle_packet` (control.c). Order is about sequence numbers, Offset about the offset.
--   Address: aaa.c. Set has the table of the addresses in use, Choice `get_addr` and `get_lns`.
--   Sample: states that the tests of all parts use.
--   File: file.c. Text has the C strings, Entries what an entry holds at first, Options, Numbers and
--     Hosts the handlers of the table `words`, Keywords the table, Settings and Parse `parse_config`, Start
--     `init_config`. Sound follows what an entry keeps, from the handlers (Fields, Values, Ranges,
--     Words) over the lists (Lists) to the whole file (Whole); Case is about capital letters; Layout,
--     Lines, Heading, Assignment, Reading and Written are about the text of a file.
--   Console: the control pipe. Line has `parse_one_line` of xl2tpd.c, State what commands change,
--     Handlers, Calls and Removal the handlers, Messages `do_control`, Client the commands that
--     xl2tpd-control.c writes. Tokens, Options and Received follow a command from there to the new
--     LAC; Sound, Keeps, KeepsRemoval and Whole what every command keeps of the LACs; Faults has two
--     commands that do harm. What a command asks of the other parts is recorded and not done.
--   Timer: scheduler.c. `process_schedule` takes the clock and the called functions as arguments.
--
-- Conventions. A function that changes `*t` or `*c` returns the new state. A read through NULL or
-- past the receive buffer is the reply `fault`; in File it is `overrun` or `astray`, in Console
-- `crashed`. The bytes of a packet from a position to the end
-- of the receive buffer are a list, so the byte swaps that the code makes in place are reads of
-- words in network order. Log output is left out, but for what it reads of the table of
-- message names and of `t->lns`, which can fault: `debug` is on from `new_tunnel` on, and the
-- options `debug_avp` and `debug_state` of the configuration are off. The build defines SANITY, and
-- neither STRICT nor TEST_HIDDEN. `do_control` is given with each read what its buffer held before,
-- which may be any bytes, since the handlers write NULs into it.
--
-- Fuel. `avp_loop` takes a round for each AVP, which has at least one byte, so one more than the
-- bytes of the packet is enough. `course` calls `control_xmit` once for each sending and once
-- more. `scan` takes a round for each address of a range, and one more. `run_due` takes a round
-- for each event that is due, and one more.
--
-- `get_addr` has `Config.fuel` inside `control_finish`, whose want of fuel is the result `fault`;
-- Address has how much is enough. `line_loop` takes a round for each option, and one more; on an
-- empty option no fuel is enough. `process` gives `handle_avps` one more than the packet's bytes.
--
-- Not modelled: the asynchronous branch of `write_packet`, which no call reaches; `hello` and
-- `send_zlb`; several tunnels at once where packets are processed, so that a packet comes to Daemon
-- with the call that `get_call` has found; what `start_pppd` and `magic_lac_tunnel` do, which are
-- events; the descriptors of a call and of a tunnel, and `lns->t`, which nothing reads; the sweep
-- of `network_thread` over closing calls, but for `call_close`; `main` and the signals (xl2tpd.c),
-- `l2tp_call`, `lac_hangup`, `lac_disconnect` and what the listings say of tunnels and calls; the
-- client's own part (xl2tpd-control.c); ptys and pppd, sockets, logging. A name is looked up by any
-- function from strings to addresses (`gethostbyname`); the memory of an entry of the configuration
-- is taken to be there. md5.c is a library of its own and enters as any function from bytes to
-- bytes. `new_outgoing` is taken to have its memory.
pub mod Base
pub mod Message
pub mod Session
pub mod Sample
pub mod Timer
pub mod World
pub mod Secret
pub mod File
pub mod Console
pub mod Challenge
pub mod Close
pub mod Finish
pub mod Daemon
pub mod Tunnels
pub mod Avp
pub mod Control
pub mod Network
pub mod Send
pub mod Fcs
pub mod Frame
pub mod Payload
pub mod Address
