-- ===== src/Lib.antt =====
-- Verification of the swan IKEv2/ESP initiator: its wire format, its ESP data path, its
-- EAP packets and methods, the exchanges of its control plane and its event hub.
--
-- The program: `wire` holds the IKE header, the chain of payloads and the packet builder, and
-- `wire/payload` the payload bodies; `esp` seals outbound packets into ESP datagrams and opens
-- inbound ones behind an anti-replay window, with a keyed cipher of `xcrypto`; `control` runs the
-- exchanges that make the SAs, over `transport`; `eap` authenticates inside them.
--
-- How code is modelled: a Go function is a function into `Outcome`, which returns a value, an error
-- of the component's error type, or a panic (Common/Outcome). A slice is a list of numbers, one per
-- byte; an index or a slice out of its length panics, where Go would allow its capacity, so an
-- absence of panics holds for every capacity. Machine integers are natural numbers with the
-- wrap-around written out; `int` has 64 bits. A method that changes its receiver returns the new
-- state. Errors keep the values they print, not the text.
--
-- Wire.Be (wire/be.go; wire/payload/be.go repeats it), Wire.Consts, Wire.Header, Wire.Message and
-- Wire.Builder model the files of these names. The loop of `ParsePayloads` runs on fuel of one more
-- than the bytes in hand, and a payload takes four bytes at least; that the fuel runs out is
-- written as a panic, so that the absence of panics shows that it never does. The loops of
-- `ParseSA`, `ParseConfigPayload` and `ParseDelete` are bounded in the same way.
--
-- Payload.Simple (nonce, ke, auth, cert, id), Payload.Notify (notify, delete), Payload.Proposal (sa,
-- transform), Payload.TrafficSelector (ts) and Payload.Config (cp) model the files of wire/payload;
-- Payload.Ip is what they use of Go's `net.IP`.
--
-- Esp.Replay is esp/replay.go, Esp.Inbound esp/inflow.go and Esp.Outbound esp/outflow.go. Esp.Suite
-- holds the descriptors of xcrypto and the interface of the keyed states (`Crypto`, `Pair`,
-- `IntegrityPair`): a cipher is a parameter of the workers, and the laws state what a pair of keyed
-- states with one key does. Esp.Link puts a sender and a receiver back to back. The buffer pools
-- reuse memory and are left out; the random IV is an argument.
--
-- Transport.Frame is `Classify` of transport/frame.go; Transport.Routing joins it to the ESP workers.
-- Eap.Packet is the packet codec of eap/eap.go;
-- Eap.Fragment is eap/peap/fragment.go with the request format of eap/peap/peap.go, and
-- Eap.Fragment.Relay puts a fragmenter and a reassembler back to back, on fuel of one more than the
-- bytes of the message.
--
-- Control.Collision is control/collision.go. Control.Exchange is control/exchange.go: the message
-- ids, the checks on a response, and the loop of `waitResponse` as a run over the events it selects
-- on. The fields of the handshake that no exchange touches are left out, durations are numbers with
-- no limit, and so is the count of retries, which the code keeps below a limit of eight bits.
--
-- Control.Protected, Control.Reassembly and Control.Opening are control/protected.go: sealing a message
-- in one or more packets, the set of fragments, and opening a packet. The cipher and the authenticator
-- are the parameter `IkeCrypto`, with the laws of `Keyed`; the clock and the random IVs are arguments.
-- The walk to the encrypted payload has fuel of one more than the bytes. Eap.Avp is eap/peap/avp.go.
-- The modules under Eap.Mschapv2 are the package eap/mschapv2: Md4 is md4.go, DesKey the key expansion with its
-- loop on fuel of eight, Runes what the package uses of Go's text functions, Text the messages, Derive
-- the derivations, and Machine the state machine. SHA-1 and DES are the parameter `MschapCrypto`.
-- Control.Running is the part of control/running.go that answers the peer's INFORMATIONAL requests, behind their
-- decryption, with the configuration of Control.Assigned (control/config_apply.go, and the decoding in
-- control/child_sa.go). CREATE_CHILD_SA requests, timers and retained old SAs are not modelled.
--
-- Events.Event holds the types and Events.Hub the hub of events/hub.go: each operation of an emitter, a
-- reader or the worker is one step of `HubStep`, and `Reached` is any sequence of them.
--
-- Not modelled: the timing of goroutines, and sockets; the text of errors and logs; the cryptographic
-- library itself.
pub mod Common
pub mod Wire
pub mod Payload
pub mod Esp
pub mod Transport
pub mod Eap
pub mod Control
pub mod Events
