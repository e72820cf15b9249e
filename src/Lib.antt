-- ===== src/Lib.antt =====
-- A model of a LoRaWAN frame library (Go): how frames, MAC commands and join messages are written as
-- bytes and read back, how they are signed, and how they are encrypted.
--
-- The program's parts, from the inside out:
--   Ident      EUI64 (payload.go), NetID (netid.go), DevAddr (fhdr.go), AES128Key (phypayload.go) as byte
--              lists, DevNonce and JoinNonce (payload.go) as numbers; binary, hexadecimal and database forms.
--   DevAddr    the address prefix: NetIDType, NwkID, SetAddrPrefix, IsNetID (fhdr.go), Type and ID (netid.go).
--   Mac        mac_commands.go. One module for each family of payloads: Link (LinkCheck, LinkADR), Settings
--              (duty cycle, receive windows, transmit parameters), Status (DevStatus, DeviceTime), Channel
--              (NewChannel, DLChannel), ClassB (ping slots, beacon), Session (Reset, Rekey, ADRParam, rejoin,
--              device mode). Payload is the interface behind which they stand, Registry the table of sizes,
--              and Command one command and the loop over a sequence of them.
--   Join       payload.go: JoinRequestPayload and the two rejoin requests, with Join/CfList and Join/Accept.
--   Frame      Element (DataPayload and the other values of the Payload interface), Control (FCtrl) and
--              Header (FHDR) of fhdr.go, Body (MACPayload) of macpayload.go.
--   Phy        phypayload.go. Packet (MHDR, PHYPayload and its bytes), Mic (the integrity codes), Keystream
--              (the functions EncryptFRMPayload and EncryptFOpts), Methods (the methods that encrypt, decrypt
--              and decode the FOpts and the FRMPayload), JoinAccept (the encryption of a join-accept).
--              Primitives holds AES and CMAC, which are not in the repository, as records of operations, with
--              what their packages document as the records IsAes and IsCmac.
--   Band       band/. Channel (the channels of a band and the calls that change them), Lookup (data rates,
--              payload sizes and channels by frequency), LinkAdr (the LinkADRReq payloads for a device and
--              their application), Us915 (the methods of band_us902_928.go and band_au915_928.go that
--              replace those), CfList (the CFList of a band), Regions (one module for each band_*.go, with
--              the tables of its constructor and its methods), As923 (the method of band_as923.go that
--              replaces one of band.go), Region (GetConfig and the dispatch on the region).
--   Applayer   applayer/. Command is the code that clocksync, fragmentation and multicastsetup share, over a
--              codec of payloads; ClockSync, Fragmentation and MulticastSetup are the packages, the last
--              with Group, Session and Keys (keys.go). Fragmentation.Encode is encode.go. GroupMask is the
--              mask of four groups in a byte.
--   Examples   concrete values.
--
-- How the state and the operations correspond to the code. MarshalBinary of a type T is marshal_t and
-- UnmarshalBinary is unmarshal_t, functions into Result, whose errors carry the shape of the message.
-- Where UnmarshalBinary leaves fields of its receiver as they are (ChMask, LinkADRAns, TXParamSetupReq, a
-- join-accept without a CFList, channels, FHDR, MACPayload) the receiver is an argument. Bytes are natural
-- numbers with IsByte as a predicate, and a fixed array of n bytes is a list with IsArray n. Shifts and
-- sums of words have their modulus written out; masks are the native bitwise operations. A method of
-- PHYPayload that changes its receiver returns the receiver with the error, since some change it before
-- they fail. The global registry is an argument; its mutex makes each access one step. Sizes in the
-- registry are natural numbers: a negative size, which the code does not refuse, is not modelled.
-- UnmarshalBinary of a PHYPayload gives no receiver with an error, where the code leaves one that is partly
-- changed; the receiver of Commands in applayer is taken as empty, where the code appends to what it holds.
--
-- Loops are structural recursion on the bytes, on the list, or on the number of blocks, so that no fuel
-- is needed, with one exception: the search of an index in the fragmentation encoder is on fuel, of which
-- 65 steps are enough for a line of 3 to 65536 coefficients, since the state is an int of 63 bits that each
-- failure after the first halves. Shorter and longer lines are modelled with the same fuel. The decoding
-- loop carries the number of bytes still to pass, as the index of the code does.
--
-- A band is a record that its methods return changed. A region's own methods stand beside it, and Region
-- chooses between them and those of band.go, as the embedding of the struct does. Maps are association
-- lists; the order in which Go walks a map has no effect on what is modelled, with the exception that
-- GetDataRateIndex returns some index where two data rates are equal, and here the first. Channel numbers
-- and indices are natural numbers, so that the refusal of a negative one is not modelled. Frequencies are
-- in Hz, durations in nanoseconds, an EIRP in hundredths of a dBm for the float of the code.
--
-- Not modelled: the packages backend, airtime, gps and sensitivity, eirp.go, the JSON and base64 forms of
-- phypayload.go, the text forms of constants, and the generated names of constants: input and output,
-- floating point, generated code, or, as the join server and the GPS time, not there yet.
pub mod Prelude
pub mod Ident
pub mod DevAddr
pub mod Join
pub mod Mac
pub mod Frame
pub mod Phy
pub mod Applayer
pub mod Band
pub mod Examples
