-- ===== src/Lib.antt =====
-- Wildbloom: a verification library beside the web application's TypeScript sources.
--
-- The program sends a file from a phone's page to a computer over a WebRTC data channel
-- (wildbloom-direct/1), keeps encrypted envelopes on storage servers, and shows pages that are driven by
-- pure reducers. What is modelled here is the transfer of an envelope between the two ends, the state of
-- the pages, and the coding of a payload into parts for several storage servers.
--
-- Direct.Frames is src/direct/frames.ts: `encode_data`, `encode_ack`, `encode_end`, `encode_kept` and
-- `encode_stop` are encodeData to encodeStop, `decode_frame` is decodeFrame, and a thrown RangeError or
-- FrameError is an `err`. A Uint8Array is a list of bytes.
--
-- Direct.Sender and Direct.Receiver are sendEnvelope and receiveEnvelope of src/direct/transfer.ts. The
-- local variables of each function are the fields of a record, and what can happen to it is an event: a
-- message, the channel's end, the abort signal, the sink's answers, and each turn of the sender's loop.
-- `run` takes a list of events, so that a statement about every list of events is one about every order in
-- which callbacks and promises can come. The encoder is the list of records that it has yet to give, with
-- the digest and the size; the sink is the log of the calls that were made to it, and its answers are
-- events; the pacing rule's verdict and the channel's bufferedAmount come with a turn. Direct.Transfer has
-- what both use, and Direct.Config the limits of src/direct/config.ts. Direct.Delivery puts
-- the two together: the messages of the one, in order, are what the other is given.
--
-- Direct.Pacing is protocolPacing of src/direct/transfer.ts, and stricter, createRatePacer and
-- createPathPacing of src/direct/pacing.ts. Tokens are counted in thousandths of a byte and times
-- in whole milliseconds, so that the bucket's fractions are exact.
--
-- SendPage is reduce of src/send/state.ts and screenText of src/send/screens.ts; a text is which
-- entry of COPY.screens is shown (src/send/copy.ts).
--
-- GetPage is reduce of src/get/state.ts, GetPage.Reply is createDownloadedReply of
-- src/get/reply.ts, whose channel is the list of the calls made on it, and GetPage.Failure is
-- the two classifications of src/get/failure.ts.
--
-- Direct.Session is src/direct/session.ts: Session.Failures is exchangeFailure,
-- failureForPeerStop, failureForTransfer and the stop that each session's `end` sends;
-- Session.Link is class Link, where the promise chain is a queue and the settling of a send is
-- an event; Session.Watch is watchConnection, where a timer is its variable and its firing is
-- an event, and what the callbacks are told is a list, the newest first.
--
-- SendPage.Failures is SCREEN_FOR_FAILURE and showFailure of src/send/main.ts, which join the session
-- to the page's state.
--
-- Direct.Sink is createMemorySink of src/direct/sink.ts, for any opening of envelopes and any hash,
-- which are parameters; its `end` is an event before the opening and one behind it. Direct.Kept
-- puts the receiver and the memory sink together: each call that the receiver makes is carried out by the
-- sink, and what the receiver goes on from is how that call settled.
--
-- Direct.Messages is src/direct/messages.ts: the types, and in its children canonicalJson (Json), the forms
-- of texts (Syntax), the readers (Check, Invite, Decode: decodeMessage) and encodeMessage (Encode);
-- Grammar says which texts JSON has for a value, without white space, apart from canonicalJson. A
-- string is a list of UTF-16 code units, and a value is what JSON.parse gives. What JavaScript does with
-- UTF-8, with JSON texts, with letter case and NFC is a parameter, the record Platform. Core.Names is
-- sanitiseFileName of src/core/security.ts, which the reader of manifests calls.
--
-- Direct.Session.Sending and Direct.Session.SenderEnd are class SenderSession of src/direct/session.ts: the
-- first its state and the ways out of it, the second what each method does. What an await gives is an
-- event, and so are the states of the peer, the timers, the turns of the link and the calls of `stop` and
-- `close`; a method's place is the record's `phase`, and that of answerRestarts is its `loop`.
-- Direct.Session.Receiving and Direct.Session.ReceiverEnd are class ReceiverSession in the same way, with
-- the head of restartChain as the record's `turn` and the calls behind it as a number.
--
-- Direct.Path is watchPath of src/direct/pacing.ts: each call of refresh is a record with its `mine` and its
-- `attempts`, and a reading or a timer of it is an event; the two limits of its options are parameters.
--
-- Core.Galois is the first part of src/core/erasure.ts: the loops that fill EXP and LOG, and `mul` and
-- `inverse` that read them; MUL is the value that its loops write. Its children show what the tables
-- hold, by evaluating every entry once, and that the bytes are a field (Core.Field). Core.Erasure is the rest of
-- the file over any such field: codingBounds, invert with its rounds, generator and combine, and in its child
-- Parts encodeParts and decodeParts with their stripes; the other children are proofs. A thrown Error is an
-- `err`, a Blob the list of its bytes, which can always be read, and the signal says what each look of the
-- call finds. The loop over the stripes has one round more of fuel than the part has bytes, which is enough
-- since no stripe is empty.
--
-- Prelude has the names that the files share: Boolean tests on numbers, and lists and integers over
-- the native numbers. Only the loop over the stripes of a part runs on fuel: every other function is by
-- recursion on a list, on a count or on a value of JSON.
--
-- Not modelled: the progress callbacks and hooks of a session, the pacing of a session by its path (487-498 of
-- src/direct/session.ts; the path itself is Direct.Path), a throw of an open channel's `send`, which trySend
-- swallows, the rendering of the pages, the peer
-- connection and its channel (src/direct/peer.ts, the browser's), the cryptography of the envelope
-- (src/core/crypto.ts), the checks of a pool's manifest (src/core/pool.ts), the endpoint rules
-- (the rest of src/core/security.ts), and the clients, the checkout and the proofs of the storage services
-- (the rest of src/core).
-- Numbers are natural numbers: what a JavaScript number does beyond 2^53 - 1 is guarded in the code
-- by Number.isSafeInteger, and written out where it is.
pub mod Prelude
pub mod Direct
pub mod SendPage
pub mod GetPage
pub mod Core
