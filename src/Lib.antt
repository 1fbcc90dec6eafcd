-- ===== src/Lib.antt =====
-- The QUIC stack library: an HTTP/3 server over quiche, for use inside another program's event loop.
--
-- The embedding program makes one `tQuicStack` (src/tQuicStack.cc), which owns a dispatcher
-- (src/tQuicDispatcher.cc), the list of server identities, and a queue of alarms. Packets go to the
-- dispatcher, which hands them to quiche; quiche makes one `tQuicServerStream`
-- (src/tQuicServerStream.cc) for each request. A stream turns the request's headers into an HTTP/1.1
-- head, keeps the request's body in a buffer, and calls the program's callbacks for the head, the
-- body and the close; the program reads the body from the buffer and writes a response, which
-- the stream gathers and sends when it is complete. quiche sets and cancels alarms in the queue
-- (src/tQuicAlarmFactory.cc); the program asks for the next time and calls back when it has come.
-- The HTTP classes (src/http_parser) are used by the streams.
--
-- Which file models which part:
--   - Stream/Buffer.antt: `QueuedWriteIOBuffer`, the buffer of a request's body (`append`,
--     `did_consume`, `get_size_to_write` for Append, DidConsume, GetSizeToWrite), and its reader
--     `tQuicServerStream::ReadRequestBody` (`read_request_body`). An `int` is a 32-bit pattern.
--     Stream/Buffer/Queue, Reading and History have the proofs against a queue of bytes.
--   - Stream/State.antt: the members of a stream, with the calls that leave it as a list of effects.
--   - Stream/Request.antt: the handlers OnInitialHeadersComplete, OnBodyAvailable, OnClose,
--     OnCanWriteNewData and what they call; Stream/Request/Headers.antt: CopyAndValidateHeaders.
--     Stream/Request/Calm and Lifecycle have sequences of events, Stream/Request/Faults early ends
--     and malformed headers.
--   - Stream/Response.antt: WriteResponseBody, FlushResponse and the sending; Stream/Response/Text:
--     SetTrailers, SplitString and std::to_string; Stream/Response/Header: WriteResponseHeader.
--     Stream/Response/Sent, Passed (what a head becomes), Trailers and Decimal have proofs.
--   - Stream/Identify.antt: `tQuicServerIdentifyManager`.
--   - Alarm/Multimap.antt: the std::multimap of times and alarms, with iterators as identities of
--     nodes that may have gone; Alarm/Queue.antt: `tQuicAlarmEventQueue`, `tQuicAlarmEvent` and the
--     operations of `tQuicAlarm`; Alarm/Timeout.antt: CallTimeoutAlarms, which calls back into the
--     operations. Alarm/Valid has the invariant; Operations, Rounds, Progress and Quiet the proofs.
--   - Http/RequestHeaders.antt: `HttpRequestHeaders` (src/http_parser/http_request_headers.cc), its
--     laws in Http/RequestHeaders/Laws; Http/ByteRange/Defs.antt: `HttpByteRange`
--     (src/http_parser/http_byte_range.cc), its proofs in Http/ByteRange/Selection.
--     Http/RequestHeaders/FromString: AddHeaderFromString and AddHeadersFromString, with the proof
--     against ToString in Http/RequestHeaders/RoundTrip.
--   - Http/RangeHeader.antt: `HttpUtil::ParseRangeHeader` with the ValuesIterator
--     (src/http_parser/http_util.cc); Http/RangeHeader/Refusal has its proof. Http/ContentRange.antt:
--     ParseContentRangeHeaderFor206. Http/Pieces.antt: TrimLWS and the pieces of text that the source
--     passes on; Http/Texts.antt: lemmas on them.
--   - Http/Util.antt: the tests of tokens, names, values and methods, Quote and its inverses, and the
--     search for the status line and the end of the headers; Http/Util/Assemble: AssembleRawHeaders
--     and ConvertHeadersBackToHTTPResponse; Http/Util/StatusCodes: the codes for histograms.
--     Http/Util/Quoting and Blank have proofs.
--   - Http/ContentType.antt: `HttpUtil::ParseContentType`, with its loop over the parameters
--     (`take_parameters`); Http/ContentType/Rounds, Params and RoundTrip have proofs, over the
--     printed parameters of Http/Parameters.antt. Http/Encodings.antt: ParseAcceptEncoding and
--     ParseContentEncoding, with proofs in Http/Encodings/Mirrored and Accepted.
--     Http/Languages.antt: ExpandLanguageList and GenerateAcceptLanguageHeader, with proofs in
--     Http/Languages/Expanded, Ordered and Weighted. Http/NameValuePairs.antt: NameValuePairsIterator, with
--     proofs in Http/NameValuePairs/Solid and Printed. Http/HeadersIterator.antt: HeadersIterator
--     with AdvanceTo. Http/RetryAfter.antt: ParseRetryAfterHeader. Http/Converted.antt: a proof on
--     AssembleRawHeaders and its inverse. All of them are from src/http_parser/http_util.cc.
--   - Http/ResponseHeaders.antt: `HttpResponseHeaders`
--     (src/http_parser/http_response_headers.cc), its parsing and TryToCreate, with the status
--     line in Http/StatusLine.antt. Below it, Lookup has the enumerations and what is asked of
--     headers, Edit the changes, Caching the headers that a cache leaves out and the numbers in
--     headers, Freshness the lifetimes and the age, Redirect redirects and UpdateWithNewRange, and
--     Mime the types of contents. Ends, Printed, Spans and Plain follow printed lines through the
--     parser; Represents ties parsed headers to a list of names and values; Edited and Edits,
--     Lines, Values and Created have the proofs about changes, loops and the way from the text
--     that is sent.
--   - Http/Version.antt: `HttpVersion` (src/http_parser/http_version.h).
--   - Http/ParseInt.antt: `ParseIntHelper` (src/net/base/parse_number.cc); Http/ParseInt/Documented
--     has what its header documents, and the proof.
--   - Net/Escape.antt: the escapes of src/net/base/escape.cc; Net/Escape/Decode and Html have the
--     proofs.
--   - Net/Pem.antt: `PEMTokenizer` and `PEMEncode` (src/net/cert/pem.cc); proofs in Net/Pem/Rounds,
--     Decoded, Lines and RoundTrip.
--   - Clock.antt: `tQuicClock` (src/tQuicClock.cc) with its largest time so far.
--   - PacketWriter.antt: `tQuicPacketWriter` (src/tQuicPacketWriter.cc) with its flag.
--   - Stack.antt: NextAlarmTime and OnAlarmTimeout of src/tQuicStack.cc, which change the unit;
--     Stack/Sessions.antt: GetSession and GetStream; Stack/Requests: quic_stack_read_request_body;
--     Stack/Responses: the functions that write heads and bodies and add callbacks, with a proof on
--     sequences of calls in Stack/Isolated; Stack/Streams: how streams are made
--     (src/tQuicServerSession.cc) and closed; Stack/Handles: the functions that hand a call on to the
--     dispatcher, and quic_stack_add_certificate; Stack/Dispatcher: what src/tQuicDispatcher.cc adds
--     to quiche's dispatcher; Stack/Versions: quic_stack_supported_versions; Stack/Settings and
--     Stack/Config: Initialize, InitializeConfigOptions and GenerateConfigProtobuf, with proofs in
--     Stack/Config/Shared and PublicValues.
--   - ProofSource.antt: `tQuicProofSource` (src/tQuicProofSource.cc); ProofSource/Newest has the
--     choice of a certificate, ProofSource/Signed what is signed.
--   - Base and the modules below it: lists, Boolean tests, signed integers, 32-bit words and byte
--     strings that the others share. Concrete.antt, with Splitter and Tokenizer below it: the
--     parameters at concrete functions.
--
-- Parameters. What belongs to other projects is an argument: the pattern matcher of
-- `gurl_base::MatchPattern`, the ASCII case functions (Http/Ascii.antt, with the documented relation
-- between the two), trimming, quiche's number reading and printing, `spdy::SpdyHeaderBlock`
-- (Stream/State.antt, with the laws that an empty block is empty and an assignment makes it not
-- empty; a block that is moved from is taken to be empty), what quiche's sequencer holds, and what
-- the program's callbacks and quiche's alarm delegates do, and `absl::SimpleAtoi` and the
-- tokenizer of `gurl_base` (Http/RangeHeader.antt, with what their documentation says of signs and of
-- where tokens lie; Http/ContentRange.antt, with the bytes that a number has; Http/ParseInt.antt, with
-- what is read of a text without white space), the tokenizer and the reading of numbers for response
-- headers (Http/Tokens.antt: tokens are the runs between delimiters, and the texts between commas
-- make up the whole text; what a failed reading leaves is not known), the splitting of lines
-- (Http/RequestHeaders/FromString), `IsHexDigit` (Net/Escape.antt), quiche's units of time
-- (Http/ResponseHeaders/Freshness), SplitString of gurl_base (Http/Languages.antt), the texts that
-- the tokenizer gives for pairs (Http/NameValuePairs.antt), digests, keys and the serialization of
-- handshake messages (Stack/Config.antt), quiche's dispatcher (Stack/Handles.antt), what it does with
-- a closed stream (Stack/Streams.antt), the write to a socket (PacketWriter.antt), and Base64 and
-- CollapseWhitespaceASCII (Net/Pem.antt, with their laws in Net/Pem/Lines), files, certificates, keys
-- and quiche's data writer (ProofSource.antt and Signed). An
-- address of the program (a context) is a number.
--
-- Bounds and fuel. The loop of ReadRequestBody runs on fuel, two more than the number of strings
-- pending: every round but the last takes a whole string, and one more round sees the end. The loop
-- of CallTimeoutAlarms takes its fuel as an argument; one round more than there are due alarms is enough
-- where no delegate sets an alarm that is already due. Printing
-- a size has as much fuel as the size and one. The loops over EnumerateHeader and EnumerateHeaderLines
-- run on fuel, as many rounds as there are parsed headers, of which each round takes one at least;
-- the loop that ends a head with two NULs has two. The loop over the parameters of a content type
-- has as many rounds as the text has bytes, of which each takes one at least
-- (Http/ContentType/Rounds); that of AdvanceTo as many as there are lines. GetNext has one round more than bytes
-- are left (Net/Pem/Rounds). In the buffer, pending and arriving bytes are assumed
-- to be fewer than 2 ^ 31 together, where an `int` does not wrap. The numbers of byte ranges and
-- times do not wrap, since they stay between -1 and the largest number given.
--
-- Not modelled: the objects of quiche that src/tQuicStack.cc (quic_stack_create),
-- src/tQuicDispatcher.cc (CreateQuicSession), src/tQuicServerSession.cc,
-- src/tQuicConnectionHelper.cc and src/tQuicCryptoServerStream.cc build and pass on; SetRequestID
-- and CopySocketAddress (src/tQuicServerStream.cc), which fill a record of addresses;
-- certificates (src/net/cert but for pem.cc);
-- the vendored parser src/http_parser/http_parser.c. Logging and debug assertions are left out.
pub mod Base
pub mod Stream
pub mod Alarm
pub mod Http
pub mod Concrete
pub mod Clock
pub mod Net
pub mod PacketWriter
pub mod Stack
pub mod ProofSource
