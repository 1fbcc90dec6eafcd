-- ===== src/Http.antt =====
-- src/http_parser: what the stream uses of HTTP/1.1 headers, and the values in them.
pub mod ByteRange
pub mod Ascii
pub mod RequestHeaders
pub mod Pieces
pub mod Util
pub mod Texts
pub mod Tokens
pub mod StatusLine
pub mod ResponseHeaders
pub mod RangeHeader
pub mod ContentRange
pub mod ParseInt
pub mod Version
pub mod ContentType
pub mod Encodings
pub mod Languages
pub mod NameValuePairs
pub mod Parameters
pub mod HeadersIterator
pub mod RetryAfter
pub mod Converted
