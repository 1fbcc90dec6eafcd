-- ===== src/Http/RetryAfter.antt =====
-- `HttpUtil::ParseRetryAfterHeader` of src/http_parser/http_util.cc: the header as a number of
-- seconds. A span of time is its number of microseconds; seconds are converted by quiche's clock.
use nginx_quic_stack.Base.{Option, none, some, if◌then◌else◌}
use nginx_quic_stack.Base.Bytes.{Bytes}
use nginx_quic_stack.Base.Int.{ℤ, pos, ltb_ℤ}
use nginx_quic_stack.Http.ParseInt.{ParseIntResult, parsed, failed, non_negative, parse_int_helper}

module _ (string_to_number : Bytes → Option ℤ) (from_seconds : ℤ → ℤ) where
  abbrev interval_of : ParseIntResult → Option ℤ
  interval_of (failed e) = none
  interval_of (parsed seconds) =
      if ltb_ℤ (from_seconds seconds) (from_seconds (pos 0))
      then none
      else some (from_seconds seconds)

  unfoldable pub parse_retry_after_header : Bytes → Option ℤ
  unfolding parse_int_helper
  parse_retry_after_header retry_after_string =
      interval_of (parse_int_helper string_to_number retry_after_string non_negative)
