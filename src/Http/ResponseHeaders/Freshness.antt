-- ===== src/Http/ResponseHeaders/Freshness.antt =====
-- How long a response is fresh. A time and a span of time are numbers of microseconds; seconds are
-- converted by quiche's clock, which has a span without end.
use nginx_quic_stack.Base.{
  ℕ, ◌+◌, ◌/◌, ◌≤◌, Bool, false, ◌&&◌, ◌||◌, not, List, [], ◌∷◌, Option, none, some, if◌then◌else◌,
  ◌==◌, ltb, length, drop, ◌>>=◌, arith,
}
use nginx_quic_stack.Base.Bytes.{Bytes, codes}
use nginx_quic_stack.Base.Int.{ℤ, pos, pos_part, ◌+ℤ◌, ◌-ℤ◌, ◌≤ℤ◌, ltb_ℤ, leb_ℤ, eqb_ℤ}
use nginx_quic_stack.Http.Ascii.{AsciiCase}
use nginx_quic_stack.Http.ParseInt.{
  parse_int_helper, ParseIntResult, parsed, failed, failed_overflow, failed_parse, failed_underflow,
  non_negative,
}
use nginx_quic_stack.Http.Pieces.{char_at, c_str}
use nginx_quic_stack.Http.Tokens.{IntReader}
use nginx_quic_stack.Http.ResponseHeaders.{HttpResponseHeaders}
use nginx_quic_stack.Http.ResponseHeaders.Caching.{first_value}
use nginx_quic_stack.Http.ResponseHeaders.Lookup.{all_values, has_header_value}

pub record TimeUnits : Type 0 where
  pub from_seconds : ℤ → ℤ
  pub infinite : ℤ

pub record FreshnessLifetimes : Type 0 where
  pub freshness : ℤ
  pub staleness : ℤ

pub data ValidationType : Type 0 where
  validation_none : ValidationType
  validation_asynchronous : ValidationType
  validation_synchronous : ValidationType

abbrev max_ℤ : ℤ → ℤ → ℤ
max_ℤ a b = if ltb_ℤ a b then b else a

abbrev or_default : Option ℤ → ℤ → ℤ
or_default none d = d
or_default (some v) d = v

passes :
    (age response now later : ℤ)
    → now ≤ℤ later
    → age +ℤ (now -ℤ response) ≤ℤ age +ℤ (later -ℤ response)
passes age response now later h = ground (arith, h)

module _ (ascii : AsciiCase) (units : TimeUnits) (numbers : IntReader)
    (string_to_number : Bytes → Option ℤ) where
  open units use {from_seconds, infinite}

  -- What a failed reading leaves is used as well.
  abbrev seconds_in : Bytes → ℤ
  seconds_in text = or_default (numbers.string_to_int text) (numbers.left_over text)

  abbrev directive_in : Bytes → List Bytes → Option ℤ
  directive_in directive [] = none
  directive_in directive (value ∷ values) =
      let later = directive_in directive values in
      if ltb (length directive + 1) (length value)
        && ascii.starts_with value directive
        && (char_at (length directive) value == b'=')
      then some (from_seconds (seconds_in (c_str (drop (length directive + 1) value))))
      else later

  unfoldable pub get_cache_control_directive : Bytes → HttpResponseHeaders → Option ℤ
  unfolding all_values
  get_cache_control_directive directive h =
      directive_in directive (all_values ascii (codes "cache-control") h)

  unfoldable pub get_max_age_value : HttpResponseHeaders → Option ℤ
  unfolding get_cache_control_directive
  get_max_age_value h = get_cache_control_directive (codes "max-age") h

  unfoldable pub get_stale_while_revalidate_value : HttpResponseHeaders → Option ℤ
  unfolding get_cache_control_directive
  get_stale_while_revalidate_value h =
      get_cache_control_directive (codes "stale-while-revalidate") h

  -- A value that is too large counts as the largest one.
  abbrev age_of : ParseIntResult → Option ℤ
  age_of (parsed seconds) = some (from_seconds seconds)
  age_of (failed failed_overflow) = some (from_seconds (pos 4294967295))
  age_of (failed failed_parse) = none
  age_of (failed failed_underflow) = none

  unfoldable pub get_age_value : HttpResponseHeaders → Option ℤ
  unfolding first_value parse_int_helper
  get_age_value h = first_value ascii (codes "Age") h >>= λ value.
      age_of (parse_int_helper string_to_number value non_negative)

  -- Dates are not read.
  unfoldable pub get_time_valued_header : Bytes → HttpResponseHeaders → Option ℤ
  unfolding first_value
  get_time_valued_header name h = first_value ascii name h >>= λ value. none

  unfoldable pub get_date_value : HttpResponseHeaders → Option ℤ
  unfolding get_time_valued_header
  get_date_value h = get_time_valued_header (codes "Date") h

  unfoldable pub get_last_modified_value : HttpResponseHeaders → Option ℤ
  unfolding get_time_valued_header
  get_last_modified_value h = get_time_valued_header (codes "Last-Modified") h

  unfoldable pub get_expires_value : HttpResponseHeaders → Option ℤ
  unfolding get_time_valued_header
  get_expires_value h = get_time_valued_header (codes "Expires") h

  abbrev is_code : List ℕ → HttpResponseHeaders → Bool
  is_code [] h = false
  is_code (n ∷ codes) h = eqb_ℤ h.response_code (pos n) || is_code codes h

  -- Behind the Expires header.
  abbrev implicit_lifetimes : HttpResponseHeaders → ℤ → FreshnessLifetimes
  implicit_lifetimes h staleness =
      if is_code (300 ∷ 301 ∷ 308 ∷ 410 ∷ []) h
      then record { freshness = infinite; staleness = pos 0 }
      else record { freshness = pos 0; staleness = staleness }

  abbrev heuristic_lifetimes : HttpResponseHeaders → ℤ → ℤ → Option ℤ → FreshnessLifetimes
  heuristic_lifetimes h date staleness none = implicit_lifetimes h staleness
  heuristic_lifetimes h date staleness (some last_modified) =
      if leb_ℤ last_modified date
      then record { freshness = pos (pos_part (date -ℤ last_modified) / 10); staleness = staleness }
      else implicit_lifetimes h staleness

  abbrev lifetimes_from : HttpResponseHeaders → Bool → ℤ → ℤ → Option ℤ → FreshnessLifetimes
  lifetimes_from h must_revalidate date staleness (some expires) =
      if ltb_ℤ date expires
      then record { freshness = expires -ℤ date; staleness = staleness }
      else record { freshness = pos 0; staleness = staleness }
  lifetimes_from h must_revalidate date staleness none =
      if is_code (200 ∷ 203 ∷ 206 ∷ []) h && not must_revalidate
      then heuristic_lifetimes h date staleness (get_last_modified_value h)
      else implicit_lifetimes h staleness

  abbrev lifetimes_with : HttpResponseHeaders → Bool → ℤ → ℤ → Option ℤ → FreshnessLifetimes
  lifetimes_with h must_revalidate response_time staleness (some max_age) = record {
    freshness = max_age;
    staleness = staleness;
  }
  lifetimes_with h must_revalidate response_time staleness none =
      lifetimes_from h must_revalidate (or_default (get_date_value h) response_time) staleness
        (get_expires_value h)

  unfoldable pub get_freshness_lifetimes : ℤ → HttpResponseHeaders → FreshnessLifetimes
  unfolding has_header_value get_stale_while_revalidate_value get_max_age_value get_date_value
      get_expires_value get_last_modified_value
  get_freshness_lifetimes response_time h =
      if has_header_value ascii (codes "cache-control") (codes "no-cache") h
        || has_header_value ascii (codes "cache-control") (codes "no-store") h
        || has_header_value ascii (codes "pragma") (codes "no-cache") h
      then record { freshness = pos 0; staleness = pos 0 }
      else let must_revalidate =
          has_header_value ascii (codes "cache-control") (codes "must-revalidate") h in
        let staleness =
          if must_revalidate
          then pos 0
          else or_default (get_stale_while_revalidate_value h) (pos 0) in
        lifetimes_with h must_revalidate response_time staleness (get_max_age_value h)

  unfoldable pub get_current_age : ℤ → ℤ → ℤ → HttpResponseHeaders → ℤ
  unfolding get_date_value get_age_value
  get_current_age request_time response_time current_time h =
      let date = or_default (get_date_value h) response_time in
      let age = or_default (get_age_value h) (pos 0) in
      let apparent_age = max_ℤ (pos 0) (response_time -ℤ date) in
      let corrected_age_value = age +ℤ (response_time -ℤ request_time) in
      max_ℤ apparent_age corrected_age_value +ℤ (current_time -ℤ response_time)

  unfoldable pub validation_at : FreshnessLifetimes → ℤ → ValidationType
  validation_at lifetimes age =
      if eqb_ℤ lifetimes.freshness (pos 0) && eqb_ℤ lifetimes.staleness (pos 0)
      then validation_synchronous
      else if ltb_ℤ age lifetimes.freshness
      then validation_none
      else if ltb_ℤ age (lifetimes.freshness +ℤ lifetimes.staleness)
      then validation_asynchronous
      else validation_synchronous

  unfoldable pub requires_validation : ℤ → ℤ → ℤ → HttpResponseHeaders → ValidationType
  unfolding get_freshness_lifetimes get_current_age validation_at
  requires_validation request_time response_time current_time h =
      validation_at (get_freshness_lifetimes response_time h)
        (get_current_age request_time response_time current_time h)

  -- How much validation is asked for.
  abbrev pub rank : ValidationType → ℕ
  rank validation_none = 0
  rank validation_asynchronous = 1
  rank validation_synchronous = 2

  rank-validation_at :
      (lifetimes : FreshnessLifetimes) (age later : ℤ)
      → age ≤ℤ later
      → rank (validation_at lifetimes age) ≤ rank (validation_at lifetimes later)
  unfolding validation_at
  rank-validation_at lifetimes age later h = ground (arith, h)

  -- For every response and all times of request and response: what RequiresValidation asks for
  -- never becomes less as the current time goes on, from nothing over validation in the background
  -- to validation before use.
  pub requires_validation_later :
      (request_time response_time current_time later : ℤ) (h : HttpResponseHeaders)
      → current_time ≤ℤ later
      → rank (requires_validation request_time response_time current_time h)
        ≤ rank (requires_validation request_time response_time later h)
  unfolding requires_validation get_current_age
  requires_validation_later request_time response_time current_time later h order =
      rank-validation_at (get_freshness_lifetimes response_time h)
        (get_current_age request_time response_time current_time h)
        (get_current_age request_time response_time later h)
        (passes _ response_time current_time later order)
