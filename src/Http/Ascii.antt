-- ===== src/Http/Ascii.antt =====
-- What the code uses of `gurl_base/strings/string_util.h`: `ToLowerASCII`,
-- `EqualsCaseInsensitiveASCII`, `LowerCaseEqualsASCII` and `StartsWith` without case, which belong to another project, with what their documentation says
-- of them. They are a parameter of the modules that call them.
use nginx_quic_stack.Base.{Bool, true, ◌≡◌, ◌↔◌, take, length}
use nginx_quic_stack.Base.Bytes.{Bytes}

pub record AsciiCase : Type 0 where
  pub to_lower_ascii : Bytes → Bytes
  pub equals_case_insensitive_ascii : Bytes → Bytes → Bool
  -- Two strings are equal up to case if their lower-case forms are equal.
  pub equals_iff :
      (a b : Bytes)
      → (equals_case_insensitive_ascii a b ≡ true) ↔ (to_lower_ascii a ≡ to_lower_ascii b)
  -- A string and one that is in lower case.
  pub lower_case_equals_ascii : Bytes → Bytes → Bool
  pub lower_case_iff : (a b : Bytes) → (lower_case_equals_ascii a b ≡ true) ↔ (to_lower_ascii a ≡ b)
  -- A text starts with another one if it has a front of its length that is equal up to case.
  pub starts_with : Bytes → Bytes → Bool
  pub starts_with_iff :
      (text front : Bytes)
      → (starts_with text front ≡ true)
        ↔ (to_lower_ascii (take (length front) text) ≡ to_lower_ascii front)
