-- ===== src/Delivery/Platform.antt =====
-- What the delivery code takes from Node: the WHATWG `URL` class and the base64url codec of
-- `Buffer`, and the rounding of numbers. They are parameters of the models.
use cashu_fault_lab.Common.{ℕ, String, Option, List, ℤ}

pub record Url : Type 0 where
  pub protocol : String
  pub username : String
  pub password : String
  pub search : String
  pub hash : String
  pub hostname : String
  pub host : String
  pub pathname : String

pub record Platform : Type 0 where
  -- new URL(value); `none` if it throws
  pub parse_url : String → Option Url
  -- url.hostname = name
  pub set_hostname : Url → String → Url
  -- String.prototype.toLowerCase
  pub to_lower_case : String → String
  -- Buffer.from(value, 'base64url') and buffer.toString('base64url')
  pub decode_base64url : String → List ℕ
  pub encode_base64url : List ℕ → String
  -- the number that `+` and `-` return where the exact result is this integer
  pub round : ℤ → ℤ
