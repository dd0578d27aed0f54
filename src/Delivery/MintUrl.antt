-- ===== src/Delivery/MintUrl.antt =====
-- packages/delivery-core/src/mint-url.ts
use Prim.Native.String.{◌++◌}
use cashu_fault_lab.Common.{
  ℕ, String, Bool, false, ◌||◌, not, ◌&&◌, List, [], ◌∷◌, none, some, ◌==◌, leb, codes, str_eq,
  is_blank, includes, any, if◌then◌else◌, Result, ok, err, ◌>>=◌, ◌>>◌, ensure, throw_if,
}
use cashu_fault_lab.Delivery.Errors.{DeliveryErrorCode, invalid_mint_url, insecure_mint_url}
use cashu_fault_lab.Delivery.Platform.{Platform, Url}

loopback_hosts : List String
loopback_hosts = "localhost" ∷ "127.0.0.1" ∷ "[::1]" ∷ []

-- white space and line ends, which `trim` removes
abbrev is_space : ℕ → Bool
is_space c =
    leb 9 c && leb c 13
    || c == 32
    || c == 160
    || c == 0x1680
    || leb 0x2000 c && leb c 0x200a
    || c == 0x2028
    || c == 0x2029
    || c == 0x202f
    || c == 0x205f
    || c == 0x3000
    || c == 0xfeff

ends_in : (ℕ → Bool) → List ℕ → Bool
ends_in p [] = false
ends_in p (c ∷ []) = p c
ends_in p (c ∷ d ∷ s) = ends_in p (d ∷ s)

abbrev starts_in : (ℕ → Bool) → List ℕ → Bool
starts_in p [] = false
starts_in p (c ∷ s) = p c

-- value !== value.trim()
has_outer_space : String → Bool
unfolding ends_in
has_outer_space value = starts_in is_space (codes value) || ends_in is_space (codes value)

up_to_slash : List ℕ → List ℕ
up_to_slash [] = []
up_to_slash (c ∷ s) = let rest = up_to_slash s in if c == b'/' then [] else c ∷ rest

-- what stands between the first `://` and the `/` that follows
authority : List ℕ → List ℕ
unfolding up_to_slash
authority (a ∷ b ∷ c ∷ s) =
    let rest = authority (b ∷ c ∷ s) in
    if a == b':' && b == b'/' && c == b'/' then up_to_slash s else rest
authority _ = []

-- url.pathname.slice(0, -1)
drop_last : String → String
drop_last String.[] = String.[]
drop_last (String.◌∷◌ c String.[]) = String.[]
drop_last (String.◌∷◌ c (String.◌∷◌ d s)) = String.◌∷◌ c (drop_last (String.◌∷◌ d s))

unfoldable pub canonical_path : String → String
unfolding ends_in drop_last
canonical_path pathname =
    if str_eq pathname "/"
    then ""
    else if ends_in (λ c. c == b'/') (codes pathname)
    then drop_last pathname
    else pathname

has_forbidden : String → Bool
unfolding has_outer_space authority
has_forbidden value =
    has_outer_space value
    || any (λ c. c == 92 || c == b'?' || c == b'#') (codes value)
    || any (λ c. c == b'@') (authority (codes value))

module _ (platform : Platform) where
  open platform use {parse_url, set_hostname, to_lower_case}

  new_url : String → Result DeliveryErrorCode Url
  new_url value = elim (parse_url value) [ none ↦ err invalid_mint_url | some url ↦ ok url ]

  unfoldable pub normalize_mint_url : String → Result DeliveryErrorCode String
  unfolding has_forbidden new_url canonical_path loopback_hosts
  normalize_mint_url value = do
    throw_if (has_forbidden value) invalid_mint_url
    url ← new_url value
    throw_if (not (str_eq url.protocol "https:") && not (str_eq url.protocol "http:"))
        invalid_mint_url
    throw_if
        (str_eq url.protocol "http:" && not (includes loopback_hosts (to_lower_case url.hostname)))
        insecure_mint_url
    ensure
        (is_blank url.username && is_blank url.password && is_blank url.search && is_blank url.hash)
        invalid_mint_url
    let lowered = set_hostname url (to_lower_case url.hostname)
    ok (lowered.protocol ++ ("//" ++ (lowered.host ++ canonical_path lowered.pathname)))
