-- ===== src/Network/Queries.antt =====
-- `query_contains_credentials` of sensitive_data.py, and the libraries of the network layer.
use Prim.Native.Char.{code}
use Prim.Native.String.{[] as end, ◌∷◌ as cons}
use world_class_seo_agent_sy.Prelude.{
  ℕ, zero, suc, Bool, ◌&&◌, ◌||◌, leb, eqb, String, Option, List, [], ◌∷◌, map, any, contains, ◌==◌,
  if◌then◌else◌,
}

-- `ipaddress.ip_address(value)`: with its `compressed`, which is also its text.
pub record Address : Type 0 where
  pub version : ℕ
  pub compressed : String
  pub is_global : Bool

-- `urlsplit(value)`, with what is read of it. A missing user name or password reads as "".
pub record SplitUrl : Type 0 where
  pub scheme : String
  pub username : String
  pub password : String
  pub hostname : String
  pub port : Option ℕ
  pub path : String
  pub query : String

-- `none` is a `ValueError` or a `UnicodeError`; `decode` is `unquote_plus(html.unescape(value))`.
pub record Libraries : Type 0 where
  pub urlsplit : String → Option SplitUrl
  pub urlunsplit : (scheme netloc path query : String) → String
  pub urljoin : String → String → Option String
  pub idna : String → Option String
  pub ip_address : String → Option Address
  pub decode : String → String
  pub unescape : String → String
  pub casefold : String → String

-- `SENSITIVE_QUERY_KEYS`
abbrev pub credential_query_keys : List String
credential_query_keys =
    "access_token" ∷ "api_key" ∷ "apikey" ∷ "auth" ∷ "authorization" ∷ "client_secret" ∷ "code"
    ∷ "credential" ∷ "id_token" ∷ "key" ∷ "password" ∷ "passwd" ∷ "refresh_token" ∷ "secret"
    ∷ "session" ∷ "sessionid" ∷ "signature" ∷ "token" ∷ []

abbrev pub is_alnum : ℕ → Bool
is_alnum n = (leb 97 n && leb n 122) || (leb 48 n && leb n 57)

-- `re.sub(r"[^a-z0-9]", "", value)`
unfoldable pub alnum_only : String → String
alnum_only end = end
alnum_only (cons c s) = let rest = alnum_only s in if is_alnum (code c) then cons c rest else rest

-- `value.split(separator)`, for a character by its code
unfoldable pub split_char : ℕ → String → List String
split_char n end = end ∷ []
split_char n (cons c s) = if eqb (code c) n then end ∷ split_char n s else onto (split_char n s)
  where
    onto : List String → List String
    onto [] = cons c end ∷ []
    onto (field ∷ fields) = cons c field ∷ fields

-- `value.partition(separator)[0]`
unfoldable pub before_char : ℕ → String → String
before_char n end = end
before_char n (cons c s) = let rest = before_char n s in if eqb (code c) n then end else cons c rest

module _ (libraries : Libraries) where
  open libraries use {decode, unescape, casefold}

  -- The loop `for _ in range(3)`, with the rounds that are left.
  unfoldable pub decoded_name : ℕ → String → String
  decoded_name zero key = key
  decoded_name (suc rounds) key =
      let further = decoded_name rounds (decode key) in if decode key == key then key else further

  unfoldable pub sensitive_query_key : String → Bool
  unfolding alnum_only decoded_name
  sensitive_query_key key =
      contains (map alnum_only credential_query_keys) (alnum_only (casefold (decoded_name 3 key)))

  unfoldable pub query_contains_credentials : String → Bool
  unfolding split_char before_char sensitive_query_key
  query_contains_credentials query =
      any (λ field. sensitive_query_key (before_char 61 field)) (split_char 38 (unescape query))
