-- ===== src/Address.antt =====
-- `ip_converter` and `format_sockaddr` of extension/maxminddb.c, lines 510-605: the argument of a
-- lookup becomes a socket address, and a socket address becomes text.
pub mod Convert
use max_mind_db_reader_pytho.Base.{
  ℕ, String, Option, none, some, List, [], ◌∷◌, ◌==◌, if◌then◌else◌, length,
}
use max_mind_db_reader_pytho.Env.{Env, SockAddr, af_inet, af_inet6}
use max_mind_db_reader_pytho.Runtime.{
  Cmd, pure, ◌>>◌, raise, new_ref, decref, value_error, type_error, runtime_error, octets,
}

-- What a `packed` attribute holds.
pub data Attribute : Type 0 where
  bytes_value : List ℕ → Attribute
  not_bytes : Attribute

-- The argument of `get`: a str with its UTF-8 form, if it has one, or another object with its
-- attribute `packed`, if it has one.
pub data Object : Type 0 where
  unicode : Option (List ℕ) → Object
  object : (packed : Option Attribute) → Object

-- The bytes of a C string stop before the first NUL.
c_strlen : List ℕ → ℕ
c_strlen [] = 0
c_strlen (c ∷ s) = if c == 0 then 0 else ℕ.suc (c_strlen s)

abbrev pub no_address : SockAddr
no_address = record { family = 0; addr = [] }

-- The `switch` on the length of `packed`, with the bytes copied.
from_packed : List ℕ → Cmd (Option SockAddr)
from_packed b =
    if length b == 16
    then (do decref; pure (some (record { family = af_inet6; addr = b })))
    else if length b == 4
    then (do decref; pure (some (record { family = af_inet; addr = b })))
    else do
      raise value_error "argument 1 returned an unexpected packed length for address" []
      decref
      pure none

module _ (env : Env) where
  -- The result of `getaddrinfo`.
  from_getaddrinfo : List ℕ → ℕ → Option SockAddr → Cmd (Option SockAddr)
  from_getaddrinfo ipstr gai_status addresses =
      if gai_status == 0
      then elim addresses [
        | none ↦ (do
          raise runtime_error "getaddrinfo was successful but failed to set the addrinfo" []
          pure none)
        | some a ↦ pure (some a)
      ]
      else do
        raise value_error "'%s' does not appear to be an IPv4 or IPv6 address." (octets ipstr ∷ [])
        pure none

  -- `none` for the 0 of the C function, and the address that it stores for 1.
  unfoldable pub ip_converter : Object → Cmd (Option SockAddr)
  unfolding c_strlen from_packed from_getaddrinfo
  ip_converter (unicode none) = do
    raise type_error "argument 1 contains an invalid string" []
    pure none
  ip_converter (unicode (some ipstr)) =
      if c_strlen ipstr == length ipstr
      then (let (gai_status, addresses) = env.getaddrinfo ipstr in
          from_getaddrinfo ipstr gai_status addresses)
      else do raise type_error "argument 1 contains an embedded null character" []; pure none
  ip_converter (object none) = do
    raise type_error "argument 1 must be a string or ipaddress object" []
    pure none
  ip_converter (object (some not_bytes)) = do
    new_ref
    raise type_error "argument 1 must be a string or ipaddress object" []
    decref
    pure none
  ip_converter (object (some (bytes_value b))) = do new_ref; from_packed b

  -- `inet_ntop` reads the address as the family says.
  unfoldable pub format_sockaddr : SockAddr → Cmd (Option String)
  format_sockaddr sa = elim (env.inet_ntop sa) [
    | none ↦ (do raise runtime_error "unable to format IP address" []; pure none)
    | some s ↦ pure (some s)
  ]
