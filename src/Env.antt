-- ===== src/Env.antt =====
-- What `extension/maxminddb.c` calls and does not implement: libmaxminddb (a git submodule),
-- CPython's C API, the C library and the platform. All of it is one record of parameters.
use max_mind_db_reader_pytho.Base.{ℕ, ℤ, String, Bool, Option, List}

-- `struct sockaddr_storage`: the family (0 if none was stored) and the bytes of the address.
pub record SockAddr : Type 0 where
  pub family : ℕ
  pub addr : List ℕ

abbrev pub af_inet : ℕ
af_inet = 2

abbrev pub af_inet6 : ℕ
af_inet6 = 10

-- `MMDB_s`, with the fields that the extension reads; `image` names the mapped file.
pub record Mmdb : Type 0 where
  pub depth : ℕ
  pub ip_version : ℕ
  pub ipv4_start_node : ℕ
  pub image : ℕ

-- `MMDB_entry_s`
pub record Entry : Type 0 where
  pub image : ℕ
  pub offset : ℕ

-- The `uint128` member, which libmaxminddb stores in one of two ways.
pub data Uint128 : Type 0 where
  byte_array : List ℕ → Uint128
  whole : ℕ → Uint128

-- `MMDB_entry_data_s`, by its `type`, with the member of the union that the type selects. A map and
-- an array carry `data_size`, the number of their entries; of a string it is the number of bytes.
-- `double` and `float` hold the bits of the value.
pub data EntryData : Type 0 where
  map : (data_size : ℕ) → EntryData
  array : (data_size : ℕ) → EntryData
  utf8_string : List ℕ → EntryData
  bytes : List ℕ → EntryData
  double : ℕ → EntryData
  float : ℕ → EntryData
  uint16 : ℕ → EntryData
  uint32 : ℕ → EntryData
  boolean : Bool → EntryData
  uint64 : ℕ → EntryData
  uint128 : Uint128 → EntryData
  int32 : ℤ → EntryData
  other : (type : ℕ) → EntryData

-- `MMDB_entry_data_list_s *`: the list from that node on, and `[]` for NULL.
abbrev pub EntryDataList : Type 0
EntryDataList = List EntryData

pub record LookupResult : Type 0 where
  pub found_entry : Bool
  pub entry : Entry
  pub netmask : ℕ

-- `MMDB_search_node_s`
pub record SearchNode : Type 0 where
  pub left_record : ℕ
  pub right_record : ℕ
  pub left_record_type : ℕ
  pub right_record_type : ℕ
  pub left_record_entry : Entry
  pub right_record_entry : Entry

abbrev pub mmdb_success : ℕ
mmdb_success = 0

-- `MMDB_IPV6_LOOKUP_IN_IPV4_DATABASE_ERROR`
abbrev pub ipv6_lookup_in_ipv4 : ℕ
ipv6_lookup_in_ipv4 = 9

-- The lock that the preprocessor selects.
pub data Strategy : Type 0 where
  gil_only windows_locks pthread_locks : Strategy

pub record Env : Type 0 where
  -- Whether the allocation made at that time succeeds, and what a pthread call on the lock returns.
  pub memory : ℕ → Bool
  pub lock_result : ℕ → ℕ
  pub strategy : Strategy
  pub strerror : ℕ → String
  pub access : String → ℤ
  -- The width of a C `long`.
  pub long_bits : ℕ
  pub getaddrinfo : List ℕ → ℕ × Option SockAddr
  pub inet_ntop : SockAddr → Option String
  -- CPython: the module of the object's type, UTF-8 (into code points), widening, `ip_network`.
  pub has_module : Bool
  pub decode_utf8 : List ℕ → Option (List ℕ)
  pub double_of_float : ℕ → ℕ
  pub ip_network : List ℕ → ℤ → Option String
  -- libmaxminddb: each call's status, and what it stores.
  pub mmdb_open : String → ℕ × Mmdb
  pub mmdb_lookup_sockaddr : Mmdb → SockAddr → ℕ × LookupResult
  pub mmdb_get_entry_data_list : Entry → ℕ × EntryDataList
  pub mmdb_get_metadata_as_entry_data_list : Mmdb → ℕ × EntryDataList
  pub mmdb_read_node : Mmdb → ℕ → ℕ × SearchNode
  pub mmdb_strerror : ℕ → String
