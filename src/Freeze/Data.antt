-- ===== src/Freeze/Data.antt =====
-- src/freeze.cpp, include/gtlibcpp/freeze.hpp: the entries of `FreezeManager` and their map.
use gtlibcpp.Common.{
  ℕ, ◌||◌, Bool, true, false, List, [], ◌∷◌, Option, none, some, if◌then◌else◌, Bytes, codes, equal,
  take,
}
use gtlibcpp.Types.{Address}
use gtlibcpp.Session.Words.{encode, decode}

-- An interval is in milliseconds; 0 stands for all below 1, which are treated alike.
pub record FreezeRequest : Type 0 where
  pub id : Bytes
  pub address : Address
  pub type_name : Bytes
  pub value_u64 : ℕ
  pub interval : ℕ
  pub size : ℕ

pub record FreezeStatus : Type 0 where
  pub id : Bytes
  pub address : Address
  pub size : ℕ
  pub value_u64 : ℕ
  pub successful_rewrites : ℕ
  pub failed_rewrites : ℕ
  pub original_value_u64 : ℕ
  pub active : Bool
  pub restored : Bool
  pub last_error : Bytes

-- Where the thread of an entry stands: before the test of the loop, before the call of `is_alive`,
-- before the write, past the loop; `joined` is a thread that is no longer joinable.
pub data Phase : Type 0 where
  testing checking writing finished joined : Phase

-- After `join`: a thread that has ended is no longer joinable. `join` does not return before that.
abbrev pub awaited : Phase → Phase
awaited finished = joined
awaited phase = phase

abbrev pub joinable : Phase → Bool
joinable joined = false
joinable phase = true

pub record Entry : Type 0 where
  pub request : FreezeRequest
  pub original_bytes : Bytes
  pub worker : Phase
  pub cancel : Bool
  pub active : Bool
  pub restored : Bool
  pub ok_count : ℕ
  pub fail_count : ℕ
  pub last_error : Bytes

-- The map's key of an entry is its request's id.
unfoldable pub find_entry : Bytes → List Entry → Option Entry
find_entry id [] = none
find_entry id (e ∷ rest) = if equal e.request.id id then some e else find_entry id rest

-- An entry changed in place.
unfoldable pub put_entry : Bytes → Entry → List Entry → List Entry
put_entry id new [] = []
put_entry id new (e ∷ rest) =
    if equal e.request.id id then new ∷ rest else e ∷ put_entry id new rest

abbrev pub is_one_of : Bytes → List Bytes → Bool
is_one_of name [] = false
is_one_of name (n ∷ names) = equal name n || is_one_of name names

unfoldable pub size_for_type : Bytes → ℕ
size_for_type name =
    if is_one_of name (codes "uint8" ∷ codes "int8" ∷ [])
    then 1
    else if is_one_of name (codes "uint16" ∷ codes "int16" ∷ [])
    then 2
    else if is_one_of name (codes "uint32" ∷ codes "int32" ∷ codes "float" ∷ [])
    then 4
    else if is_one_of name (codes "uint64" ∷ codes "int64" ∷ codes "double" ∷ [])
    then 8
    else 0

-- At most 8 bytes are copied; the rest of the number stays 0.
abbrev pub bytes_to_u64 : Bytes → ℕ
bytes_to_u64 bytes = decode (take 8 bytes)

-- The zeroed buffer of `size` bytes after `u64_to_bytes`; the value is below 2 ^ 64, so bytes beyond
-- the eighth are 0.
abbrev pub u64_to_bytes : ℕ → ℕ → Bytes
u64_to_bytes value size = encode size value

abbrev pub status_of : Entry → FreezeStatus
status_of e = record {
  id = e.request.id;
  address = e.request.address;
  size = e.request.size;
  value_u64 = e.request.value_u64;
  successful_rewrites = e.ok_count;
  failed_rewrites = e.fail_count;
  original_value_u64 = bytes_to_u64 e.original_bytes;
  active = e.active;
  restored = e.restored;
  last_error = e.last_error;
}
