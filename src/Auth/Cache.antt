-- ===== src/Auth/Cache.antt =====
-- apps/api/src/integrations/cache: the store of port.ts and the one of memory.ts, with times in
-- milliseconds and lives in seconds. The store of cloudflare.ts hands each call to a KV namespace, so
-- it is the parameter wherever a store is one.
use hono_crosmos.Base.{
  ℕ, ◌+◌, ◌*◌, String, string_eq, Bool, false, Option, none, some, leb, if◌then◌else◌,
}
use hono_crosmos.Base.Dict.{Dict, get, set, delete}

pub record MemoryEntry (V : Type 0) : Type 0 where
  pub value : V
  pub expires_at_ms : Option ℕ

abbrev pub expiry : ℕ → Option ℕ → Option ℕ
expiry now none = none
expiry now (some ttl_seconds) = some (now + ttl_seconds * 1000)

module _ {V : Type 0} where
  abbrev pub is_expired : ℕ → MemoryEntry V → Bool
  is_expired now entry = elim entry.expires_at_ms [ none ↦ false | some e ↦ leb e now ]

  abbrev pub read_entry :
      String
      → ℕ
      → Dict String (MemoryEntry V)
      → Option (MemoryEntry V)
      → Option V × Dict String (MemoryEntry V)
  read_entry key now entries none = (none, entries)
  read_entry key now entries (some entry) =
      if is_expired now entry then (none, delete key entries) else (some entry.value, entries)

  unfoldable pub get_json :
      String → ℕ → Dict String (MemoryEntry V) → Option V × Dict String (MemoryEntry V)
  get_json key now entries = read_entry key now entries (get key entries)

  unfoldable pub put_json :
      String → V → Option ℕ → ℕ → Dict String (MemoryEntry V) → Dict String (MemoryEntry V)
  put_json key value ttl_seconds now entries =
      set key (record { value = value; expires_at_ms = expiry now ttl_seconds }) entries

-- A store of flags: a read at an instant, which may change it, and a write that lives for a while.
pub record CacheStore : Type 1 where
  pub State : Type 0
  pub get_flag : String → ℕ → State → Option Bool × State
  pub put_flag : String → Bool → ℕ → ℕ → State → State

abbrev pub memory_cache : CacheStore
memory_cache = record {
  State = Dict String (MemoryEntry Bool);
  get_flag = get_json;
  put_flag = λ key value ttl_seconds now entries. put_json key value (some ttl_seconds) now entries;
}
