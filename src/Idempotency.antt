-- ===== src/Idempotency.antt =====
-- pkg/idempotency: the store of idempotency keys, idempotency.go and the store in memory, memory.go.
-- The mutex makes each method one step; the clock's reading is an argument.
pub mod Replay
use payment_gateway.Base.{
  ℕ, ◌+◌, ◌*◌, ◌==◌, ltb, String, Bool, true, false, Option, none, some, List, [], ◌∷◌, not,
  text_eq, concat, if◌then◌else◌,
}
use payment_gateway.Base.Action.{Result, ok, err}
use payment_gateway.Base.Clock.{Time, second, hour}
use payment_gateway.Base.Dict.{lookup, insert}
use payment_gateway.Base.Method.{Method}

-- `ErrMismatch` and `ErrInProgress`; `unavailable` is any other error of a store.
pub data IdemError : Type 0 where
  mismatch in_progress unavailable : IdemError

-- `State`
pub data BeginState : Type 0 where
  new completed : BeginState

pub record Response : Type 0 where
  pub status_code : ℕ
  pub headers : List (String × String)
  pub body : String

-- `DefaultTTL` and `DefaultLockTTL`
abbrev pub default_ttl : Time
default_ttl = 24 * hour

abbrev pub default_lock_ttl : Time
default_lock_ttl = 30 * second

-- `memItem` with the fields of its `record`.
pub record Item : Type 0 where
  pub is_in_progress : Bool
  pub request_hash : String
  pub response : Option Response
  pub created_at : Time
  pub expires_at : Time

pub record MemoryStore : Type 0 where
  pub items : List (String × Item)
  pub ttl : Time
  pub lock_ttl : Time

-- `NewMemoryStore`
abbrev pub new_memory_store : MemoryStore
new_memory_store = record { items = []; ttl = default_ttl; lock_ttl = default_lock_ttl }

-- `storeKey`
unfoldable pub store_key : String → String → String
store_key merchant_id key = concat "idem:" (concat merchant_id (concat ":" key))

abbrev pub Begun : Type 0
Begun = BeginState × Option Response

-- What `Begin` answers from an item that has not expired.
abbrev pub answer : Item → String → Result IdemError Begun
answer it hash =
    if not (text_eq it.request_hash hash)
    then err mismatch
    else if it.is_in_progress
    then err in_progress
    else ok (BeginState.completed, it.response)

-- The item that takes the lock.
abbrev pub locked : MemoryStore → Time → String → Item
locked m now hash = record {
  is_in_progress = true;
  request_hash = hash;
  response = none;
  created_at = now;
  expires_at = now + m.lock_ttl;
}

abbrev put : String → Item → MemoryStore → MemoryStore
put k it m = record m { items = insert text_eq k it m.items }

-- The item under a key, if it has not expired.
abbrev pub live : Time → Option Item → Option Item
live now none = none
live now (some it) = if ltb now it.expires_at then some it else none

abbrev pub begin_at : Option Item → Time → String → String → Method MemoryStore IdemError Begun
begin_at (some it) now k hash m = (answer it hash, m)
begin_at none now k hash m = (ok (BeginState.new, none), put k (locked m now hash) m)

-- `Begin`
unfoldable pub begin : Time → String → String → String → Method MemoryStore IdemError Begun
begin now merchant_id key hash m =
    let k = store_key merchant_id key in begin_at (live now (lookup text_eq k m.items)) now k hash m

-- The item that `Complete` writes over: the zero value where there is none.
abbrev pub item_or_zero : Option Item → Item
item_or_zero (some it) = it
item_or_zero none = record {
  is_in_progress = false;
  request_hash = "";
  response = none;
  created_at = 0;
  expires_at = 0;
}

-- The item with the response.
abbrev pub finished : MemoryStore → Time → Response → Item → Item
finished m now resp it = record it {
  is_in_progress = false;
  response = some resp;
  created_at = if it.created_at == 0 then now else it.created_at;
  expires_at = now + m.ttl;
}

-- `Complete`
unfoldable pub complete : Time → String → String → Response → MemoryStore → MemoryStore
complete now merchant_id key resp m =
    let k = store_key merchant_id key in
    put k (finished m now resp (item_or_zero (lookup text_eq k m.items))) m

-- `delete` on a map.
abbrev pub delete : String → List (String × Item) → List (String × Item)
delete k [] = []
delete k ((j, it) ∷ m) = if text_eq j k then delete k m else (j, it) ∷ delete k m

-- `Abort`
unfoldable pub abort : String → String → MemoryStore → MemoryStore
abort merchant_id key m = record m { items = delete (store_key merchant_id key) m.items }
