-- ===== src/Server/Pool.antt =====
-- `ConnectionId` and `ConnectionPool` of stsync-proxy/src/srt/state.rs. The hash set of handles is
-- the list of its elements; a socket address is a number.
use streamsync.Base.{ℕ, Bool, ◌&&◌, Option, none, some, List, [], ◌∷◌, ◌==◌, length, if◌then◌else◌}

pub record ConnectionId : Type 0 where
  pub addr : ℕ
  pub server_socket_id : ℕ
  pub client_socket_id : ℕ

abbrev pub same_id : ConnectionId → ConnectionId → Bool
same_id a b =
    a.addr == b.addr
    && (a.server_socket_id == b.server_socket_id)
    && (a.client_socket_id == b.client_socket_id)

-- `ConnectionHandle`: the sending side of the connection's channel. Its `Hash` and `Eq` are those of
-- the id.
pub record Handle : Type 0 where
  pub id : ConnectionId
  pub channel : ℕ

abbrev pub ConnectionPool : Type 0
ConnectionPool = List Handle

abbrev pub get : ConnectionId → ConnectionPool → Option Handle
get id [] = none
get id (h ∷ pool) = let later = get id pool in if same_id h.id id then some h else later

abbrev is_some : Option Handle → Bool
is_some none = Bool.false
is_some (some _) = Bool.true

-- `HashSet::insert` keeps an element that equals the new one.
abbrev pub insert : Handle → ConnectionPool → ConnectionPool
insert h pool = if is_some (get h.id pool) then pool else h ∷ pool

abbrev pub remove : ConnectionId → ConnectionPool → ConnectionPool
remove id [] = []
remove id (h ∷ pool) = let others = remove id pool in if same_id h.id id then others else h ∷ others

abbrev pub len : ConnectionPool → ℕ
len pool = length pool

-- The first match in the order of the list, which stands for that of the set.
abbrev pub find_client_id : ℕ → ℕ → ConnectionPool → Option Handle
find_client_id addr socket_id [] = none
find_client_id addr socket_id (h ∷ pool) =
    let later = find_client_id addr socket_id pool in
    if h.id.addr == addr && (h.id.client_socket_id == socket_id) then some h else later
