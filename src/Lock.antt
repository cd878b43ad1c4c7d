-- ===== src/Lock.antt =====
-- webdav/lock.go: memLS, the lock system in memory.
pub mod Decimal
pub mod Timeout
pub mod Names
pub mod Counts
pub mod Ops
use webdav_serverless.Base.{
  ℕ, zero, suc, ◌+◌, ◌-◌, ◌*◌, ◌%◌, ◌^◌, Bool, true, false, ◌&&◌, ◌||◌, not, Option, none, some,
  List, [], ◌∷◌, ◌++◌, ◌≡◌, refl, Bytes, codes, bytes_eq, beq, has_prefix, if◌then◌else◌, length,
  leb, ltb, ◌==◌,
}
use mathlib.Core.List.{reverse}
use webdav_serverless.Base.Dict.{Dict, lookup, insert, erase}
use webdav_serverless.Path.{root, slash, slash_clean, until_slash}
use webdav_serverless.IfHeader.{Condition}

-- ErrConfirmationFailed, ErrForbidden, ErrLocked and ErrNoSuchLock.
pub data LockError : Type 0 where
  confirmation_failed forbidden locked no_such_lock : LockError

pub data LockResult (A : Type 0) : Type 0 where
  granted : A → LockResult A
  refused : LockError → LockResult A

-- A negative duration is none: the lock does not expire.
pub record LockDetails : Type 0 where
  pub lock_root : Bytes
  pub duration : Option ℕ
  pub owner_xml : Bytes
  pub zero_depth : Bool

-- A memLSNode. `queued` says that byExpiryIndex is not -1.
pub record Node : Type 0 where
  pub details : LockDetails
  pub token : Bytes
  pub ref_count : ℕ
  pub expiry : ℕ
  pub queued : Bool
  pub held : Bool

-- A pointer to a node is the node's name: byName has one node for a name, and a node that has left
-- it has no token, is not queued and is not held. The heap byExpiry is the list of its nodes in the
-- order of their expiry.
pub record MemLs : Type 0 where
  pub by_name : Dict Bytes Node
  pub by_token : Dict Bytes Bytes
  pub gen : ℕ
  pub by_expiry : List Bytes

-- `none` is a panic.
infixl 5 ◌>>=◌
abbrev pub ◌>>=◌ {ℓ κ} : {A : Type ℓ} {B : Type κ} → Option A → (A → Option B) → Option B
none >>= f = none
some a >>= f = f a

-- `name[:strings.LastIndex(name, "/")]`, or the root for an empty text.
abbrev pub root_or : Bytes → Bytes
root_or [] = root
root_or (c ∷ s) = c ∷ s

abbrev pub without_slash : Bytes → Bytes
without_slash [] = []
without_slash (c ∷ s) = s

unfoldable pub up : Bytes → Bytes
unfolding until_slash
up name = root_or (reverse (without_slash (until_slash [] (reverse name)).1))

-- The names that walkToRoot gives, the first one first.
unfoldable pub walk : ℕ → Bytes → List Bytes
unfolding up
walk zero name = []
walk (suc fuel) name =
    let rest = walk fuel (up name) in if beq name root then name ∷ [] else name ∷ rest

unfoldable pub walk_to_root : Bytes → List Bytes
unfolding walk
walk_to_root name = walk (suc (length name)) name

abbrev pub set_node : Bytes → Node → MemLs → MemLs
set_node name n m = record m { by_name = insert name n m.by_name }

-- heap.Push: the place in the order of the expiry.
abbrev pub expiry_of : Option Node → ℕ
expiry_of none = 0
expiry_of (some n) = n.expiry

pub push : Dict Bytes Node → Bytes → ℕ → List Bytes → List Bytes
push nodes name expiry [] = name ∷ []
push nodes name expiry (x ∷ xs) =
    let rest = push nodes name expiry xs in
    if ltb expiry (expiry_of (lookup x nodes)) then name ∷ x ∷ xs else x ∷ rest

-- heap.Remove
unfoldable pub unlist : Bytes → List Bytes → List Bytes
unlist name [] = []
unlist name (x ∷ xs) = let rest = unlist name xs in if beq x name then xs else x ∷ rest

pub heap_push : Bytes → Node → MemLs → MemLs
unfolding push
heap_push name n m = record m {
  by_name = insert name (record n { queued = true }) m.by_name;
  by_expiry = push m.by_name name n.expiry m.by_expiry;
}

unfoldable pub heap_remove : Bytes → Node → MemLs → MemLs
unfolding unlist
heap_remove name n m = record m {
  by_name = insert name (record n { queued = false }) m.by_name;
  by_expiry = unlist name m.by_expiry;
}

-- The closure of canCreate, for a name of the walk.
can_pass : Bool → Bool → Option Node → Bool
can_pass zero_depth first none = true
can_pass zero_depth true (some n) = beq n.token [] && zero_depth
can_pass zero_depth false (some n) = beq n.token [] || n.details.zero_depth

can_walk : Bool → Bool → Dict Bytes Node → List Bytes → Bool
unfolding can_pass
can_walk zero_depth first nodes [] = true
can_walk zero_depth first nodes (x ∷ xs) =
    can_pass zero_depth first (lookup x nodes) && can_walk zero_depth false nodes xs

unfoldable pub can_create : Bytes → Bool → MemLs → Bool
unfolding can_walk walk_to_root
can_create name zero_depth m = can_walk zero_depth true m.by_name (walk_to_root name)

-- The closure of create: a node for the name, with one more reference.
abbrev pub fresh_node : Bytes → Node
fresh_node name = record {
  details = record { lock_root = name; duration = some 0; owner_xml = []; zero_depth = false };
  token = [];
  ref_count = 0;
  expiry = 0;
  queued = false;
  held = false;
}

abbrev pub or_fresh : Bytes → Option Node → Node
or_fresh name none = fresh_node name
or_fresh name (some n) = n

unfoldable pub refer : Dict Bytes Node → List Bytes → Dict Bytes Node
refer nodes [] = nodes
refer nodes (x ∷ xs) =
    let n = or_fresh x (lookup x nodes) in
    refer (insert x (record n { ref_count = n.ref_count + 1 }) nodes) xs

-- The closure of remove: one reference less, and no node without one. A nil pointer is a panic.
unfoldable pub release_one : Bytes → Option Node → Dict Bytes Node → Option (Dict Bytes Node)
release_one x none nodes = none
release_one x (some n) nodes = some (
    if n.ref_count == 1
    then erase x nodes
    else insert x (record n { ref_count = n.ref_count - 1 }) nodes)

unfoldable pub unrefer : Dict Bytes Node → List Bytes → Option (Dict Bytes Node)
unfolding release_one
unrefer nodes [] = some nodes
unrefer nodes (x ∷ xs) = do rest ← release_one x (lookup x nodes) nodes; unrefer rest xs
